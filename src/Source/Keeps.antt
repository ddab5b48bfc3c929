-- ===== src/Source/Keeps.antt =====
-- What holds of each call to the system keeps holding as runs are put together.
use primitives.Prelude.{
  ℕ, zero, suc, inl, inr, Bool, true, false, List, [], ◌∷◌, Option, none, some, Bytes, Bool-cases,
  All, Outcome, ok, throw, undefined, Error,
}
use primitives.Source.Calls.{
  Call, execute, Host, Run, lift, continue, ◌>>◌, handle, catch, finally, first_error, tried,
  is_zero, retry, download_repository, call, when_exists, run_commands,
}

module _ (P : Call → Type 0) where
  pub record Keeps (m : Run (Unit {0})) : Type 0 where
    pub kept : (log : List Call) → All P log → All P (m log).1

  pub lift-Keeps : (r : Outcome (Unit {0})) → Keeps (lift r)
  lift-Keeps r = record { kept = λ log k. k }

  continue-All :
      (m : Run (Unit {0})) (r : Outcome (Unit {0}) × List Call)
      → Keeps m
      → All P r.1
      → All P (continue (λ _. m) r).1
  continue-All m (ok a, log) n k = n.kept log k
  continue-All m (throw e, log) n k = k
  continue-All m (undefined, log) n k = k

  pub >>-Keeps : {m n : Run (Unit {0})} → Keeps m → Keeps n → Keeps (m >> n)
  unfolding ◌>>◌
  >>-Keeps {m} {n} hm hn = record { kept = λ log k. continue-All n (m log) hn (hm.kept log k) }

  handle-All :
      (f : Error → Run (Unit {0})) (r : Outcome (Unit {0}) × List Call)
      → ((e : Error) → Keeps (f e))
      → All P r.1
      → All P (handle f r).1
  handle-All f (ok a, log) n k = k
  handle-All f (throw e, log) n k = (n e).kept log k
  handle-All f (undefined, log) n k = k

  pub catch-Keeps :
      {m : Run (Unit {0})} {f : Error → Run (Unit {0})}
      → Keeps m
      → ((e : Error) → Keeps (f e))
      → Keeps (catch m f)
  unfolding catch
  catch-Keeps {m} {f} hm hf = record { kept = λ log k. handle-All f (m log) hf (hm.kept log k) }

  pub finally-Keeps : {m : Run (Unit {0})} {c : Call} → Keeps m → P c → Keeps (finally m c)
  unfolding finally
  finally-Keeps hm p = record { kept = λ log k. (p, hm.kept log k) }

  tried-All :
      (last : Bool) (first : Option Error) (again : Error → Run (Unit {0}))
      (r : Outcome (Unit {0}) × List Call)
      → ((e : Error) → Keeps (again e))
      → All P r.1
      → All P (tried last first again r).1
  tried-All last first again (ok a, log) n k = k
  tried-All last first again (undefined, log) n k = k
  tried-All true first again (throw e, log) n k = k
  tried-All false first again (throw e, log) n k = (n (first_error first e)).kept log k

  retry-Keeps :
      (n : ℕ) (first : Option Error) {f : Run (Unit {0})} → Keeps f → Keeps (retry n first f)
  unfolding retry
  retry-Keeps zero first hf = record { kept = λ log k. k }
  retry-Keeps (suc n) first {f} hf = record {
    kept = λ log k.
        tried-All (is_zero n) first (λ e. retry n (some e) f) (f log)
          (λ e. retry-Keeps n (some e) hf) (hf.kept log k);
  }

  pub download_repository-Keeps : {f : Run (Unit {0})} → Keeps f → Keeps (download_repository f)
  unfolding download_repository
  download_repository-Keeps hf = retry-Keeps 3 none hf

  module _ (h : Host) where
    pub call-Keeps : {c : Call} → P c → Keeps (call h c)
    unfolding call
    call-Keeps p = record { kept = λ log k. (p, k) }

    pub when_exists-Keeps : (fn : Bytes) {c : Call} → P c → Keeps (when_exists h fn c)
    unfolding when_exists
    when_exists-Keeps fn {c} p = record {
      kept = λ log k. elim (Bool-cases (h.exists log fn)) [
        | inl there ↦ rw there ((call-Keeps p).kept log k)
        | inr gone ↦ rw gone k
      ];
    }

    pub run_commands-Keeps :
        (dir : Bytes) (cs : List (List Bytes))
        → ((c : List Bytes) → P (execute dir c))
        → Keeps (run_commands h dir cs)
    unfolding run_commands
    run_commands-Keeps dir [] p = lift-Keeps (ok tt)
    run_commands-Keeps dir (c ∷ cs) p = >>-Keeps (call-Keeps (p c)) (run_commands-Keeps dir cs p)
