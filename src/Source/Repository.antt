-- ===== src/Source/Repository.antt =====
-- How downloadRepository of src/source/src/source.cpp ends, with the commands of the classes.
use primitives.Prelude.{
  ℕ, zero, suc, ◌≡◌, refl, sym, ap, ◌∙◌, ◌⊎◌, inl, inr, Bool, true, false, List, [], ◌∷◌, ◌++◌,
  Option, none, some, map, Bytes, codes, Bool-cases, if◌then◌else◌, Outcome, ok, throw, undefined,
  Error, failed_call,
}
use primitives.Source.Calls.{
  Call, execute, Host, Run, ◌>>◌, first_error, tried, retry, download_repository, call,
  run_commands,
}
use primitives.Source.Download.{git_checkout, git_commands}

-- The calls of the commands, behind those before.
abbrev pub made : Bytes → List (List Bytes) → List Call → List Call
made dir [] older = older
made dir (c ∷ cs) older = made dir cs (execute dir c ∷ older)

-- None of them throws.
abbrev pub Ran : Host → Bytes → List (List Bytes) → List Call → Type 0
Ran h dir [] older = Unit
Ran h dir (c ∷ cs) older =
    (h.fails (execute dir c ∷ older) ≡ false) × Ran h dir cs (execute dir c ∷ older)

-- How a run of the commands ends.
data Ends (h : Host) (dir : Bytes) (cs : List (List Bytes)) (older : List Call)
    : Outcome (Unit {0}) × List Call → Type 0 where
  ran : Ran h dir cs older → Ends h dir cs older (ok tt, made dir cs older)
  failed : (log : List Call) → Ends h dir cs older (throw failed_call, log)

later :
    (h : Host) (dir : Bytes) (c : List Bytes) (cs : List (List Bytes)) (older : List Call)
    {r : Outcome (Unit {0}) × List Call}
    → h.fails (execute dir c ∷ older) ≡ false
    → Ends h dir cs (execute dir c ∷ older) r
    → Ends h dir (c ∷ cs) older r
later h dir c cs older fine (ran k) = ran (fine, k)
later h dir c cs older fine (failed log) = failed log

run_commands-Ends :
    (h : Host) (dir : Bytes) (cs : List (List Bytes)) (older : List Call)
    → Ends h dir cs older (run_commands h dir cs older)
unfolding run_commands ◌>>◌ call
run_commands-Ends h dir [] older = ran tt
run_commands-Ends h dir (c ∷ cs) older = elim (Bool-cases (h.fails (execute dir c ∷ older))) [
  | inl bad ↦ rw (◌>>◌, call, bad) (failed (execute dir c ∷ older))
  | inr fine ↦
      rw (◌>>◌, call, fine)
        (later h dir c cs older fine (run_commands-Ends h dir cs (execute dir c ∷ older)))
]

module _ (h : Host) (dir : Bytes) (cs : List (List Bytes)) where
  abbrev Returned : Outcome (Unit {0}) × List Call → Type 0
  Returned r = r.0 ≡ ok tt → (older : List Call) × (r.1 ≡ made dir cs older) × Ran h dir cs older

  tried_last-Returned :
      (first : Option Error) (again : Error → Run (Unit {0})) (log : List Call)
      {r : Outcome (Unit {0}) × List Call}
      → Ends h dir cs log r
      → Returned (tried true first again r)
  tried_last-Returned first again log (ran c) = λ e. (log, refl, c)
  tried_last-Returned first again log (failed log') = λ e. cc

  tried-Returned :
      (first : Option Error) (again : Error → Run (Unit {0})) (log : List Call)
      {r : Outcome (Unit {0}) × List Call}
      → ((e : Error) (log : List Call) → Returned (again e log))
      → Ends h dir cs log r
      → Returned (tried false first again r)
  tried-Returned first again log k (ran c) = λ e. (log, refl, c)
  tried-Returned first again log k (failed log') = k (first_error first failed_call) log'

  retry-Returned :
      (n : ℕ) (first : Option Error) (log : List Call)
      → Returned (retry (suc n) first (run_commands h dir cs) log)
  unfolding retry
  retry-Returned zero first log =
      tried_last-Returned first (λ e. retry zero (some e) (run_commands h dir cs)) log
        (run_commands-Ends h dir cs log)
  retry-Returned (suc n) first log =
      tried-Returned first (λ e. retry (suc n) (some e) (run_commands h dir cs)) log
        (λ e. retry-Returned n (some e)) (run_commands-Ends h dir cs log)

  -- When the download of a repository returns, its last calls are all the commands in their order, of
  -- which none has failed.
  pub download_repository-Ran :
      (log log' : List Call)
      → download_repository (run_commands h dir cs) log ≡ (ok tt, log')
      → (older : List Call) × (log' ≡ made dir cs older) × Ran h dir cs older
  unfolding download_repository
  download_repository-Ran log log' e =
      let (older, m, r) = retry-Returned 2 none log (ap (λ p. p.0) e) in
      (older, sym (ap (λ p. p.1) e) ∙ m, r)

-- What is among the calls so far.
abbrev pub Within : Call → List Call → Type 0
Within c [] = ⊥
Within c (d ∷ ds) = (d ≡ c) ⊎ Within c ds

run_commands-Within :
    (h : Host) (dir : Bytes) (cs : List (List Bytes)) (c : Call) (log : List Call)
    → Within c log
    → Within c (run_commands h dir cs log).1
unfolding run_commands ◌>>◌ call
run_commands-Within h dir [] c log w = w
run_commands-Within h dir (d ∷ ds) c log w = elim (Bool-cases (h.fails (execute dir d ∷ log))) [
  | inl bad ↦ rw bad (inr w)
  | inr fine ↦ rw fine (run_commands-Within h dir ds c (execute dir d ∷ log) (inr w))
]

abbrev pub add_origin : Bytes → Bytes → Call
add_origin dir url = execute dir (map codes ("git" ∷ "remote" ∷ "add" ∷ "origin" ∷ []) ++ url ∷ [])

abbrev pub init : Bytes → Call
init dir = execute dir (map codes ("git" ∷ "init" ∷ []))

tried_throw :
    (last : Bool) (first : Option Error) (again : Error → Run (Unit {0}))
    (r : Outcome (Unit {0}) × List Call)
    → r.0 ≡ throw failed_call
    → tried last first again r
      ≡ (let x = first_error first failed_call in if last then (throw x, r.1) else again x r.1)
tried_throw last first again (ok a, log) e = cc
tried_throw last first again (undefined, log) e = cc
tried_throw last first again (throw d, log) e = let f : d ≡ failed_call = cc in rw f refl

module _ (h : Host) (dir url tag branch commit : Bytes)
    (twice : (log : List Call)
      → Within (add_origin dir url) log
      → h.fails (add_origin dir url ∷ log) ≡ true) where
  abbrev fetch : Run (Unit {0})
  fetch = run_commands h dir (git_commands url tag branch commit)

  fetch_again :
      (log : List Call)
      → Within (add_origin dir url) log
      → ((fetch log).0 ≡ throw failed_call) × Within (add_origin dir url) (fetch log).1
  unfolding run_commands ◌>>◌ call
  fetch_again log w = elim (Bool-cases (h.fails (init dir ∷ log))) [
    | inl bad ↦ rw bad (refl, inr w)
    | inr fine ↦ rw (fine, twice (init dir ∷ log) (inr w)) (refl, inr (inr w))
  ]

  first_try :
      (log : List Call)
      → h.fails (init dir ∷ log) ≡ false
      → h.fails (add_origin dir url ∷ init dir ∷ log) ≡ false
      → (run_commands h dir
          (git_checkout tag branch commit)
          (add_origin dir url ∷ init dir ∷ log)).0
        ≡ throw failed_call
      → ((fetch log).0 ≡ throw failed_call) × Within (add_origin dir url) (fetch log).1
  unfolding ◌>>◌ call run_commands
  first_try log i a c =
      rw (i, a)
        (
          c,
          run_commands-Within h dir (git_checkout tag branch commit) (add_origin dir url)
              (add_origin dir url ∷ init dir ∷ log) (inl refl),
        )

  retry_throws :
      (n : ℕ) (first : Option Error) (log : List Call)
      → first_error first failed_call ≡ failed_call
      → Within (add_origin dir url) (fetch log).1
      → (fetch log).0 ≡ throw failed_call
      → (retry (suc n) first fetch log).0 ≡ throw failed_call
  unfolding retry
  retry_throws zero first log f w e =
      rw (tried_throw true first (λ x. retry zero (some x) fetch) (fetch log) e, f) refl
  retry_throws (suc n) first log f w e =
      let (e', w') = fetch_again (fetch log).1 w in
      rw (tried_throw false first (λ x. retry (suc n) (some x) fetch) (fetch log) e, f)
        (retry_throws n (some failed_call) (fetch log).1 refl w' e')

  -- Where git refuses to add a remote twice: once the first try has added it and then failed, as when
  -- the fetch fails, the two other tries fail as well, and downloadRepository throws.
  pub download_repository_stuck :
      (log : List Call)
      → h.fails (init dir ∷ log) ≡ false
      → h.fails (add_origin dir url ∷ init dir ∷ log) ≡ false
      → (run_commands h dir
          (git_checkout tag branch commit)
          (add_origin dir url ∷ init dir ∷ log)).0
        ≡ throw failed_call
      → (download_repository fetch log).0 ≡ throw failed_call
  unfolding download_repository
  download_repository_stuck log i a c =
      let (e, w) = first_try log i a c in retry_throws 2 none log refl w e
