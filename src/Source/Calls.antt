-- ===== src/Source/Calls.antt =====
-- What the code of src/source/src/source.cpp asks of the system, and how it goes on: exceptions,
-- SCOPE_EXIT, the loop of downloadRepository.
use primitives.Prelude.{
  ℕ, zero, suc, Bool, true, false, List, [], ◌∷◌, Option, none, some, Bytes, if◌then◌else◌, Outcome,
  ok, throw, undefined, Error, failed_call,
}

pub data Call : Type 0 where
  create_directories : Bytes → Call
  execute : Bytes → List Bytes → Call
  download : Bytes → Bytes → Call
  unpack : Bytes → Bytes → Call
  remove : Bytes → Call

-- Whether the newest call throws, and whether a file is there.
pub record Host : Type 0 where
  pub fails : List Call → Bool
  pub exists : List Call → Bytes → Bool

abbrev pub Run : Type 0 → Type 0
Run A = List Call → Outcome A × List Call

abbrev pub lift : {A : Type 0} → Outcome A → Run A
lift r log = (r, log)

abbrev pub continue : {A B : Type 0} → (A → Run B) → Outcome A × List Call → Outcome B × List Call
continue f (ok a, log) = f a log
continue f (throw e, log) = (throw e, log)
continue f (undefined, log) = (undefined, log)

infixl 5 ◌>>◌
unfoldable pub ◌>>◌ : Run (Unit {0}) → Run (Unit {0}) → Run (Unit {0})
◌>>◌ m k log = continue (λ _. k) (m log)

abbrev pub handle :
    (Error → Run (Unit {0})) → Outcome (Unit {0}) × List Call → Outcome (Unit {0}) × List Call
handle f (ok a, log) = (ok a, log)
handle f (throw e, log) = f e log
handle f (undefined, log) = (undefined, log)

unfoldable pub catch : Run (Unit {0}) → (Error → Run (Unit {0})) → Run (Unit {0})
catch m f log = handle f (m log)

-- A call at the end of a scope, whose error is not looked at.
unfoldable pub finally : Run (Unit {0}) → Call → Run (Unit {0})
finally m c log = let (r, log') = m log in (r, c ∷ log')

abbrev pub first_error : Option Error → Error → Error
first_error none e = e
first_error (some d) e = d

-- The loop of downloadRepository with n tries left. The last one that fails throws what the first
-- one threw.
abbrev pub tried :
    Bool
    → Option Error
    → (Error → Run (Unit {0}))
    → Outcome (Unit {0}) × List Call
    → Outcome (Unit {0}) × List Call
tried last first again (ok a, log) = (ok a, log)
tried last first again (undefined, log) = (undefined, log)
tried last first again (throw e, log) =
    let x = first_error first e in if last then (throw x, log) else again x log

abbrev pub is_zero : ℕ → Bool
is_zero zero = true
is_zero (suc n) = false

unfoldable pub retry : ℕ → Option Error → Run (Unit {0}) → Run (Unit {0})
retry zero first f log = (ok tt, log)
retry (suc n) first f log = tried (is_zero n) first (λ e. retry n (some e) f) (f log)

unfoldable pub download_repository : Run (Unit {0}) → Run (Unit {0})
unfolding retry
download_repository f = retry 3 none f

module _ (h : Host) where
  unfoldable pub call : Call → Run (Unit {0})
  call c log = (if h.fails (c ∷ log) then throw failed_call else ok tt, c ∷ log)

  unfoldable pub when_exists : Bytes → Call → Run (Unit {0})
  unfolding call
  when_exists fn c log = if h.exists log fn then call c log else (ok tt, log)

  -- execute_command_in_dir for each command
  unfoldable pub run_commands : Bytes → List (List Bytes) → Run (Unit {0})
  run_commands dir [] = lift (ok tt)
  run_commands dir (c ∷ cs) = call (execute dir c) >> run_commands dir cs
