-- ===== src/Journals/StructuredCalls.antt =====
-- The end of a completion in `StructuredResponseJournal`
-- (ln_church_agent/structured_response_journal.py), and histories of its methods.
-- a result by its state, with the error code where it permits a correction
use Prim.Native.Nat.{ℕ}
use ln_church_agent.Common.{
  Option, Bool, List, ◌≡◌, if◌then◌else◌, ◌∷◌, true, some, ◌||◌, none, [], ◌&&◌, not, arith, false,
}
use ln_church_agent.Journals.Structured.{
  Structured, StructuredRules, Correctable, StructuredReport, save_task, begin_claim,
  validate_structured, is_other, save_claim, prepare_structured, dispatch_structured,
}
use ln_church_agent.Journals.Stored.{rewrite_file, FileError, Stored, rewrite_file-keeps}
use ln_church_agent.Common.Outcome.{Outcome, done, raised}
use ln_church_agent.Common.Lists.{all}

pub data ResultState : Type 0 where
  result_accepted result_other : ResultState
  result_rejected : Option Correctable → ResultState

-- `record_result`; `shown` stands for the saved result
unfoldable pub result_structured :
    ResultState → ℕ → Bool → Structured → Outcome FileError (Option Structured)
result_structured result_accepted shown first_definite d =
    done (some (record d { accepted = true; rejection = none; last_result = some shown }))
result_structured result_other shown first_definite d =
    done (some (record d { last_result = some shown }))
result_structured (result_rejected code) shown first_definite d =
    if first_definite && not d.accepted
    then done (
        some (record d {
          completion_unknown = false;
          completion_started = false;
          rejection = code;
          last_result = some shown;
        }))
    else done (some (record d { last_result = some shown }))

-- `abandon_key`
unfoldable pub abandon_structured : ℕ → Structured → Outcome FileError (Option Structured)
abandon_structured key d =
    if d.accepted || d.completion_unknown || is_other d.abandon_key key
    then raised FileError.state_conflict
    else done (some (record d { abandon_key = some key }))

-- `record_abandoned`
abbrev pub abandoned_structured : Structured → Outcome FileError (Option Structured)
abandoned_structured d = done (some (record d { abandoned = true }))

-- a call of a method that writes
pub data StructuredCall : Type 0 where
  task_saved : ℕ → StructuredCall
  claim_begun : StructuredCall
  claim_saved : ℕ → StructuredCall
  report_prepared : StructuredReport → Bool → StructuredCall
  dispatched : StructuredCall
  result_recorded : ResultState → ℕ → Bool → StructuredCall
  key_abandoned : ℕ → StructuredCall
  abandonment_recorded : StructuredCall

abbrev pub change_of :
    StructuredRules → StructuredCall → Structured → Outcome FileError (Option Structured)
change_of rules (task_saved task) = save_task rules task
change_of rules claim_begun = begin_claim
change_of rules (claim_saved claim) = save_claim rules claim
change_of rules (report_prepared r correction) = prepare_structured rules r correction
change_of rules dispatched = dispatch_structured rules
change_of rules (result_recorded result shown first_definite) =
    result_structured result shown first_definite
change_of rules (key_abandoned key) = abandon_structured key
change_of rules abandonment_recorded = abandoned_structured

-- a history of calls, each on the file that the one before left
unfoldable pub run_structured :
    StructuredRules → List StructuredCall → Stored Structured → Stored Structured
unfolding rewrite_file
run_structured rules [] w = w
run_structured rules (call ∷ rest) w =
    run_structured rules rest (rewrite_file (validate_structured rules) (change_of rules call) w).1

-- What the changes of valid objects keep, the history keeps.
pub run_structured-keeps :
    (P : Structured → Type 0) (Q : StructuredCall → Bool) (rules : StructuredRules)
    → ((call : StructuredCall) (d d' : Structured)
        → Q call ≡ true
        → validate_structured rules d ≡ none
        → change_of rules call d ≡ done (some d')
        → P d
        → P d')
    → (calls : List StructuredCall) (w : Stored Structured) → all Q calls ≡ true
    → P w.file
    → P (run_structured rules calls w).file
unfolding run_structured
run_structured-keeps P Q rules k [] w q h = h
run_structured-keeps P Q rules k (call ∷ rest) w q h =
    run_structured-keeps P Q rules k rest
      (rewrite_file (validate_structured rules) (change_of rules call) w).1 (ground (arith, q))
      (rewrite_file-keeps P (validate_structured rules) (change_of rules call) w
        (λ d v u. k call w.file d (ground (arith, q)) v u h) h)
