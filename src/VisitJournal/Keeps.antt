-- ===== src/VisitJournal/Keeps.antt =====
-- What every change of an immediate visit's journal keeps, every history of calls keeps.
use ln_church_agent.Common.{ℕ, List, not, ◌∷◌, []}
use ln_church_agent.VisitJournal.Types.{Visit, Claim, Report, Result, VisitError}
use ln_church_agent.VisitJournal.Methods.{
  begin_endpoint, VisitMethod, begin_fetch, prepare_report, call_visit, run_visits, freeze, loaded,
  correct_unaccepted_report, replace, record_dispatch, VisitCall, mark_dispatch, validate,
  record_result, visit, mark_result, prepare, correct, dispatched, completed,
}
use ln_church_agent.Common.Outcome.{when-keeps, ◌>>◌, modify, raise, bind-keeps}
use ln_church_agent.Common.Lists.{contains}

-- the changes that the methods make, each of which keeps the predicate
pub record IsKept (P : Visit → Type 0) (c : Claim) : Type 0 where
  pub on_begin :
      (endpoint at : ℕ) (v : Visit) → P v → P (begin_endpoint endpoint at v.endpoint_id v).1
  pub on_freeze : (r : Report) (v : Visit) → P v → P (freeze c r v.report v).1
  pub on_replace : (r : Report) (v : Visit) → P v → P (replace c r v.report v).1
  pub on_dispatch : (v : Visit) → P v → P (mark_dispatch v)
  pub on_result : (result : Result) (v : Visit) → P v → P (mark_result result v)

module _ (P : Visit → Type 0) (c : Claim) (k : IsKept P c) where
  loaded-keeps : {A : Type 0} (m : VisitMethod A) (v : Visit) → P v → P (m v).1 → P (loaded c m v).1
  loaded-keeps m v h h' =
      when-keeps P (not (validate c v)) (raise VisitError.visit_invalid) m v h h'

  begin_fetch-keeps : (endpoint at : ℕ) (v : Visit) → P v → P (begin_fetch c endpoint at v).1
  unfolding begin_fetch
  begin_fetch-keeps endpoint at v h =
      when-keeps P (not (contains endpoint c.endpoints)) (raise VisitError.visit_conflict)
        (loaded c (begin_endpoint endpoint at v.endpoint_id)) v h
        (loaded-keeps (begin_endpoint endpoint at v.endpoint_id) v h (k.on_begin endpoint at v h))

  prepare_report-keeps : (r : Report) (v : Visit) → P v → P (prepare_report c r v).1
  unfolding prepare_report
  prepare_report-keeps r v h =
      when-keeps P (not (c.is_bound r)) (raise VisitError.visit_conflict)
        (loaded c (freeze c r v.report)) v h
        (loaded-keeps (freeze c r v.report) v h (k.on_freeze r v h))

  then-keeps :
      (r : Report) (f : Visit → Visit) (v : Visit)
      → ((v : Visit) → P v → P (f v))
      → P v
      → P ((prepare_report c r >> loaded c (modify f)) v).1
  then-keeps r f v g h =
      let v' = (prepare_report c r v).1 in
      let h' = prepare_report-keeps r v h in
      bind-keeps P (prepare_report c r) (λ _. loaded c (modify f)) v h'
        (λ _ e. loaded-keeps {A = Unit {0}} (modify f) v' h' (g v' h'))

  call_visit-keeps : (call : VisitCall) (v : Visit) → P v → P (call_visit c call v)
  unfolding call_visit correct_unaccepted_report record_dispatch record_result
  call_visit-keeps (visit endpoint at) v h = begin_fetch-keeps endpoint at v h
  call_visit-keeps (prepare r) v h = prepare_report-keeps r v h
  call_visit-keeps (correct r) v h = loaded-keeps (replace c r v.report) v h (k.on_replace r v h)
  call_visit-keeps (dispatched r) v h = then-keeps r mark_dispatch v k.on_dispatch h
  call_visit-keeps (completed r result) v h =
      then-keeps r (mark_result result) v (k.on_result result) h

  pub run_visits-keeps : (calls : List VisitCall) (v : Visit) → P v → P (run_visits c calls v)
  unfolding run_visits
  run_visits-keeps [] v h = h
  run_visits-keeps (call ∷ rest) v h =
      run_visits-keeps rest (call_visit c call v) (call_visit-keeps call v h)
