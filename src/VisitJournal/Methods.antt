-- ===== src/VisitJournal/Methods.antt =====
-- The methods of `ImmediateVisitJournal` (ln_church_agent/immediate_visit_journal.py). A crash
-- between the two writes of a method leaves what `prepare_report` alone leaves.
use ln_church_agent.Common.{
  Bool, Option, ℕ, ◌==◌, none, some, true, List, ◌&&◌, is_none, not, false, if◌then◌else◌, ◌∷◌,
  opt_eq, ◌||◌, [],
}
use ln_church_agent.Common.Outcome.{Method, when◌run◌otherwise◌, raised, ◌>>◌, modify, raise, done}
use ln_church_agent.VisitJournal.Types.{Report, Claim, Visit, Result, VisitError}
use ln_church_agent.Common.Lists.{contains}

abbrev pub VisitMethod : Type 0 → Type 0
VisitMethod A = Method Visit VisitError A

-- `report.canonical_bytes == other.canonical_bytes`
abbrev pub same_bytes : Report → Report → Bool
same_bytes a b =
    a.endpoint_id == b.endpoint_id
    && a.submission_id == b.submission_id
    && a.fetch_started_at == b.fetch_started_at
    && a.observation == b.observation

-- the keys that a correction must not change
abbrev pub same_acquisition : Report → Report → Bool
same_acquisition a b =
    a.endpoint_id == b.endpoint_id
    && a.fetch_started_at == b.fetch_started_at
    && a.observation == b.observation

-- `_validate`
unfoldable pub validate : Claim → Visit → Bool
validate c v = elim v.report [
  | none ↦ is_none v.report_sha256 && not v.dispatch_started && not v.accepted
  | some r ↦ opt_eq (some r.endpoint_id) v.endpoint_id && opt_eq (some (c.sha256 r)) v.report_sha256
]

-- the body of a method, on the loaded object
abbrev pub loaded : {A : Type 0} → Claim → VisitMethod A → VisitMethod A
loaded c m v = (when not (validate c v) run raise VisitError.visit_invalid otherwise m) v

-- `_initial`
abbrev pub initial : Visit
initial = record {
  endpoint_id = none;
  fetch_started_at = none;
  report = none;
  report_sha256 = none;
  dispatch_started = false;
  accepted = false;
  correctable = false;
}

unfoldable pub begin_endpoint : ℕ → ℕ → Option ℕ → VisitMethod Bool
begin_endpoint endpoint at (some e) v =
    if not (e == endpoint) then (raised VisitError.visit_conflict, v) else (done false, v)
begin_endpoint endpoint at none v =
    (done true, record v { endpoint_id = some endpoint; fetch_started_at = some at })

-- `begin_fetch`; it returns `start_permitted`
unfoldable pub begin_fetch : Claim → ℕ → ℕ → VisitMethod Bool
unfolding validate begin_endpoint
begin_fetch c endpoint at v =
    (when not (contains endpoint c.endpoints)
        run raise VisitError.visit_conflict
        otherwise loaded c (begin_endpoint endpoint at v.endpoint_id))
      v

-- the object with a report
unfoldable pub with_report : Claim → Report → Visit → Visit
with_report c r v = record v {
  endpoint_id = some r.endpoint_id;
  fetch_started_at = some r.fetch_started_at;
  report = some r;
  report_sha256 = some (c.sha256 r);
}

unfoldable pub freeze : Claim → Report → Option Report → VisitMethod (Unit {0})
unfolding with_report
freeze c r (some old) v =
    if not (same_bytes old r) then (raised VisitError.visit_conflict, v) else (done tt, v)
freeze c r none v =
    if not (is_none v.endpoint_id) && not (opt_eq v.endpoint_id (some r.endpoint_id))
    then (raised VisitError.visit_conflict, v)
    else (done tt, with_report c r v)

-- `prepare_report`
unfoldable pub prepare_report : Claim → Report → VisitMethod (Unit {0})
unfolding validate freeze
prepare_report c r v =
    (when not (c.is_bound r)
        run raise VisitError.visit_conflict
        otherwise loaded c (freeze c r v.report))
      v

unfoldable pub replace : Claim → Report → Option Report → VisitMethod (Unit {0})
unfolding with_report
replace c r none v = (raised VisitError.visit_conflict, v)
replace c r (some old) v =
    if v.accepted || not v.correctable || not (same_acquisition old r)
    then (raised VisitError.visit_conflict, v)
    else (
      done tt,
      record v {
        report = some r;
        report_sha256 = some (c.sha256 r);
        dispatch_started = false;
        correctable = false;
      },
    )

-- `correct_unaccepted_report`
unfoldable pub correct_unaccepted_report : Claim → Report → VisitMethod (Unit {0})
unfolding validate replace
correct_unaccepted_report c r v = loaded c (replace c r v.report) v

unfoldable pub mark_dispatch : Visit → Visit
mark_dispatch v = record v { dispatch_started = true; correctable = false }

-- `record_dispatch`
unfoldable pub record_dispatch : Claim → Report → VisitMethod (Unit {0})
unfolding prepare_report validate mark_dispatch
record_dispatch c r = prepare_report c r >> loaded c (modify mark_dispatch)

unfoldable pub mark_result : Result → Visit → Visit
mark_result Result.was_accepted v = record v { accepted = true; correctable = false }
mark_result (Result.was_rejected invalid) v =
    if v.accepted then v else record v { correctable = invalid }
mark_result Result.was_other v = v

-- `record_result`
unfoldable pub record_result : Claim → Report → Result → VisitMethod (Unit {0})
unfolding prepare_report validate mark_result
record_result c r result = prepare_report c r >> loaded c (modify (mark_result result))

-- the calls of a journal's methods, and what a history of them leaves
pub data VisitCall : Type 0 where
  visit : ℕ → ℕ → VisitCall
  prepare correct dispatched : Report → VisitCall
  completed : Report → Result → VisitCall

unfoldable pub call_visit : Claim → VisitCall → Visit → Visit
unfolding begin_fetch prepare_report correct_unaccepted_report record_dispatch record_result
call_visit c (visit endpoint at) v = (begin_fetch c endpoint at v).1
call_visit c (prepare r) v = (prepare_report c r v).1
call_visit c (correct r) v = (correct_unaccepted_report c r v).1
call_visit c (dispatched r) v = (record_dispatch c r v).1
call_visit c (completed r result) v = (record_result c r result v).1

unfoldable pub run_visits : Claim → List VisitCall → Visit → Visit
unfolding call_visit
run_visits c [] v = v
run_visits c (call ∷ rest) v = run_visits c rest (call_visit c call v)
