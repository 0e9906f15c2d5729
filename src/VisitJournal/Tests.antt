-- ===== src/VisitJournal/Tests.antt =====
-- A visit of a small claim, and each property at one of its histories.
use ln_church_agent.Common.{ℕ, List, true, some, ◌∷◌, false, ◌≢◌, refl, [], ◌≡◌}
use ln_church_agent.VisitJournal.Types.{Claim, Report, Visit, Result}
use ln_church_agent.VisitJournal.Methods.{
  run_visits, call_visit, VisitCall, begin_fetch, begin_endpoint, visit, prepare_report, correct,
  freeze, dispatched, with_report, completed, record_dispatch, replace, mark_dispatch,
  correct_unaccepted_report, record_result, mark_result, validate, prepare, initial,
}
use ln_church_agent.VisitJournal.Laws.{IsBegun, IsAccepted, run_visits-IsAccepted, run_visits_once}
use ln_church_agent.Common.Outcome.{done}

abbrev claim : Claim
claim = record { sha256 = λ r. r.submission_id; is_bound = λ r. true; endpoints = 4 ∷ 5 ∷ [] }

abbrev report : ℕ → Report
report submission = record {
  endpoint_id = 4;
  submission_id = submission;
  fetch_started_at = 100;
  observation = 9;
}

abbrev visited : Visit
visited = record {
  endpoint_id = some 4;
  fetch_started_at = some 100;
  report = some (report 1);
  report_sha256 = some 1;
  dispatch_started = true;
  accepted = false;
  correctable = true;
}

visited-run :
    run_visits claim
      (visit 4 100
        ∷ prepare (report 1)
        ∷ dispatched (report 1)
        ∷ completed (report 1) (Result.was_rejected true)
        ∷ [])
      initial
    ≡ visited
unfolding run_visits call_visit begin_fetch begin_endpoint prepare_report freeze with_report
    record_dispatch mark_dispatch record_result mark_result validate
visited-run = refl

abbrev later : List VisitCall
later =
    visit 5 200
    ∷ correct (report 2)
    ∷ dispatched (report 2)
    ∷ completed (report 2) Result.was_accepted
    ∷ []

later-run : (run_visits claim later visited).report ≡ some (report 2)
unfolding run_visits call_visit begin_fetch begin_endpoint prepare_report freeze with_report replace
    correct_unaccepted_report record_dispatch mark_dispatch record_result mark_result validate
later-run = refl

begin_fetch-permitted : (begin_fetch claim 4 100 initial).0 ≡ done true
unfolding begin_fetch begin_endpoint validate
begin_fetch-permitted = refl

run_visits_once_example :
    let v' = run_visits claim later (begin_fetch claim 4 100 initial).1 in
    IsBegun 4 v' × ((begin_fetch claim 5 300 v').0 ≢ done true)
run_visits_once_example = run_visits_once claim later initial 4 100 5 300 begin_fetch-permitted

abbrev ended : Visit
ended = record visited { accepted = true; correctable = false }

run_visits-IsAccepted_example : IsAccepted (report 1) (run_visits claim later ended)
run_visits-IsAccepted_example =
    run_visits-IsAccepted claim later ended (report 1)
      (record { is_accepted = refl; has_report = refl })
