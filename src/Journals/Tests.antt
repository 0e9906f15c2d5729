-- ===== src/Journals/Tests.antt =====
-- A report that is posted, corrected after a rejection and accepted, and the properties there.
use ln_church_agent.Journals.Structured.{
  StructuredRules, StructuredReport, Structured, initial_structured, Correctable,
  validate_structured, save_task, begin_claim, save_claim, prepare_structured, dispatch_structured,
}
use ln_church_agent.Journals.Stored.{Stored}
use ln_church_agent.Common.{List, true, ◌≡◌, none, some, ◌+◌, refl, [], ◌∷◌, false}
use ln_church_agent.Journals.StructuredCalls.{
  run_structured, StructuredCall, task_saved, report_prepared, key_abandoned, claim_begun,
  dispatched, claim_saved, result_recorded, result_accepted, result_rejected, result_structured,
}
use ln_church_agent.Journals.StructuredLaws.{
  IsUnknownReport, IsAcceptedReport, run_structured-IsAcceptedReport,
  run_structured-IsUnknownReport,
}
use ln_church_agent.Journals.Endpoint.{
  EndpointRules, EndpointFile, EndpointCall, run_endpoint, initial_endpoint, endpoint_prepared,
  endpoint_recorded, endpoint_accepted,
}
use ln_church_agent.Journals.EndpointLaws.{IsHeld, run_endpoint-IsHeld}
use ln_church_agent.TaskJournal.Store.{before_replace}

abbrev rules : StructuredRules
rules = record {
  task_bound = λ task. true;
  claim_bound = λ task claim. true;
  report_bound = λ task claim r. true;
  answer_valid = λ task claim r. true;
}

abbrev first_report : StructuredReport
first_report = record { canonical_bytes = 1; submission_id = 1; report_sha256 = 1 }

abbrev second_report : StructuredReport
second_report = record { canonical_bytes = 2; submission_id = 2; report_sha256 = 2 }

abbrev fresh : Stored Structured
fresh = record { file = initial_structured; faults = [] }

abbrev until_rejection : List StructuredCall
until_rejection =
    task_saved 5
    ∷ claim_begun
    ∷ claim_saved 6
    ∷ report_prepared first_report false
    ∷ dispatched
    ∷ report_prepared second_report true
    ∷ result_recorded (result_rejected (some Correctable.invalid_request)) 7 true
    ∷ []

abbrev after_rejection : List StructuredCall
after_rejection =
    report_prepared second_report true ∷ dispatched ∷ result_recorded result_accepted 8 false ∷ []

-- the correction before the rejection is refused, and the one after it is written
corrected :
    (run_structured rules after_rejection (run_structured rules until_rejection fresh)).file.report
    ≡ some second_report
unfolding run_structured validate_structured save_task begin_claim save_claim prepare_structured
    dispatch_structured result_structured
corrected = refl

abbrev unknown_outcome : Stored Structured
unknown_outcome = record {
  file = record initial_structured {
    task = some 5;
    credential = some 6;
    report = some first_report;
    report_sha256 = some 1;
    completion_started = true;
    completion_unknown = true;
  };
  faults = before_replace ∷ [];
}

run_structured-IsUnknownReport_example :
    IsUnknownReport first_report none
      (run_structured rules (key_abandoned 3 ∷ after_rejection) unknown_outcome).file
run_structured-IsUnknownReport_example =
    run_structured-IsUnknownReport rules first_report none (key_abandoned 3 ∷ after_rejection)
      unknown_outcome refl (record { is_unknown = refl; has_report = refl; same_key = refl })

abbrev accepted_outcome : Stored Structured
accepted_outcome = record unknown_outcome { file = record unknown_outcome.file { accepted = true } }

run_structured-IsAcceptedReport_example :
    IsAcceptedReport first_report (run_structured rules until_rejection accepted_outcome).file
run_structured-IsAcceptedReport_example =
    run_structured-IsAcceptedReport rules first_report until_rejection accepted_outcome
      (record { is_accepted = refl; has_report = refl })

abbrev endpoint_rules : EndpointRules
endpoint_rules = record {
  claim_bound = λ claim. true;
  report_bound = λ claim r. true;
  sha256 = λ r. r + 1;
}

abbrev posted : Stored EndpointFile
posted = record {
  file = record initial_endpoint {
    credential = some 6;
    report = some 1;
    report_sha256 = some 2;
    completion_started = true;
    completion_unknown = true;
  };
  faults = [];
}

abbrev endpoint_calls : List EndpointCall
endpoint_calls = endpoint_prepared 2 true ∷ endpoint_recorded endpoint_accepted false ∷ []

run_endpoint-IsHeld_example : IsHeld 1 (run_endpoint endpoint_rules endpoint_calls posted).file
run_endpoint-IsHeld_example =
    run_endpoint-IsHeld endpoint_rules endpoint_calls posted 1 refl
      (record { is_held = refl; has_report = refl })
