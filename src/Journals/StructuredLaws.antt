-- ===== src/Journals/StructuredLaws.antt =====
-- What the histories of a structured response journal keep.
-- the completion of this report was accepted
use ln_church_agent.Journals.Structured.{
  StructuredReport, Structured, StructuredRules, prepare_structured, save_task, prepare_bound,
  begin_claim, save_claim, dispatch_structured, write_valid, is_other, prepare_saved,
  structured_conflict, validate_structured, may_replace, same_report, write_of,
  with_structured_report, replaced, is_posted,
}
use ln_church_agent.Journals.StructuredCalls.{
  StructuredCall, change_of, result_recorded, result_rejected, report_prepared, result_structured,
  abandon_structured, task_saved, claim_saved, key_abandoned, run_structured, claim_begun,
  run_structured-keeps, dispatched, result_accepted, result_other, abandonment_recorded,
}
use ln_church_agent.Common.{
  ◌≡◌, Option, Bool, true, ℕ, none, some, not, arith, if-cases, List, ◌||◌, subst, ◌≢◌, ◌∷◌, [],
  refl, false, if◌then◌else◌, ◌&&◌,
}
use ln_church_agent.Common.Outcome.{done, Outcome, raised}
use ln_church_agent.Journals.Stored.{FileError, Stored}
use ln_church_agent.Common.Lists.{all}

pub record IsAcceptedReport (r : StructuredReport) (d : Structured) : Type 0 where
  pub is_accepted : d.accepted ≡ true
  pub has_report : d.report ≡ some r

-- the completion of this report may have been accepted
pub record IsUnknownReport (r : StructuredReport) (key : Option ℕ) (d : Structured) : Type 0 where
  pub is_unknown : d.completion_unknown ≡ true
  pub has_report : d.report ≡ some r
  pub same_key : d.abandon_key ≡ key

abbrev KeptBy : (Structured → Type 0) → StructuredRules → StructuredCall → Type 0
KeptBy P rules call = (d d' : Structured) → change_of rules call d ≡ done (some d') → P d → P d'

-- a definite rejection ends the doubt
abbrev pub leaves_doubt : StructuredCall → Bool
leaves_doubt (result_recorded (result_rejected code) shown first_definite) = not first_definite
leaves_doubt _ = true

write_valid-same :
    (o : Option FileError) (d d' : Structured) → write_valid o d ≡ done (some d') → d ≡ d'
write_valid-same none d d' u = ground (arith, u)
write_valid-same (some e) d d' u = ground (arith, u)

save_claim-same :
    (rules : StructuredRules) (claim : ℕ) (d d' : Structured)
    → save_claim rules claim d ≡ done (some d')
    → record d { credential = some claim } ≡ d'
unfolding save_claim
save_claim-same rules claim d d' u =
    let e : Structured = record d { credential = some claim } in
    if-cases (λ o. o ≡ done (some d') → e ≡ d') (is_other d.credential claim) structured_conflict
      (write_valid (validate_structured rules e) e) (λ _ v. ground (arith, v))
      (λ _. write_valid-same (validate_structured rules e) e d') u

all-true : (calls : List StructuredCall) → all (λ call. true) calls ≡ true
all-true [] = refl
all-true (call ∷ rest) = all-true rest

module _ (rules : StructuredRules) (r : StructuredReport) where
  may_replace-held :
      (d : Structured) (q : StructuredReport) (correction : Bool)
      → d.report ≡ some r
      → (d.accepted || d.completion_unknown) ≡ true
      → may_replace d q correction ≡ false
  may_replace-held d q correction h k = rw h (ground (arith, k))

  -- the report cannot be replaced, and it need not be written again
  prepare_bound-refused :
      (q : StructuredReport) (correction : Bool) (task claim : ℕ) (d d' : Structured)
      → d.report ≡ some r
      → (d.accepted || d.completion_unknown) ≡ true
      → prepare_bound rules q correction task claim d ≢ done (some d')
  unfolding prepare_bound
  prepare_bound-refused q correction task claim d d' h k =
      let stop : Outcome FileError (Option Structured) = raised FileError.journal_invalid in
      let kept : Outcome FileError (Option Structured) = done none in
      let same = same_report d.report q in
      let last =
        if not (may_replace d q correction)
        then structured_conflict
        else write_of (with_structured_report q (replaced d)) in
      let rest4 = if same then write_of (with_structured_report q d) else last in
      let rest3 = if not (rules.answer_valid task claim q) then stop else rest4 in
      let rest2 = if same && is_posted d then kept else rest3 in
      if-cases (λ o. o ≢ done (some d')) (not (rules.report_bound task claim q)) stop rest2
        (λ _ v. ground (arith, v))
        λ _.
          if-cases (λ o. o ≢ done (some d')) (same && is_posted d) kept rest3
            (λ _ v. ground (arith, v))
            λ n.
              if-cases (λ o. o ≢ done (some d')) (not (rules.answer_valid task claim q)) stop rest4
                (λ _ v. ground (arith, v))
                λ _.
                  if-cases (λ o. o ≢ done (some d')) same (write_of (with_structured_report q d))
                    last (λ e. absurd (ground (arith, e, n, k)))
                    λ _.
                      if-cases (λ o. o ≢ done (some d')) (not (may_replace d q correction))
                        structured_conflict (write_of (with_structured_report q (replaced d)))
                        (λ _ v. ground (arith, v))
                        (λ e. absurd (ground (arith, e, k, may_replace-held d q correction h k)))

  prepare_saved-refused :
      (q : StructuredReport) (correction : Bool) (d d' : Structured) (task claim : Option ℕ)
      → d.report ≡ some r
      → (d.accepted || d.completion_unknown) ≡ true
      → prepare_saved rules q correction d task claim ≢ done (some d')
  prepare_saved-refused q correction d d' none claim h k u = ground (arith, u)
  prepare_saved-refused q correction d d' (some task) none h k u = ground (arith, u)
  prepare_saved-refused q correction d d' (some task) (some claim) h k u =
      prepare_bound-refused q correction task claim d d' h k u

  prepare_structured-refused :
      (q : StructuredReport) (correction : Bool) (d d' : Structured)
      → d.report ≡ some r
      → (d.accepted || d.completion_unknown) ≡ true
      → prepare_structured rules q correction d ≢ done (some d')
  unfolding prepare_structured
  prepare_structured-refused q correction d d' h k =
      if-cases (λ o. o ≢ done (some d')) d.abandoned structured_conflict
        (prepare_saved rules q correction d d.task d.credential) (λ _ v. ground (arith, v))
        (λ _. prepare_saved-refused q correction d d' d.task d.credential h k)

  accepted-kept : (call : StructuredCall) → KeptBy (IsAcceptedReport r) rules call
  unfolding save_task begin_claim dispatch_structured result_structured abandon_structured
  accepted-kept (task_saved task) d d' u h = ground (arith, u, h.is_accepted, h.has_report)
  accepted-kept claim_begun d d' u h = ground (arith, u, h.is_accepted, h.has_report)
  accepted-kept (claim_saved claim) d d' u h =
      subst (IsAcceptedReport r) (save_claim-same rules claim d d' u)
        (record { is_accepted = h.is_accepted; has_report = h.has_report })
  accepted-kept (report_prepared q correction) d d' u h =
      absurd (
        prepare_structured-refused q correction d d' h.has_report (ground (arith, h.is_accepted)) u)
  accepted-kept dispatched d d' u h = ground (arith, u, h.is_accepted, h.has_report)
  accepted-kept (result_recorded result_accepted shown first_definite) d d' u h =
      ground (arith, u, h.is_accepted, h.has_report)
  accepted-kept (result_recorded result_other shown first_definite) d d' u h =
      ground (arith, u, h.is_accepted, h.has_report)
  accepted-kept (result_recorded (result_rejected code) shown first_definite) d d' u h =
      ground (arith, u, h.is_accepted, h.has_report)
  accepted-kept (key_abandoned key) d d' u h = ground (arith, u, h.is_accepted, h.has_report)
  accepted-kept abandonment_recorded d d' u h = ground (arith, u, h.is_accepted, h.has_report)

  unknown-kept :
      (key : Option ℕ) (call : StructuredCall)
      → leaves_doubt call ≡ true
      → KeptBy (IsUnknownReport r key) rules call
  unfolding save_task begin_claim dispatch_structured result_structured abandon_structured
  unknown-kept key (task_saved task) l d d' u h =
      ground (arith, u, h.is_unknown, h.has_report, h.same_key)
  unknown-kept key claim_begun l d d' u h =
      ground (arith, u, h.is_unknown, h.has_report, h.same_key)
  unknown-kept key (claim_saved claim) l d d' u h =
      subst (IsUnknownReport r key) (save_claim-same rules claim d d' u)
        (record { is_unknown = h.is_unknown; has_report = h.has_report; same_key = h.same_key })
  unknown-kept key (report_prepared q correction) l d d' u h =
      absurd
        (prepare_structured-refused q correction d d' h.has_report (ground (arith, h.is_unknown)) u)
  unknown-kept key dispatched l d d' u h = ground (arith, u, h.is_unknown, h.has_report, h.same_key)
  unknown-kept key (result_recorded result_accepted shown first_definite) l d d' u h =
      ground (arith, u, h.is_unknown, h.has_report, h.same_key)
  unknown-kept key (result_recorded result_other shown first_definite) l d d' u h =
      ground (arith, u, h.is_unknown, h.has_report, h.same_key)
  unknown-kept key (result_recorded (result_rejected code) shown first_definite) l d d' u h =
      ground (arith, u, l, h.is_unknown, h.has_report, h.same_key)
  unknown-kept key (key_abandoned other) l d d' u h =
      ground (arith, u, h.is_unknown, h.has_report, h.same_key)
  unknown-kept key abandonment_recorded l d d' u h =
      ground (arith, u, h.is_unknown, h.has_report, h.same_key)

-- An accepted report stays accepted and is never replaced, whatever calls follow with whatever
-- faults of their writes.
pub run_structured-IsAcceptedReport :
    (rules : StructuredRules) (r : StructuredReport) (calls : List StructuredCall)
    (w : Stored Structured)
    → IsAcceptedReport r w.file
    → IsAcceptedReport r (run_structured rules calls w).file
run_structured-IsAcceptedReport rules r calls w h =
    run_structured-keeps (IsAcceptedReport r) (λ call. true) rules
      (λ call d d' _ v u. accepted-kept rules r call d d' u) calls w (all-true calls) h

-- While it is not known whether the posted report was accepted, that is until a result that is
-- the first definite one rejects it, no call replaces the report, abandons the key, or takes the
-- doubt away.
pub run_structured-IsUnknownReport :
    (rules : StructuredRules) (r : StructuredReport) (key : Option ℕ) (calls : List StructuredCall)
    (w : Stored Structured)
    → all leaves_doubt calls ≡ true
    → IsUnknownReport r key w.file
    → IsUnknownReport r key (run_structured rules calls w).file
run_structured-IsUnknownReport rules r key calls w l h =
    run_structured-keeps (IsUnknownReport r key) leaves_doubt rules
      (λ call d d' q v u. unknown-kept rules r key call q d d' u) calls w l h
