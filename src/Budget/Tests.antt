-- ===== src/Budget/Tests.antt =====
-- Runs of the ledger, and each property at a concrete input.
use Prim.Native.Nat.{ℕ}
use ln_church_agent.Budget.Types.{
  Context, Policy, Session, Operation, in_state, new_operation, BudgetState, Phase, amount, Error,
}
use ln_church_agent.Budget.Ledger.{
  session_spent_usd, find_operation, session_reserved_usd, payment_operation, budget_total,
  init_context_state, save,
}
use ln_church_agent.Common.{
  List, [], ◌∷◌, ◌≡◌, some, false, arith, none, ◌≢◌, refl, ◌⊎◌, if◌then◌else◌, inr, inl,
}
use ln_church_agent.Budget.Run.{
  run_history, Event, called, restored, happen, reserve, confirm, update, check_and_set, perform,
  release, mark_unknown, resolve,
}
use ln_church_agent.Budget.Bound.{IsWithinCap}
use ln_church_agent.Budget.Reserve.{
  confirm_session_budget, release_session_budget, mark_session_budget_unknown, write,
  reserve_session_budget, reserve_operation, check_session_budget, set_budget_fact,
}
use ln_church_agent.Budget.Resolve.{resolve_ambiguous_payment, register_payment_identity, Recovery}
use ln_church_agent.Budget.Steps.{IsHeld}
use ln_church_agent.Budget.States.{check_and_set_payment_state, update_payment_state, same_phase}
use ln_church_agent.Budget.Evidence.{EvidenceRecord, fold_budget_events, Journal, previous_state}
use ln_church_agent.Budget.Restore.{merge_restored, import_events, adopt_session, restore_journal}
use ln_church_agent.Budget.History.{RestoresFit, run_history-IsWithinCap}
use ln_church_agent.Common.Dict.{get, put, total}
use ln_church_agent.Budget.Isolation.{foreign_unchanged}
use ln_church_agent.Budget.Settled.{phase_at, run_history-MayBePaid}
use ln_church_agent.Budget.SettledSteps.{MayBePaid}
use ln_church_agent.Budget.RestoredOnce.{merge_restored_once}
use ln_church_agent.Common.Outcome.{raised, done}
use ln_church_agent.Budget.RestoreLaws.{SameFacts, merge_restored-live, merge_restored_blocks}
use ln_church_agent.Common.Lists.{any, contains}
use ln_church_agent.Budget.EvidenceLaws.{confirms, fold_confirmed_iff}
use ln_church_agent.Budget.Identity.{register_payment_identity_lem}
use ln_church_agent.Budget.Phases.{Settles, recovered, resolve_ambiguous_payment-Settles}

-- two contexts of session 1, with owners 10 and 20
abbrev alice : Context
alice = record {
  session_id = 1;
  operation_owner = 10;
  operations = [];
  payment_identities = [];
  session_budget_restored = false;
}

abbrev bob : Context
bob = record alice { operation_owner = 20 }

-- a policy of 10 dollars, in units of a thousandth
abbrev fresh : Policy
fresh = record {
  max_spend_per_session_usd = 10000;
  session_baseline_usd = 0;
  session_ledger_version = 0;
  restored_session_ids = [];
  session_operations = [];
}

abbrev start : Session
start = record { policy = fresh; context = alice }

abbrev exact : ℕ → ℕ
exact n = n

fresh-IsWithinCap : IsWithinCap fresh
unfolding session_spent_usd session_reserved_usd budget_total total
fresh-IsWithinCap = record { within = omega arith }

-- past spending, two reservations that fit, a third that does not, a confirmation, a foreign
-- release, a restore of past events, a recovery
abbrev history : List (Context × Event)
history =
    (alice, restored 40 [] 0 0)
    ∷ (alice, called (reserve 7 (amount 6000)))
    ∷ (bob, called (reserve 8 (amount 3000)))
    ∷ (alice, called (reserve 9 (amount 2000)))
    ∷ (alice, called (confirm 7))
    ∷ (alice, called (release 8))
    ∷ (bob, called (mark_unknown 8))
    ∷ (bob, called (resolve 8 Recovery.confirmed_not_paid))
    ∷ []

history_totals :
    let p = run_history exact history fresh in
    (session_spent_usd p ≡ 6040) × (session_reserved_usd p ≡ 3000)
unfolding run_history session_spent_usd session_reserved_usd budget_total total perform happen
    reserve_session_budget reserve_operation check_session_budget set_budget_fact
    confirm_session_budget release_session_budget mark_session_budget_unknown merge_restored
    import_events adopt_session restore_journal resolve_ambiguous_payment payment_operation
    init_context_state find_operation save write get put
history_totals = (refl, refl)

history-RestoresFit : RestoresFit exact history fresh
unfolding RestoresFit session_spent_usd session_reserved_usd budget_total total happen perform
    merge_restored import_events adopt_session restore_journal init_context_state get put
history-RestoresFit =
    (record { within = omega arith }, (tt, (tt, (tt, (tt, (tt, (tt, (tt, tt))))))))

run_history-IsWithinCap_example : IsWithinCap (run_history exact history fresh)
run_history-IsWithinCap_example =
    run_history-IsWithinCap exact (λ n h. refl) history fresh history-RestoresFit (omega arith)
      fresh-IsWithinCap

-- operation 7 of session 1, reserved by owner 10
abbrev reserved_op : Operation
reserved_op = record new_operation {
  amount = 6000;
  budget_state = some BudgetState.reserved;
  owner = some 10;
  revision = 1;
  phase = Phase.ambiguous;
}

abbrev holding : Session
holding = record {
  policy = record fresh {
    session_ledger_version = 1;
    session_operations = (1, (7, reserved_op) ∷ []) ∷ [];
  };
  context = record alice { operations = 7 ∷ [] };
}

abbrev holding_bob : Session
holding_bob = record holding { context = bob }

holding-IsHeld : IsHeld 7 reserved_op holding_bob
unfolding find_operation get
holding-IsHeld = refl

resolve_ambiguous_payment-Settles_example :
    let (r, s') = resolve_ambiguous_payment 7 Recovery.confirmed_paid holding in
    Settles Recovery.confirmed_paid (recovered r) holding.policy s'.policy
resolve_ambiguous_payment-Settles_example =
    resolve_ambiguous_payment-Settles 7 Recovery.confirmed_paid holding

foreign_unchanged_example :
    IsHeld 7 reserved_op (confirm_session_budget 7 holding_bob).1
    × IsHeld 7 reserved_op (release_session_budget 7 holding_bob).1
    × IsHeld 7 reserved_op (mark_session_budget_unknown 7 holding_bob).1
    × IsHeld 7 reserved_op (update_payment_state 7 Phase.completed holding_bob).1
foreign_unchanged_example =
    foreign_unchanged 7 Phase.completed holding_bob holding-IsHeld (refl, refl)

holding-MayBePaid : MayBePaid (phase_at 1 7 holding.policy)
unfolding find_operation get
holding-MayBePaid = inr (inr (inl refl))

abbrev retries : List (Context × Event)
retries =
    (alice, called (update 7 Phase.not_started))
    ∷ (bob, called (check_and_set 7))
    ∷ (bob, restored 40 ((7, (BudgetState.released, 6000)) ∷ []) 0 0)
    ∷ []

run_history-MayBePaid_example :
    let p = run_history exact retries holding.policy in
    MayBePaid (phase_at 1 7 p)
    × ((check_and_set_payment_state 7 (record { policy = p; context = bob })).0 ≢ done tt)
run_history-MayBePaid_example =
    run_history-MayBePaid exact 1 7 retries holding.policy bob refl holding-MayBePaid refl

abbrev confirmation : EvidenceRecord
confirmation = record {
  timestamp = 5;
  budget_event = some BudgetState.confirmed;
  operation_id = some 7;
  budget_amount = some 6000;
  spend_delta = some 6000;
  receipt_id = none;
}

-- a release that the repository lists later
abbrev late_release : EvidenceRecord
late_release = record confirmation { timestamp = 9; budget_event = some BudgetState.released }

fold_budget_events_run :
    fold_budget_events (late_release ∷ confirmation ∷ [])
    ≡ (0, (7, (BudgetState.confirmed, 6000)) ∷ [])
unfolding fold_budget_events get put
fold_budget_events_run = refl

fold_confirmed_iff_example :
    in_state BudgetState.confirmed
      (previous_state (get 7 (fold_budget_events (late_release ∷ confirmation ∷ [])).1))
    ≡ any (confirms 7) (late_release ∷ confirmation ∷ [])
fold_confirmed_iff_example = fold_confirmed_iff 7 (late_release ∷ confirmation ∷ [])

abbrev journal : Journal
journal = (7, (BudgetState.released, 6000)) ∷ (8, (BudgetState.reserved, 500)) ∷ []

merge_restored-live_example :
    (o' : Operation) × (find_operation (merge_restored 40 journal 0 0 holding_bob).policy 1 7
      ≡ some o')
    × SameFacts reserved_op o'
merge_restored-live_example =
    merge_restored-live 40 journal 0 0 holding_bob 7 {o = reserved_op} holding-IsHeld
      (inr (inl (omega arith)))

-- what the import makes of operation 8
abbrev imported : Operation
imported = record new_operation {
  phase = Phase.settlement_unknown;
  amount = 500;
  budget_state = some BudgetState.reserved;
  revision = 2;
}

imported-find :
    find_operation (merge_restored 40 journal 0 0 holding_bob).policy 1 8 ≡ some imported
unfolding merge_restored import_events adopt_session init_context_state find_operation get put
    same_phase
imported-find = refl

merge_restored_blocks_example : Phase.settlement_unknown ≢ Phase.not_started
merge_restored_blocks_example =
    merge_restored_blocks 40 journal 0 0 holding_bob 8 {o = imported} imported-find refl

merge_restored_once_example :
    let p = run_history exact history (merge_restored 40 journal 0 0 start).policy in
    let t = merge_restored 60 [] 0 0 (record { policy = p; context = bob }) in
    (t.policy.session_baseline_usd ≡ p.session_baseline_usd)
    × (t.policy.session_ledger_version ≡ p.session_ledger_version)
    × (t.policy.restored_session_ids ≡ p.restored_session_ids)
merge_restored_once_example =
    merge_restored_once exact 40 60 journal [] 0 0 0 0 start history bob refl

register_payment_identity_lem_example :
    let (r, c') = register_payment_identity 7 (100 ∷ 101 ∷ []) alice in
    ((r ≡ raised Error.identity_reused) × (c' ≡ alice)
      ⊎ (r ≡ done tt)
        × ((i : ℕ)
            → get i c'.payment_identities
              ≡ (if contains i (100 ∷ 101 ∷ []) then some 7 else get i alice.payment_identities)))
    × ((i g : ℕ) → get i alice.payment_identities ≡ some g → get i c'.payment_identities ≡ some g)
register_payment_identity_lem_example = register_payment_identity_lem 7 (100 ∷ 101 ∷ []) alice
