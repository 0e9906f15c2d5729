-- ===== src/Execution/AttemptKeeps.antt =====
-- What the steps of an execution keep, a payment keeps.
use ln_church_agent.Common.Dict.{get}
use ln_church_agent.Execution.Types.{
  Settings, Agent, Paying, Stop, Demand, Receipt, Attempt, Frame, Run, new_attempt, Location,
}
use Prim.Native.Nat.{ℕ, ◌+◌}
use ln_church_agent.Execution.Keeps.{
  IsKept, Keeps, branch-Keeps, guard-Keeps, then-Keeps, pure-Keeps, seq-Keeps, gets-Keeps, keeping,
}
use ln_church_agent.Common.Outcome.{Method, Outcome, done, raised}
use ln_church_agent.Budget.Run.{perform, Call}
use ln_church_agent.Budget.Types.{Phase, Quoted}
use ln_church_agent.Execution.Attempt.{
  write_receipt, mark_irreversible, make_receipt, process_payment, ledger, rewritten, begin_payment,
  on, note, record_payment, confirm_credential, try_payment, confirm_settled, record_failure,
  payment_failure, attempt_payment, after_try,
}
use ln_church_agent.Common.{Option, if◌then◌else◌, if-holds, some, none, ◌≡◌}
use ln_church_agent.Budget.States.{update_payment_state, mark_known_settled_ambiguity}
use ln_church_agent.Budget.Reserve.{
  confirm_session_budget, release_session_budget, reserve_session_budget, reserve_ambiguous_spend,
  mark_session_budget_unknown,
}

module _ {cfg : Settings} {float_str : ℕ → ℕ} {T : Location → Type 0} {P : Agent → Type 0}
    (k : IsKept cfg float_str T P) where
  -- a method of the `try` statement keeps the predicate
  abbrev PayKeeps : {A : Type 0} → Method Paying Stop A → Type 0
  PayKeeps m = Keeps (λ x. P x.agent) m

  on-Keeps : {A : Type 0} {m : Method Agent Stop A} → Keeps P m → PayKeeps (on m)
  on-Keeps h = record { keeps = λ x p. h.keeps x.agent p }

  note-Keeps : (f : Attempt → Attempt) → PayKeeps (note f)
  note-Keeps f = record { keeps = λ x p. p }

  pub update-Keeps : (fp : ℕ) (p : Phase) → Keeps P (ledger (update_payment_state fp p))
  unfolding perform
  update-Keeps fp p = record { keeps = k.on_call (Call.update fp p) }

  confirm-Keeps : (fp : ℕ) → Keeps P (ledger (confirm_session_budget fp))
  unfolding perform
  confirm-Keeps fp = record { keeps = k.on_call (Call.confirm fp) }

  release-Keeps : (fp : ℕ) → Keeps P (ledger (release_session_budget fp))
  unfolding perform
  release-Keeps fp = record { keeps = k.on_call (Call.release fp) }

  reserve-Keeps : (fp : ℕ) (q : Quoted) → Keeps P (ledger (reserve_session_budget float_str fp q))
  unfolding perform
  reserve-Keeps fp q = record { keeps = k.on_call (Call.reserve fp q) }

  reserve_ambiguous-Keeps :
      (fp : ℕ) (q : Quoted) → Keeps P (ledger (reserve_ambiguous_spend float_str fp q))
  unfolding perform
  reserve_ambiguous-Keeps fp q = record { keeps = k.on_call (Call.reserve_ambiguous fp q) }

  mark_unknown-Keeps : (fp : ℕ) → Keeps P (ledger (mark_session_budget_unknown fp))
  unfolding perform
  mark_unknown-Keeps fp = record { keeps = k.on_call (Call.mark_unknown fp) }

  mark_known_settled-Keeps : (fp : ℕ) → Keeps P (ledger (mark_known_settled_ambiguity fp))
  unfolding perform
  mark_known_settled-Keeps fp = record { keeps = k.on_call (Call.mark_known_settled fp) }

  pub write_receipt-Keeps : (r : Option ℕ) (f : Receipt → Receipt) → Keeps P (write_receipt r f)
  unfolding write_receipt
  write_receipt-Keeps none f = record { keeps = λ w p. p }
  write_receipt-Keeps (some i) f = record {
    keeps = λ w p. k.on_receipts (rewritten i f (get i w.receipts) w.receipts) w.next_receipt w p;
  }

  mark_irreversible-Keeps : PayKeeps mark_irreversible
  unfolding mark_irreversible
  mark_irreversible-Keeps = record {
    keeps = λ x p.
        k.on_attempts (x.agent.attempts + (if x.attempt.irreversible_attempt_started then 0 else 1))
          x.agent p;
  }

  make_receipt-Keeps : (d : Demand) → PayKeeps (make_receipt d)
  unfolding make_receipt
  make_receipt-Keeps d = record {
    keeps = λ x p.
        if-holds {A = Outcome Stop (Unit {0}) × Paying} (λ o. P o.1.agent) d.is_receipted _ _
          (k.on_receipts _ _ x.agent p) p;
  }

  process_payment-Keeps : (d : Demand) → PayKeeps (process_payment d)
  unfolding process_payment
  process_payment-Keeps d =
      then-Keeps (branch-Keeps d.is_irreversible mark_irreversible-Keeps (pure-Keeps tt))
        (guard-Keeps _ _)

  begin_payment-Keeps : (fp : ℕ) (d : Demand) → PayKeeps (begin_payment float_str fp d)
  unfolding begin_payment
  begin_payment-Keeps fp d =
      search (then-Keeps, guard-Keeps, note-Keeps, on-Keeps, reserve-Keeps, process_payment-Keeps)
        depth 20 fits 4000

  record_payment-Keeps : (fp : ℕ) (d : Demand) → PayKeeps (record_payment fp d)
  unfolding record_payment
  record_payment-Keeps fp d =
      search
        (
          then-Keeps, branch-Keeps, pure-Keeps, note-Keeps, on-Keeps, release-Keeps, confirm-Keeps,
          update-Keeps,
        )
        depth 20 fits 4000

  confirm_credential-Keeps : (fp : ℕ) (d : Demand) → PayKeeps (confirm_credential fp d)
  unfolding confirm_credential
  confirm_credential-Keeps fp d =
      search
        (
          then-Keeps, seq-Keeps, branch-Keeps, pure-Keeps, gets-Keeps, note-Keeps, on-Keeps,
          confirm-Keeps, update-Keeps, write_receipt-Keeps,
        )
        depth 20 fits 4000

  try_payment-Keeps :
      (fp : ℕ) (again : Frame → Run) (f : Frame) (d : Demand)
      → ((g : Frame) → g.target ≡ f.target → Keeps P (again g))
      → PayKeeps (try_payment float_str fp again f d)
  unfolding try_payment
  try_payment-Keeps fp again f d h =
      search
        (
          then-Keeps, seq-Keeps, branch-Keeps, pure-Keeps, gets-Keeps, on-Keeps,
          begin_payment-Keeps, record_payment-Keeps, make_receipt-Keeps, mark_irreversible-Keeps,
          confirm_credential-Keeps,
        )
        depth 20 fits 4000

  confirm_settled-Keeps : (fp : ℕ) (a : Attempt) → Keeps P (confirm_settled fp a)
  unfolding confirm_settled
  confirm_settled-Keeps fp a =
      search
        (
          then-Keeps, seq-Keeps, branch-Keeps, pure-Keeps, gets-Keeps, confirm-Keeps,
          write_receipt-Keeps,
        )
        depth 20 fits 4000

  record_failure-Keeps :
      (fp : ℕ) (d : Demand) (a : Attempt) → Keeps P (record_failure float_str fp d a)
  unfolding record_failure
  record_failure-Keeps fp d a =
      search
        (
          then-Keeps, branch-Keeps, release-Keeps, update-Keeps, mark_unknown-Keeps,
          mark_known_settled-Keeps, reserve_ambiguous-Keeps,
        )
        depth 20 fits 4000

  payment_failure-Keeps :
      (fp : ℕ) (d : Demand) (a : Attempt) (e : Stop) → Keeps P (payment_failure float_str fp d a e)
  unfolding payment_failure
  payment_failure-Keeps fp d a e =
      search (keeping, confirm_settled-Keeps, record_failure-Keeps) depth 20

  -- A payment keeps what its steps keep, where the paid request does.
  pub attempt_payment-Keeps :
      (fp : ℕ) (again : Frame → Run) (f : Frame) (d : Demand)
      → ((g : Frame) → g.target ≡ f.target → Keeps P (again g))
      → Keeps P (attempt_payment float_str fp again f d)
  unfolding attempt_payment after_try
  attempt_payment-Keeps fp again f d h = record {
    keeps = λ w p. ended (try w) ((try_payment-Keeps fp again f d h).keeps (from w) p);
  }
    where
      from : Agent → Paying
      from w = record { agent = w; attempt = new_attempt }

      try : Agent → Outcome Stop (Unit {0}) × Paying
      try w = try_payment float_str fp again f d (from w)

      ended :
          (r : Outcome Stop (Unit {0}) × Paying) → P r.1.agent → P (after_try float_str fp d r).1
      ended (done _, x) p = p
      ended (raised e, x) p = (payment_failure-Keeps fp d x.attempt e).keeps x.agent p
