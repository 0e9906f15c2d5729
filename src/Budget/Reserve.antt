-- ===== src/Budget/Reserve.antt =====
-- The transitions of a reservation in `Payment402Client` (ln_church_agent/client.py): the cap,
-- `_reserve_session_budget`, `_confirm_session_budget`, `_release_session_budget`,
-- `_mark_session_budget_unknown` and `_reserve_ambiguous_spend`, of a client with a policy.
use ln_church_agent.Common.{ℕ, ◌+◌, Bool, not, ◌||◌, Option, some, ◌==◌, ltb, opt_eq, is_none}
use ln_church_agent.Common.Outcome.{
  Method, done, pure, raise, raise_if, gets, ◌>>=◌, ◌>>◌, when◌run◌otherwise◌,
}
use ln_church_agent.Budget.Types.{
  Phase, BudgetState, Operation, Session, Error, Quoted, amount, negative, infinite, in_state,
}
use ln_church_agent.Budget.Ledger.{
  session_spent_usd, session_reserved_usd, save, init_context_state, payment_operation,
}

-- `operation.field = value`, once the operation is known
unfoldable pub write : ℕ → Operation → Method Session Error (Unit {0})
write fp o s = (done tt, record s { policy = save s.context.session_id fp o s.policy })

-- `_set_budget_fact`: the new version of the ledger is the operation's revision.
unfoldable pub set_budget_fact :
    ℕ → Operation → BudgetState → ℕ → Option ℕ → Method Session Error (Unit {0})
set_budget_fact fp o state amt owner s =
    let v = s.policy.session_ledger_version + 1 in
    let o' = record o { budget_state = some state; amount = amt; owner = owner; revision = v } in
    let p = record s.policy { session_ledger_version = v } in
    (done tt, record s { policy = save s.context.session_id fp o' p })

-- `operation.owner == context._operation_owner`
abbrev pub owned : Operation → Session → Bool
owned o s = opt_eq o.owner (some s.context.operation_owner)

-- the owner that a method of the acting context writes
abbrev own_fact : ℕ → Operation → BudgetState → ℕ → Method Session Error (Unit {0})
own_fact fp o state amt s = set_budget_fact fp o state amt (some s.context.operation_owner) s

-- The operation's object, after `_init_context_state`.
abbrev pub enter : ℕ → Method Session Error Operation
enter fp s = payment_operation fp (init_context_state s)

module _ (float_str : ℕ → ℕ) where
  -- `_check_session_budget`; `float_str` is `Decimal(str(float(x)))`, by which the sums are read.
  unfoldable pub check_session_budget : ℕ → Method Session Error (Unit {0})
  check_session_budget amt s =
      let projected =
        float_str (session_spent_usd s.policy) + float_str (session_reserved_usd s.policy) + amt in
      raise_if (ltb s.policy.max_spend_per_session_usd projected) Error.session_limit s

  unfoldable pub reserve_operation : ℕ → ℕ → Operation → Method Session Error ℕ
  reserve_operation fp amt o = do
    mine ← gets (owned o)
    when in_state BudgetState.reserved o.budget_state
        run (when not mine
            run raise Error.already_reserved
            otherwise when not (o.amount == amt)
            run raise Error.conflicting_amount
            otherwise pure o.amount)
        otherwise when in_state BudgetState.confirmed o.budget_state
        run raise Error.already_confirmed
        otherwise do check_session_budget amt; own_fact fp o BudgetState.reserved amt; pure amt

  -- `_reserve_session_budget`
  unfoldable pub reserve_session_budget : ℕ → Quoted → Method Session Error ℕ
  unfolding reserve_operation
  reserve_session_budget fp (negative _) = raise Error.negative_reservation
  reserve_session_budget fp infinite = raise Error.negative_reservation
  reserve_session_budget fp (amount amt) = do o ← enter fp; reserve_operation fp amt o

unfoldable pub confirm_operation : ℕ → Operation → Method Session Error ℕ
confirm_operation fp o = do
  mine ← gets (owned o)
  when in_state BudgetState.confirmed o.budget_state
      run pure 0
      otherwise when in_state BudgetState.released o.budget_state
      run raise Error.released_not_confirmable
      otherwise when not (in_state BudgetState.reserved o.budget_state)
      run pure 0
      otherwise when not mine
      run raise Error.not_owner
      otherwise do own_fact fp o BudgetState.confirmed o.amount; pure o.amount

-- `_confirm_session_budget`
unfoldable pub confirm_session_budget : ℕ → Method Session Error ℕ
unfolding confirm_operation
confirm_session_budget fp = do o ← enter fp; confirm_operation fp o

unfoldable pub release_operation : ℕ → Operation → Method Session Error ℕ
release_operation fp o = do
  mine ← gets (owned o)
  when not (in_state BudgetState.reserved o.budget_state) || not mine
      run pure 0
      otherwise do own_fact fp o BudgetState.released o.amount; pure o.amount

-- `_release_session_budget`
unfoldable pub release_session_budget : ℕ → Method Session Error ℕ
unfolding release_operation
release_session_budget fp = do o ← enter fp; release_operation fp o

unfoldable pub mark_unknown_operation : ℕ → Operation → Method Session Error ℕ
mark_unknown_operation fp o = do
  mine ← gets (owned o)
  when not (in_state BudgetState.reserved o.budget_state) || not mine
      run pure 0
      otherwise do write fp (record o { phase = Phase.settlement_unknown }); pure o.amount

-- `_mark_session_budget_unknown`
unfoldable pub mark_session_budget_unknown : ℕ → Method Session Error ℕ
unfolding mark_unknown_operation
mark_session_budget_unknown fp = do o ← enter fp; mark_unknown_operation fp o

-- `operation.phase = "ambiguous"`, and the amount of the operation
unfoldable pub mark_ambiguous : ℕ → Method Session Error ℕ
mark_ambiguous fp = do
  o ← payment_operation fp
  write fp (record o { phase = Phase.ambiguous })
  pure o.amount

module _ (float_str : ℕ → ℕ) where
  unfoldable pub reserve_ambiguous_operation : ℕ → Quoted → Operation → Method Session Error ℕ
  reserve_ambiguous_operation fp amt o = do
    mine ← gets (owned o)
    when is_none o.budget_state
        run (reserve_session_budget float_str fp amt >> mark_ambiguous fp)
        otherwise when not (in_state BudgetState.reserved o.budget_state) || not mine
        run raise Error.ambiguous_conflict
        otherwise do write fp (record o { phase = Phase.ambiguous }); pure o.amount

  -- `_reserve_ambiguous_spend`, of the approved or the estimated amount
  unfoldable pub reserve_ambiguous_spend : ℕ → Quoted → Method Session Error ℕ
  unfolding reserve_ambiguous_operation
  reserve_ambiguous_spend fp (negative _) = pure 0
  reserve_ambiguous_spend fp infinite = do o ← enter fp; reserve_ambiguous_operation fp infinite o
  reserve_ambiguous_spend fp (amount amt) =
      when amt == 0
      run pure 0
      otherwise do o ← enter fp; reserve_ambiguous_operation fp (amount amt) o
