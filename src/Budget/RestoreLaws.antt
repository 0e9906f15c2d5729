-- ===== src/Budget/RestoreLaws.antt =====
-- What a restore may change: the budget facts of live operations, the phases of reserved ones, and
-- the operations of a session whose events are imported already.
use ln_church_agent.Budget.Types.{Operation, BudgetState, in_state, Session, Phase}
use ln_church_agent.Budget.Restore.{
  restore_entry, restore_journal, adopt, Restoring, is_live, restore_fact, settle_phase,
  merge_restored, import_events, adopt_session,
}
use ln_church_agent.Common.Dict.{get, Dict, get-put, get-put_self}
use Prim.Native.Nat.{ℕ}
use ln_church_agent.Common.{
  ◌≡◌, List, some, Option, true, arith, ◌+◌, ◌∷◌, [], if◌then◌else◌, none, refl, ◌≢◌, ◌∙◌, ◌⊎◌, ◌<◌,
}
use ln_church_agent.Budget.Evidence.{Journal}
use ln_church_agent.Budget.Ledger.{or_new, init_context_state, refer, find_operation, or_empty}
use ln_church_agent.Budget.Steps.{IsHeld}
use ln_church_agent.Budget.States.{same_phase}
use ln_church_agent.Budget.Sums.{find-init}

-- The facts that a restore must not change.
pub record SameFacts (o o' : Operation) : Type 0 where
  pub same_budget : o'.budget_state ≡ o.budget_state
  pub same_amount : o'.amount ≡ o.amount
  pub same_owner : o'.owner ≡ o.owner
  pub same_revision : o'.revision ≡ o.revision

restore_entry-live :
    (v key : ℕ) (st : BudgetState) (amt : ℕ) (r : Restoring) (k : ℕ) {o : Operation}
    → get k r.operations ≡ some o
    → is_live v o ≡ true
    → get k (restore_entry v key st amt r).operations ≡ some o
unfolding restore_entry
restore_entry-live v key st amt r k {o} h l =
    let p = or_new (get key r.operations) in
    ground (
      arith,
      get-put key k p r.operations,
      get-put key k (restore_fact st amt (r.version + 1) p) r.operations,
    )

restore_journal-live :
    (v : ℕ) (j : Journal) (r : Restoring) (k : ℕ) {o : Operation}
    → get k r.operations ≡ some o
    → is_live v o ≡ true
    → get k (restore_journal v j r).operations ≡ some o
unfolding restore_journal
restore_journal-live v [] r k h l = h
restore_journal-live v ((key, (st, amt)) ∷ rest) r k h l =
    restore_journal-live v rest (restore_entry v key st amt r) k
      (restore_entry-live v key st amt r k h l) l

-- what the last loop makes of an entry
abbrev pub settled : Option Operation → Option Operation
settled none = none
settled (some o) = some (settle_phase o)

get-adopt :
    (ops : Dict Operation) (known : List ℕ) (k : ℕ)
    → get k (adopt ops known).0 ≡ settled (get k ops)
unfolding get adopt
get-adopt [] known k = refl
get-adopt ((key, o) ∷ rest) known k =
    let known' = if in_state BudgetState.reserved o.budget_state then refer key known else known in
    ground (arith, get-adopt rest known' k)

import_events-session :
    (legacy : ℕ) (j : Journal) (v b : ℕ) (s : Session)
    → (import_events legacy j v b s).context.session_id ≡ s.context.session_id
unfolding import_events
import_events-session legacy j v b s = refl

-- A settled operation that is reserved is not in the phase `not_started`.
settled_blocks :
    (x : Option Operation) (o : Operation)
    → settled x ≡ some o
    → o.budget_state ≡ some BudgetState.reserved
    → o.phase ≢ Phase.not_started
unfolding settle_phase same_phase
settled_blocks none o h r = ground arith
settled_blocks (some p) o h r = ground arith

pub adopt_session-find :
    (s : Session) (k : ℕ)
    → find_operation (adopt_session s).policy s.context.session_id k
      ≡ settled (find_operation s.policy s.context.session_id k)
unfolding adopt_session find_operation
adopt_session-find s k =
    let sid = s.context.session_id in
    let ops = or_empty (get sid s.policy.session_operations) in
    let new = (adopt ops s.context.operations).0 in
    ground (
      arith,
      get-adopt ops s.context.operations k,
      get-put_self sid new s.policy.session_operations,
    )

import_events-live :
    (legacy : ℕ) (j : Journal) (v b : ℕ) (s : Session) (k : ℕ) {o : Operation}
    → IsHeld k o s
    → is_live v o ≡ true
    → find_operation (import_events legacy j v b s).policy s.context.session_id k ≡ some o
unfolding import_events find_operation
import_events-live legacy j v b s k {o} h l =
    let sid = s.context.session_id in
    let r : Restoring = record {
      version = s.policy.session_ledger_version;
      operations = or_empty (get sid s.policy.session_operations);
    } in
    rw (get-put_self sid (restore_journal v j r).operations s.policy.session_operations)
      (restore_journal-live v j r k h l)

settle_phase-SameFacts : (o : Operation) → SameFacts o (settle_phase o)
unfolding settle_phase
settle_phase-SameFacts o = ground arith

-- the facts by which an operation counts as live: it has an owner, it is newer than the start of the
-- import, or it is confirmed
abbrev pub IsLive : ℕ → Operation → Type 0
IsLive v o = (o.owner ≢ none) ⊎ (v < o.revision) ⊎ (o.budget_state ≡ some BudgetState.confirmed)

live-is_live : (v : ℕ) (o : Operation) → IsLive v o → is_live v o ≡ true
live-is_live v o h = ground (arith, h)

-- In a session that imports its events, an operation that has an owner, that is newer than the
-- start of the import or that is confirmed keeps its budget state, its amount, its owner and its
-- revision, whatever the journal says.
pub merge_restored-live :
    (legacy : ℕ) (j : Journal) (v b : ℕ) (s : Session) (fp : ℕ) {o : Operation}
    → IsHeld fp o s
    → IsLive v o
    → (o' : Operation) × (find_operation
          (merge_restored legacy j v b s).policy
          s.context.session_id
          fp
        ≡ some o')
      × SameFacts o o'
unfolding merge_restored init_context_state
merge_restored-live legacy j v b s fp {o} h l =
    let t = init_context_state s in
    let h' : IsHeld fp o t = find-init s s.context.session_id fp ∙ h in
    (
      settle_phase o,
      ground (
        arith,
        h',
        adopt_session-find t fp,
        adopt_session-find (import_events legacy j v b t) fp,
        import_events-live legacy j v b t fp h' (live-is_live v o l),
        import_events-session legacy j v b t,
      ),
      settle_phase-SameFacts o,
    )

-- After a restore no reserved operation of the session is in the phase `not_started`.
pub merge_restored_blocks :
    (legacy : ℕ) (j : Journal) (v b : ℕ) (s : Session) (fp : ℕ) {o : Operation}
    → find_operation (merge_restored legacy j v b s).policy s.context.session_id fp ≡ some o
    → o.budget_state ≡ some BudgetState.reserved
    → o.phase ≢ Phase.not_started
unfolding merge_restored init_context_state
merge_restored_blocks legacy j v b s fp {o} h r =
    let t = init_context_state s in
    let u = import_events legacy j v b t in
    ground (
      arith,
      adopt_session-find t fp,
      adopt_session-find u fp,
      import_events-session legacy j v b t,
      settled_blocks (find_operation t.policy s.context.session_id fp) o,
      settled_blocks (find_operation u.policy s.context.session_id fp) o,
    )
