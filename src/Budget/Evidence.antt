-- ===== src/Budget/Evidence.antt =====
-- `_fold_budget_events` of `Payment402Client` (ln_church_agent/client.py): what the evidence
-- records of a session say of its confirmed spend and of its operations.
use Prim.Native.Nat.{ℕ}
use ln_church_agent.Common.{List, Option, ◌∷◌, some, if◌then◌else◌, [], leb, ◌==◌, ◌+◌, none}
use ln_church_agent.Common.Dict.{Dict, put, get}
use ln_church_agent.Budget.Types.{BudgetState, in_state}
use ln_church_agent.Common.Lists.{contains}

-- The fields of a `PaymentEvidenceRecord` that the fold reads, as it reads them: an event is one of
-- the three names or nothing, an operation id is a text that is not empty or nothing, and an
-- amount is a finite number from 0 up or nothing. `receipt_id` is the true value in the summary.
pub record EvidenceRecord : Type 0 where
  pub timestamp : ℕ
  pub budget_event : Option BudgetState
  pub operation_id : Option ℕ
  pub budget_amount : Option ℕ
  pub spend_delta : Option ℕ
  pub receipt_id : Option ℕ

-- `sorted(records, key=lambda item: item.timestamp)`, which keeps the order of equal keys
unfoldable pub insert_sorted : EvidenceRecord → List EvidenceRecord → List EvidenceRecord
insert_sorted r [] = r ∷ []
insert_sorted r (x ∷ xs) =
    if leb r.timestamp x.timestamp then r ∷ x ∷ xs else x ∷ insert_sorted r xs

unfoldable pub sort_records : List EvidenceRecord → List EvidenceRecord
unfolding insert_sorted
sort_records [] = []
sort_records (r ∷ rs) = insert_sorted r (sort_records rs)

abbrev pub Journal : Type 0
Journal = Dict (BudgetState × ℕ)

pub record Folded : Type 0 where
  pub legacy_total : ℕ
  pub seen_receipts : List ℕ
  pub journal : Journal

-- `journal.get(operation_id, ("", Decimal("0")))`: the state, if any, and the amount
abbrev pub previous_state : Option (BudgetState × ℕ) → Option BudgetState
previous_state none = none
previous_state (some (st, _)) = some st

abbrev pub previous_amount : Option (BudgetState × ℕ) → ℕ
previous_amount none = 0
previous_amount (some (_, n)) = n

-- `event_amount if event_amount else previous_amount`
abbrev pub or_previous : ℕ → Option (BudgetState × ℕ) → ℕ
or_previous n prev = if n == 0 then previous_amount prev else n

unfoldable pub fold_event : BudgetState → ℕ → ℕ → Journal → Journal
fold_event BudgetState.confirmed op n j = put op (BudgetState.confirmed, or_previous n (get op j)) j
fold_event BudgetState.released op n j =
    if in_state BudgetState.confirmed (previous_state (get op j))
    then j
    else put op (BudgetState.released, or_previous n (get op j)) j
fold_event BudgetState.reserved op n j =
    if in_state BudgetState.confirmed (previous_state (get op j))
    then j
    else put op (BudgetState.reserved, n) j

-- a record without a journal event: confirmed spend, each receipt once
unfoldable pub fold_legacy : Option ℕ → Option ℕ → Folded → Folded
fold_legacy none receipt f = f
fold_legacy (some delta) none f = record f { legacy_total = f.legacy_total + delta }
fold_legacy (some delta) (some receipt) f =
    if contains receipt f.seen_receipts then f else record f {
      legacy_total = f.legacy_total + delta;
      seen_receipts = receipt ∷ f.seen_receipts;
    }

unfoldable pub fold_fields :
    Option BudgetState → Option ℕ → Option ℕ → EvidenceRecord → Folded → Folded
unfolding fold_event fold_legacy
fold_fields (some event) (some op) (some n) r f = record f {
  journal = fold_event event op n f.journal;
}
fold_fields _ _ _ r f = fold_legacy r.spend_delta r.receipt_id f

unfoldable pub fold_record : EvidenceRecord → Folded → Folded
unfolding fold_fields
fold_record r f = fold_fields r.budget_event r.operation_id r.budget_amount r f

unfoldable pub fold_records : List EvidenceRecord → Folded → Folded
unfolding fold_record
fold_records [] f = f
fold_records (r ∷ rs) f = fold_records rs (fold_record r f)

-- `_fold_budget_events`
unfoldable pub fold_budget_events : List EvidenceRecord → ℕ × Journal
unfolding sort_records fold_records
fold_budget_events rs =
    let f =
      fold_records (sort_records rs)
        (record { legacy_total = 0; seen_receipts = []; journal = [] }) in
    (f.legacy_total, f.journal)
