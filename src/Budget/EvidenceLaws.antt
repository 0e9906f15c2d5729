-- ===== src/Budget/EvidenceLaws.antt =====
-- The journal that the fold builds, against the set of the records.
use Prim.Native.Nat.{ℕ}
use ln_church_agent.Common.{
  Option, Bool, false, ◌≡◌, List, some, ◌&&◌, ◌==◌, true, arith, ◌||◌, ◌∷◌, [], none, refl,
}
use ln_church_agent.Budget.Evidence.{
  fold_event, fold_legacy, fold_fields, fold_records, insert_sorted, sort_records,
  fold_budget_events, EvidenceRecord, Journal, Folded, fold_record, previous_state, or_previous,
}
use ln_church_agent.Budget.Types.{BudgetState, in_state, same_state}
use ln_church_agent.Common.Dict.{get, get-put}
use ln_church_agent.Common.Lists.{any}

abbrev names : ℕ → Option ℕ → Bool
names op none = false
names op (some k) = op == k

abbrev has_amount : Option ℕ → Bool
has_amount none = false
has_amount (some _) = true

-- a valid event that confirms the operation
unfoldable pub confirms : ℕ → EvidenceRecord → Bool
confirms op r =
    in_state BudgetState.confirmed r.budget_event
    && names op r.operation_id
    && has_amount r.budget_amount

abbrev is_confirmed : ℕ → Journal → Bool
is_confirmed op j = in_state BudgetState.confirmed (previous_state (get op j))

fold_event-confirmed :
    (op : ℕ) (e : BudgetState) (k n : ℕ) (j : Journal)
    → is_confirmed op (fold_event e k n j)
      ≡ (same_state BudgetState.confirmed e && (op == k)) || is_confirmed op j
unfolding fold_event
fold_event-confirmed op BudgetState.confirmed k n j =
    ground (arith, get-put k op (BudgetState.confirmed, or_previous n (get k j)) j)
fold_event-confirmed op BudgetState.released k n j =
    ground (arith, get-put k op (BudgetState.released, or_previous n (get k j)) j)
fold_event-confirmed op BudgetState.reserved k n j =
    ground (arith, get-put k op (BudgetState.reserved, n) j)

fold_legacy-journal : (d t : Option ℕ) (f : Folded) → (fold_legacy d t f).journal ≡ f.journal
unfolding fold_legacy
fold_legacy-journal none t f = refl
fold_legacy-journal (some d) none f = refl
fold_legacy-journal (some d) (some t) f = ground arith

fold_fields-confirmed :
    (op : ℕ) (e : Option BudgetState) (k n : Option ℕ) (r : EvidenceRecord) (f : Folded)
    → is_confirmed op (fold_fields e k n r f).journal
      ≡ (in_state BudgetState.confirmed e && names op k && has_amount n)
        || is_confirmed op f.journal
unfolding fold_fields
fold_fields-confirmed op (some e) (some k) (some n) r f =
    ground (arith, fold_event-confirmed op e k n f.journal)
fold_fields-confirmed op e k n r f =
    ground (arith, fold_legacy-journal r.spend_delta r.receipt_id f)

fold_records-confirmed :
    (op : ℕ) (rs : List EvidenceRecord) (f : Folded)
    → is_confirmed op (fold_records rs f).journal
      ≡ any (confirms op) rs || is_confirmed op f.journal
unfolding fold_records fold_record confirms
fold_records-confirmed op [] f = refl
fold_records-confirmed op (r ∷ rs) f = ground (
  arith,
  fold_records-confirmed op rs (fold_record r f),
  fold_fields-confirmed op r.budget_event r.operation_id r.budget_amount r f,
)

any-insert :
    (p : EvidenceRecord → Bool) (r : EvidenceRecord) (rs : List EvidenceRecord)
    → any p (insert_sorted r rs) ≡ p r || any p rs
unfolding insert_sorted
any-insert p r [] = refl
any-insert p r (x ∷ xs) = ground (arith, any-insert p r xs)

any-sort :
    (p : EvidenceRecord → Bool) (rs : List EvidenceRecord) → any p (sort_records rs) ≡ any p rs
unfolding sort_records
any-sort p [] = refl
any-sort p (r ∷ rs) = ground (arith, any-insert p r (sort_records rs), any-sort p rs)

-- In the folded journal an operation is confirmed exactly when one of the records is a valid
-- confirmation of it, whatever the order of the records and whatever else they say.
pub fold_confirmed_iff :
    (op : ℕ) (rs : List EvidenceRecord)
    → in_state BudgetState.confirmed (previous_state (get op (fold_budget_events rs).1))
      ≡ any (confirms op) rs
unfolding fold_budget_events get
fold_confirmed_iff op rs = ground (
  arith,
  any-sort (confirms op) rs,
  fold_records-confirmed op (sort_records rs)
      (record { legacy_total = 0; seen_receipts = []; journal = [] }),
)
