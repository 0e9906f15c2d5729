-- ===== src/TaskJournal/Atomic.antt =====
-- Every change of the journal's file is one whole transition, whatever fault interrupts it.
use ln_church_agent.TaskJournal.Types.{Payload, JournalError}
use ln_church_agent.TaskJournal.Store.{
  Checks, write_locked, update, Call, Fault, read_locked, valid, Disk, commit, mutate, run_calls,
}
use ln_church_agent.Common.{
  refl, arith, ◌+◌, ◌≡◌, some, true, none, Bool-cases, inl, List, inr, ◌∷◌, [], false,
}
use ln_church_agent.Common.Outcome.{done, Outcome, raised}

-- the payload that `_update` writes
abbrev pub bumped : Payload → Payload
bumped p = record p { sequence = p.sequence + 1 }

-- the one transition that a call made of the file
pub record IsCommit (k : Checks) (call : Call) (before after : Payload) : Type 0 where
  pub next : Payload
  pub was_valid : valid k before ≡ true
  pub mutated : mutate k call before ≡ done next
  pub written : after ≡ bumped next
  pub is_valid : valid k after ≡ true

-- the file after a call: the one before, or the outcome of one transition of it
pub data IsUpdated (k : Checks) (call : Call) : Disk → Disk → Type 0 where
  kept : {disk : Disk} → IsUpdated k call disk disk
  committed : {p p' : Payload} → IsCommit k call p p' → IsUpdated k call (some p) (some p')

write-IsUpdated :
    (k : Checks) (fault : Fault) (call : Call) (p q : Payload)
    → valid k p ≡ true
    → mutate k call p ≡ done q
    → IsUpdated k call (some p) (write_locked k fault (bumped q) (some p)).1
unfolding write_locked
write-IsUpdated k fault call p q v m =
    let same : IsUpdated k call (some p) (some p) = IsUpdated.kept in
    let change : valid k (bumped q) ≡ true → IsUpdated k call (some p) (some (bumped q)) = λ w.
      IsUpdated.committed
        (record { next = q; was_valid = v; mutated = m; written = refl; is_valid = w }) in
    ground (arith, same, change)

commit-IsUpdated :
    (k : Checks) (fault : Fault) (call : Call) (p : Payload) (r : Outcome JournalError Payload)
    → valid k p ≡ true
    → mutate k call p ≡ r
    → IsUpdated k call (some p) (commit k fault r (some p)).1
unfolding commit
commit-IsUpdated k fault call p (raised e) v m = IsUpdated.kept
commit-IsUpdated k fault call p (done q) v m = write-IsUpdated k fault call p q v m

-- Whatever fault interrupts `_update`, the file after it is the file before, or a valid payload
-- that the method's transition made of a valid one, its sequence grown by one.
pub update-IsUpdated :
    (k : Checks) (fault : Fault) (call : Call) (disk : Disk)
    → IsUpdated k call disk (update k fault call disk).1
unfolding update read_locked
update-IsUpdated k fault call none = IsUpdated.kept
update-IsUpdated k fault call (some p) =
    let same : IsUpdated k call (some p) (some p) = IsUpdated.kept in
    let change : valid k p ≡ true
        → IsUpdated k call (some p) (commit k fault (mutate k call p) (some p)).1 =
      λ v. commit-IsUpdated k fault call p (mutate k call p) v refl in
    elim (Bool-cases (valid k p)) [
      | inl v ↦ let c = change v in ground (arith, c)
      | inr v ↦ ground (arith, same)
    ]

-- what a call that returned did
pub record IsReturned (k : Checks) (call : Call) (disk disk' : Disk) (q : Payload) : Type 0 where
  pub before : Payload
  pub was : disk ≡ some before
  pub commit_lem : IsCommit k call before q
  pub now : disk' ≡ some q

write-IsReturned :
    (k : Checks) (fault : Fault) (call : Call) (p next q : Payload)
    → valid k p ≡ true
    → mutate k call p ≡ done next
    → (write_locked k fault (bumped next) (some p)).0 ≡ done q
    → IsReturned k call (some p) (write_locked k fault (bumped next) (some p)).1 q
unfolding write_locked
write-IsReturned k fault call p next q v m e = record {
  before = p;
  was = refl;
  commit_lem = record {
    next = next;
    was_valid = v;
    mutated = m;
    written = ground (arith, e);
    is_valid = ground (arith, e);
  };
  now = ground (arith, e);
}

commit-IsReturned :
    (k : Checks) (fault : Fault) (call : Call) (p q : Payload) (r : Outcome JournalError Payload)
    → valid k p ≡ true
    → mutate k call p ≡ r
    → (commit k fault r (some p)).0 ≡ done q
    → IsReturned k call (some p) (commit k fault r (some p)).1 q
unfolding commit
commit-IsReturned k fault call p q (raised x) v m e = ground (arith, e)
commit-IsReturned k fault call p q (done next) v m e = write-IsReturned k fault call p next q v m e

update-valid :
    (k : Checks) (fault : Fault) (call : Call) (p : Payload)
    → valid k p ≡ true
    → update k fault call (some p) ≡ commit k fault (mutate k call p) (some p)
unfolding update read_locked
update-valid k fault call p v = ground (arith, v)

update-invalid :
    (k : Checks) (fault : Fault) (call : Call) (p : Payload)
    → valid k p ≡ false
    → (update k fault call (some p)).0 ≡ raised JournalError.invalid
unfolding update read_locked
update-invalid k fault call p v = ground (arith, v)

update-missing :
    (k : Checks) (fault : Fault) (call : Call)
    → (update k fault call none).0 ≡ raised JournalError.missing
unfolding update read_locked
update-missing k fault call = refl

-- the file after `_update` returned is the payload that it returned
pub update-IsReturned :
    (k : Checks) (fault : Fault) (call : Call) (disk : Disk) (q : Payload)
    → (update k fault call disk).0 ≡ done q
    → IsReturned k call disk (update k fault call disk).1 q
update-IsReturned k fault call none q e = ground (arith, e, update-missing k fault call)
update-IsReturned k fault call (some p) q e = elim (Bool-cases (valid k p)) [
  | inl v ↦
      let u = update-valid k fault call p v in
      rw u (commit-IsReturned k fault call p q (mutate k call p) v refl (ground (arith, e, u)))
  | inr v ↦ absurd (ground (arith, e, update-invalid k fault call p v))
]

-- What every transition keeps holds after a history of calls, if it held before.
pub run_calls-keeps :
    (k : Checks) (P : Payload → Type 0)
    → ((call : Call) (p p' : Payload) → IsCommit k call p p' → P p → P p')
    → (calls : List (Fault × Call)) (p : Payload) → P p
    → (p' : Payload) × (run_calls k calls (some p) ≡ some p') × P p'
unfolding run_calls
run_calls-keeps k P step [] p h = (p, refl, h)
run_calls-keeps k P step ((fault, call) ∷ rest) p h =
    go (update-IsUpdated k fault call (some p)) (run_calls-keeps k P step rest)
  where
    go :
        {disk : Disk}
        → IsUpdated k call (some p) disk
        → ((q : Payload) → P q → (p' : Payload) × (run_calls k rest (some q) ≡ some p') × P p')
        → (p' : Payload) × (run_calls k rest disk ≡ some p') × P p'
    go IsUpdated.kept ih = ih p h
    go (IsUpdated.committed {p' = p'} c) ih = ih p' (step call p p' c h)

absent-run_calls : (k : Checks) (calls : List (Fault × Call)) → run_calls k calls none ≡ none
unfolding run_calls update read_locked
absent-run_calls k [] = refl
absent-run_calls k ((fault, call) ∷ rest) = absent-run_calls k rest

-- After any calls and faults the file is still there and holds a valid payload, if it held one, and
-- is still absent, if it was absent.
pub run_calls-IsSound :
    (k : Checks) (calls : List (Fault × Call))
    → (run_calls k calls none ≡ none)
      × ((p : Payload)
          → valid k p ≡ true
          → (p' : Payload) × (run_calls k calls (some p) ≡ some p') × (valid k p' ≡ true))
run_calls-IsSound k calls = (
  absent-run_calls k calls,
  λ p v. run_calls-keeps k (λ q. valid k q ≡ true) (λ call q q' c h. c.is_valid) calls p v,
)
