-- ===== src/Trial/Changes.antt =====
-- What a change of the trial's file is, whatever fault its write meets.
use ln_church_agent.Common.{arith, ◌≡◌, inl, if-cases, ◌⊎◌, true, not, inr, refl}
use ln_church_agent.Trial.Types.{TrialClaim, TrialFile, TrialWorld, TrialError}
use ln_church_agent.Trial.Journal.{write_changed, change, Update, validate, write_file}
use ln_church_agent.Common.Outcome.{Outcome, done, raised, if-keeps}
use ln_church_agent.TaskJournal.Store.{Fault, no_fault, before_replace, after_replace}
use ln_church_agent.Batch.Types.{next_fault}

-- the file is the one before, or what the update made of a valid one; nothing else changes
pub record IsChange (claim : TrialClaim) (update : Update) (w w' : TrialWorld) : Type 0 where
  pub same_paid : w'.paid_requests ≡ w.paid_requests
  pub same_policy : w'.policy ≡ w.policy
  pub file_lem :
      (w'.file ≡ w.file) ⊎ ((validate claim w.file ≡ true) × (update w.file ≡ done w'.file))

IsChange-self : (claim : TrialClaim) (update : Update) (w : TrialWorld) → IsChange claim update w w
IsChange-self claim update w = record { same_paid = refl; same_policy = refl; file_lem = inl refl }

write_file-IsChange :
    (claim : TrialClaim) (update : Update) (w : TrialWorld) (fault : Fault) (d : TrialFile)
    → validate claim w.file ≡ true
    → update w.file ≡ done d
    → IsChange claim update w (write_file fault d w).1
write_file-IsChange claim update w no_fault d v u = record {
  same_paid = refl;
  same_policy = refl;
  file_lem = inr (v, u);
}
write_file-IsChange claim update w before_replace d v u = record {
  same_paid = refl;
  same_policy = refl;
  file_lem = inl refl;
}
write_file-IsChange claim update w after_replace d v u = record {
  same_paid = refl;
  same_policy = refl;
  file_lem = inr (v, u);
}

write_changed-IsChange :
    (claim : TrialClaim) (update : Update) (w : TrialWorld) (o : Outcome TrialError TrialFile)
    → validate claim w.file ≡ true
    → update w.file ≡ o
    → IsChange claim update w (write_changed claim o w).1
unfolding write_changed
write_changed-IsChange claim update w (raised e) v u = IsChange-self claim update w
write_changed-IsChange claim update w (done d) v u =
    if-keeps (IsChange claim update w) (not (validate claim d)) (raised TrialError.trial_invalid, w)
      (write_file (next_fault w.faults) d w) (IsChange-self claim update w)
      (write_file-IsChange claim update w (next_fault w.faults) d v u)

pub change-IsChange :
    (claim : TrialClaim) (update : Update) (w : TrialWorld)
    → IsChange claim update w (change claim update w).1
unfolding change
change-IsChange claim update w =
    if-cases (λ o. IsChange claim update w o.1) (not (validate claim w.file))
      (raised TrialError.trial_invalid, w) (write_changed claim (update w.file) w)
      (λ _. IsChange-self claim update w)
      (λ v. write_changed-IsChange claim update w (update w.file) (ground (arith, v)) refl)

-- What every update of a valid object keeps, the change keeps.
pub change-keeps :
    (P : TrialFile → Type 0) (claim : TrialClaim) (update : Update) (w : TrialWorld)
    → ((d : TrialFile) → validate claim w.file ≡ true → update w.file ≡ done d → P d)
    → P w.file
    → P (change claim update w).1.file
change-keeps P claim update w k h = elim (change-IsChange claim update w).file_lem [
  | inl same ↦ rw same (h)
  | inr (v, u) ↦ k (change claim update w).1.file v u
]

-- what a change that returned did
pub write_changed-done :
    (claim : TrialClaim) (o : Outcome TrialError TrialFile) (w : TrialWorld) (u : Unit {0})
    → (write_changed claim o w).0 ≡ done u
    → o ≡ done (write_changed claim o w).1.file
unfolding write_changed
write_changed-done claim (raised e) w u h = ground (arith, h)
write_changed-done claim (done d) w u h = ground (arith, h)

pub change-done :
    (claim : TrialClaim) (update : Update) (w : TrialWorld) (u : Unit {0})
    → (change claim update w).0 ≡ done u
    → update w.file ≡ done (change claim update w).1.file
unfolding change
change-done claim update w u h =
    let d = write_changed-done claim (update w.file) w u in ground (arith, h, d)
