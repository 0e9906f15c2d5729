-- ===== src/Journals/Stored.antt =====
-- A journal file of one object: a method loads and validates it, changes it and writes it whole.
-- The file is the one before or the one after, whatever fault the write meets.
use ln_church_agent.Common.{List, Option, some, ◌≡◌, none, refl}
use ln_church_agent.Common.Outcome.{Outcome, done, raised}
use ln_church_agent.TaskJournal.Store.{Fault, no_fault, before_replace, after_replace}
use ln_church_agent.Batch.Types.{later_faults, next_fault}

-- `JournalError` by its code, and `JournalPersistenceError`
pub data FileError : Type 0 where
  journal_invalid state_conflict not_persisted : FileError

-- the file, and the faults that its next writes meet
pub record Stored (D : Type 0) : Type 0 where
  pub file : D
  pub faults : List Fault

-- what a method makes of the loaded object: an error, no write, or an object to write
abbrev pub Change : Type 0 → Type 0
Change D = D → Outcome FileError (Option D)

module _ {D : Type 0} where
  abbrev pub write_stored : Fault → D → Stored D → Outcome FileError (Unit {0}) × Stored D
  write_stored no_fault d w = (done tt, record { file = d; faults = later_faults w.faults })
  write_stored before_replace d w =
      (raised FileError.not_persisted, record w { faults = later_faults w.faults })
  write_stored after_replace d w =
      (raised FileError.not_persisted, record { file = d; faults = later_faults w.faults })

  abbrev pub settle :
      Outcome FileError (Option D) → Stored D → Outcome FileError (Unit {0}) × Stored D
  settle (raised e) w = (raised e, w)
  settle (done none) w = (done tt, w)
  settle (done (some d)) w = write_stored (next_fault w.faults) d w

  abbrev pub load_and :
      Option FileError → Change D → Stored D → Outcome FileError (Unit {0}) × Stored D
  load_and (some e) change w = (raised e, w)
  load_and none change w = settle (change w.file) w

  -- a method: `_load`, the change, `_write`
  unfoldable pub rewrite_file :
      (D → Option FileError) → Change D → Stored D → Outcome FileError (Unit {0}) × Stored D
  rewrite_file validate change w = load_and (validate w.file) change w

  module _ (P : D → Type 0) where
    write_stored-keeps :
        (fault : Fault) (d : D) (w : Stored D) → P d → P w.file → P (write_stored fault d w).1.file
    write_stored-keeps no_fault d w h k = h
    write_stored-keeps before_replace d w h k = k
    write_stored-keeps after_replace d w h k = h

    settle-keeps :
        (o : Outcome FileError (Option D)) (w : Stored D)
        → ((d : D) → o ≡ done (some d) → P d)
        → P w.file
        → P (settle o w).1.file
    settle-keeps (raised e) w h k = k
    settle-keeps (done none) w h k = k
    settle-keeps (done (some d)) w h k = write_stored-keeps (next_fault w.faults) d w (h d refl) k

    load_and-keeps :
        (o : Option FileError) (change : Change D) (w : Stored D)
        → ((d : D) → o ≡ none → change w.file ≡ done (some d) → P d)
        → P w.file
        → P (load_and o change w).1.file
    load_and-keeps (some e) change w h k = k
    load_and-keeps none change w h k = settle-keeps (change w.file) w (λ d. h d refl) k

    -- What a change of a valid object keeps, the method keeps, whatever fault the write meets.
    pub rewrite_file-keeps :
        (validate : D → Option FileError) (change : Change D) (w : Stored D)
        → ((d : D) → validate w.file ≡ none → change w.file ≡ done (some d) → P d)
        → P w.file
        → P (rewrite_file validate change w).1.file
    unfolding rewrite_file
    rewrite_file-keeps validate change w h k = load_and-keeps (validate w.file) change w h k
