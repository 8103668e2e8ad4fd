-- ===== src/Pipeline/Lease/Safe.antt =====
-- PersistentNativePipelineStore.ts: the lease. What holds of the row and the requests between two
-- steps, where owners are new and each request confirms its lease in time.
use bbmcp.Prelude.{
  ℕ, ◌+◌, ◌<◌, ◌≡◌, refl, inl, inr, List, true, false, Option, none, some, arith, nat_eq, ltb,
  Bool-cases, Option-cases,
}
use bbmcp.Prelude.Text.{Text, includes}
use bbmcp.Pipeline.Model.{parse_date}
use bbmcp.Pipeline.Durable.{update}
use bbmcp.Pipeline.Lease.{
  LockState, LockRow, is_lock_active, Task, idle, waiting, attempting, written, holding, releasing,
  World,
}
use bbmcp.Pipeline.Lease.Names.{owner_of, claim_of, IsNaming, Follows, IsNaming-update}

-- The lease of the row has run out, or it has none.
abbrev pub IsOver : ℕ → LockRow → Type 0
IsOver now row = (lock : LockState) → row.body ≡ some lock → is_lock_active lock now ≡ false

pub is_lock_active-later :
    (lock : LockState) (now n : ℕ)
    → is_lock_active lock now ≡ false
    → is_lock_active lock (now + n) ≡ false
unfolding is_lock_active
is_lock_active-later lock now n h = elim (Option-cases (parse_date lock.expires_at)) [
  | inl unread ↦ rw (is_lock_active, unread) refl
  | inr (e, read) ↦
      let past : ltb now e ≡ false = rw (is_lock_active, read) at h in
      let later : ltb (now + n) e ≡ false = ground arith in rw (is_lock_active, read) later
]

module _ (now : ℕ) (stored : List Text) where
  pub record IsRow (row : LockRow) : Type 0 where
    pub known : includes stored row.revision ≡ true
    pub active_owner :
        (lock : LockState)
        → row.body ≡ some lock
        → is_lock_active lock now ≡ true
        → row.revision ≡ lock.owner

  abbrev pub IsStored : Option LockRow → Type 0
  IsStored none = Unit
  IsStored (some row) = IsRow row

  module _ (current : Option LockRow) where
    pub record IsAttempt (owner : Text) (expected : Option Text) (row : LockRow) : Type 0 where
      pub new : includes stored owner ≡ false
      pub named : row.revision ≡ owner
      pub owned : (lock : LockState) → row.body ≡ some lock → lock.owner ≡ owner
      pub seen : (r : Text) → expected ≡ some r → includes stored r ≡ true
      pub over :
          (old : LockRow) → current ≡ some old → expected ≡ some old.revision → IsOver now old

    -- A lease that has not run out stands in the row.
    abbrev pub IsHeld : Text → ℕ → Type 0
    IsHeld owner expires =
        now < expires
        → (row : LockRow) × (current ≡ some row)
          × (row.revision ≡ owner)
          × (lock : LockState) × (row.body ≡ some lock)
          × (lock.owner ≡ owner)
          × (parse_date lock.expires_at ≡ some expires)

    pub record IsRelease (owner expected : Text) (row : LockRow) : Type 0 where
      pub new : includes stored row.revision ≡ false
      pub seen : includes stored expected ≡ true
      pub over : IsOver now row
      pub own :
          (old : LockRow) (lock : LockState)
          → current ≡ some old
          → old.revision ≡ expected
          → old.body ≡ some lock
          → lock.owner ≡ owner

    abbrev pub IsTask : Task → Type 0
    IsTask idle = Unit
    IsTask (waiting owner) = includes stored owner ≡ false
    IsTask (attempting owner expected row) = IsAttempt owner expected row
    IsTask (written owner) = Unit
    IsTask (holding owner expires) = IsHeld owner expires
    IsTask (releasing owner expected row) = IsRelease owner expected row

pub record IsSafe (w : World) : Type 0 where
  pub row : IsStored w.now w.stored w.row
  pub at_work : (t : ℕ) → IsTask w.now w.stored w.row (w.tasks t)
  pub owners : IsNaming owner_of w.used w.tasks
  pub claims : IsNaming claim_of w.used w.tasks
  pub grown : (r : Text) → includes w.stored r ≡ true → includes w.used r ≡ true

-- One request goes on, and what holds of the others goes on to hold.
module _ (w : World) (h : IsSafe w) (t : ℕ) (new : Task) where
  pub IsSafe-step :
      (row : Option LockRow) (used stored : List Text)
      → IsStored w.now stored row
      → IsTask w.now stored row new
      → ((u : ℕ)
          → nat_eq t u ≡ false
          → IsTask w.now w.stored w.row (w.tasks u)
          → IsTask w.now stored row (w.tasks u))
      → Follows owner_of w.used (w.tasks t) new
      → Follows claim_of w.used (w.tasks t) new
      → ((r : Text) → owner_of new ≡ some r → includes used r ≡ true)
      → ((r : Text) → claim_of new ≡ some r → includes used r ≡ true)
      → ((r : Text) → includes w.used r ≡ true → includes used r ≡ true)
      → ((r : Text) → includes stored r ≡ true → includes used r ≡ true)
      → IsSafe (record w { row = row; tasks = update t new w.tasks; used = used; stored = stored })
  IsSafe-step row used stored row_ok task_ok others owner claim owner_in claim_in more grown =
      record {
        row = row_ok;
        at_work = λ u. elim (Bool-cases (nat_eq t u)) [
          | inl hit ↦ rw hit task_ok
          | inr miss ↦ rw miss (others u miss (h.at_work u))
        ];
        owners = IsNaming-update owner_of w.used used w.tasks t new h.owners owner owner_in more;
        claims = IsNaming-update claim_of w.used used w.tasks t new h.claims claim claim_in more;
        grown = grown;
      }

  -- The row stays, and no name comes up.
  pub IsSafe-task :
      IsTask w.now w.stored w.row new
      → ((r : Text) → owner_of new ≡ some r → owner_of (w.tasks t) ≡ some r)
      → ((r : Text) → claim_of new ≡ some r → claim_of (w.tasks t) ≡ some r)
      → IsSafe (record w { tasks = update t new w.tasks })
  IsSafe-task task_ok owner claim =
      IsSafe-step w.row w.used w.stored h.row task_ok (λ u miss k. k) (λ r e. inl (owner r e))
        (λ r e. inl (claim r e)) (λ r e. h.owners.known t r (owner r e))
        (λ r e. h.claims.known t r (claim r e)) (λ r e. e) h.grown
