-- ===== src/Pipeline/Lease.antt =====
-- PersistentNativePipelineStore.ts: the lease on a workspace, one row that processes compete for. A
-- step is what runs between two waits, and the clock stands still within it.
pub mod Names
pub mod Safe
pub mod Writing
pub mod Looking
pub mod Putting
pub mod Keeping
pub mod Exclusive
use bbmcp.Prelude.{
  ℕ, ◌+◌, List, [], ◌∷◌, ◌++◌, Bool, true, false, ◌&&◌, not, Option, none, some, if◌then◌else◌, ltb,
}
use bbmcp.Prelude.Text.{Text, text, ◌==◌, includes}
use bbmcp.Pipeline.Model.{Timestamp, stamp, parse_date}
use bbmcp.Pipeline.Rows.{Row, save_if_revision}
use bbmcp.Pipeline.Durable.{update}

pub record LockState : Type 0 where
  pub owner : Text
  pub expires_at : Timestamp

-- A body of `none` is what `parseLockState` refuses.
abbrev pub LockRow : Type 0
LockRow = Row (Option LockState)

unfoldable pub is_lock_active : LockState → ℕ → Bool
is_lock_active lock now = elim (parse_date lock.expires_at) [ none ↦ false | some t ↦ ltb now t ]

abbrev pub lock_in : Option LockRow → Option LockState
lock_in none = none
lock_in (some row) = row.body

abbrev pub can_attempt : Option LockRow → ℕ → Bool
can_attempt row now = elim (lock_in row) [ none ↦ true | some lock ↦ not (is_lock_active lock now) ]

abbrev created_in : Option LockRow → Timestamp → Timestamp
created_in none now = now
created_in (some row) now = row.created_at

abbrev pub revision_in : Option LockRow → Option Text
revision_in none = none
revision_in (some row) = some row.revision

abbrev pub lock_row : Text → Option LockRow → ℕ → ℕ → LockRow
lock_row owner current now ttl = record {
  revision = owner;
  body = some (record { owner = owner; expires_at = stamp (now + ttl) });
  created_at = created_in current (stamp now);
  updated_at = stamp now;
}

-- The lease that the owner holds, by the millisecond at which it runs out.
unfoldable pub confirmed_until : Text → Option LockState → ℕ → Option ℕ
confirmed_until owner none now = none
confirmed_until owner (some lock) now =
    if lock.owner == owner && is_lock_active lock now then parse_date lock.expires_at else none

-- `toISOString` is the parameter `iso`.
abbrev pub released_row : (ℕ → Text) → Text → LockRow → ℕ → LockRow
released_row iso owner current now = record {
  revision = owner ++ text ":released:" ++ iso now;
  body = some (record { owner = owner; expires_at = stamp now });
  created_at = current.created_at;
  updated_at = stamp now;
}

-- A request waits for its turn; it is about to write a row and expects a revision; it has written;
-- it works under the lease until a time; or it is about to write that it gives the lease back.
pub data Task : Type 0 where
  idle : Task
  waiting : Text → Task
  attempting : Text → Option Text → LockRow → Task
  written : Text → Task
  holding : Text → ℕ → Task
  releasing : Text → Text → LockRow → Task

-- The owners and revisions that have come up so far, and those of them that have been stored, are
-- kept to speak of them.
pub record World : Type 0 where
  pub row : Option LockRow
  pub now : ℕ
  pub tasks : ℕ → Task
  pub used : List Text
  pub stored : List Text

abbrev pub set_task : ℕ → Task → World → World
set_task t task w = record w { tasks = update t task w.tasks }

-- What a request does next. `begins` names the new owner, `process.pid` and a random UUID.
pub data Event : Type 0 where
  passes : ℕ → Event
  begins : ℕ → Text → Event
  looks : ℕ → Event
  writes : ℕ → Event
  confirms : ℕ → Event
  gives_up : ℕ → Event
  leaves : ℕ → Event
  frees : ℕ → Event

module _ (iso : ℕ → Text) (ttl : ℕ) where
  unfoldable pub look : ℕ → Text → World → World
  unfolding is_lock_active
  look t owner w =
      if can_attempt w.row w.now
      then set_task t (attempting owner (revision_in w.row) (lock_row owner w.row w.now ttl)) w
      else w

  -- The answer of `saveIfRevision`, and the row after it.
  abbrev pub put : LockRow → Task → Task → ℕ → Bool × Option LockRow → World → World
  put row applied refused t (false, after) w = record w {
    row = after;
    tasks = update t refused w.tasks;
  }
  put row applied refused t (true, after) w = record w {
    row = after;
    tasks = update t applied w.tasks;
    stored = row.revision ∷ w.stored;
  }

  unfoldable pub confirm : ℕ → Text → World → World
  unfolding confirmed_until
  confirm t owner w = elim (confirmed_until owner (lock_in w.row) w.now) [
    | none ↦ set_task t (waiting owner) w
    | some expires ↦ set_task t (holding owner expires) w
  ]

  -- `releaseLock` up to the call of the repository.
  abbrev pub leave_row : ℕ → Text → Option LockRow → World → World
  leave_row t owner none w = set_task t idle w
  leave_row t owner (some row) w = elim row.body [
    | none ↦ set_task t idle w
    | some lock ↦
        let released = released_row iso owner row w.now in
        if lock.owner == owner
        then record w {
          tasks = update t (releasing owner row.revision released) w.tasks;
          used = released.revision ∷ w.used;
        }
        else set_task t idle w
  ]

  unfoldable pub advance_task : Event → Task → World → World
  unfolding look confirm save_if_revision
  advance_task (passes n) task w = record w { now = w.now + n }
  advance_task (begins t owner) idle w = record w {
    tasks = update t (waiting owner) w.tasks;
    used = owner ∷ w.used;
  }
  advance_task (looks t) (waiting owner) w = look t owner w
  advance_task (writes t) (attempting owner expected row) w =
      put row (written owner) (waiting owner) t (save_if_revision row expected w.row) w
  advance_task (confirms t) (written owner) w = confirm t owner w
  advance_task (gives_up t) (waiting owner) w = set_task t idle w
  advance_task (leaves t) (holding owner expires) w = leave_row t owner w.row w
  advance_task (frees t) (releasing owner expected row) w =
      put row idle idle t (save_if_revision row (some expected) w.row) w
  advance_task _ _ w = w

  abbrev pub task_of : Event → World → Task
  task_of (passes n) w = idle
  task_of (begins t owner) w = w.tasks t
  task_of (looks t) w = w.tasks t
  task_of (writes t) w = w.tasks t
  task_of (confirms t) w = w.tasks t
  task_of (gives_up t) w = w.tasks t
  task_of (leaves t) w = w.tasks t
  task_of (frees t) w = w.tasks t

  unfoldable pub advance : Event → World → World
  unfolding advance_task
  advance event w = advance_task event (task_of event w) w

  unfoldable pub advance_all : List Event → World → World
  advance_all [] w = w
  advance_all (event ∷ events) w = advance_all events (advance event w)

abbrev pub start_world : ℕ → World
start_world now = record { row = none; now = now; tasks = λ t. idle; used = []; stored = [] }
