-- ===== src/Pipeline/Durable.antt =====
-- packages/native-pipeline/src/PersistentNativePipelineStore.ts: the state of one workspace in a
-- repository that several processes share, each with a cache. A step is what runs between two waits.
pub mod Chain
pub mod Keeps
pub mod Steps
pub mod Saves
pub mod Commits
use bbmcp.Prelude.{
  ℕ, ◌+◌, List, [], ◌∷◌, Bool, true, false, Option, none, some, if◌then◌else◌, nat_eq,
}
use bbmcp.Prelude.Text.{Text, ◌==◌}
use bbmcp.Pipeline.Model.{Timestamp}
use bbmcp.Pipeline.Rows.{Row, save, save_if_revision}

-- What the store uses of the states: how they are written and read back, the revision of what is
-- written (the SHA-256 digest of its JSON text), a new state, `ensureWorkspaceProjectTag` with its
-- answer, and the operations on a state, of which each returns or throws.
pub record Codec : Type 1 where
  pub Held : Type 0
  pub Stored : Type 0
  pub Operation : Type 0
  pub serialize : Held → Stored
  pub deserialize : Stored → Option Held
  pub revision_of : Stored → Text
  pub empty : Held
  pub tag : Held → Bool × Held
  pub act : Operation → Held → Bool × Held

-- The state of a process's cache is an object, which tasks may hold and change in place.
pub record Cached : Type 0 where
  pub revision : Text
  pub object : ℕ

abbrev pub update {ℓ} : {A : Type ℓ} → ℕ → A → (ℕ → A) → ℕ → A
update i v f j = if nat_eq i j then v else f j

module _ (c : Codec) where
  -- A request at work: it has read the row; it writes a row, made from an object, and expects a
  -- revision; or it holds an object to read from.
  pub data Task : Type 0 where
    idle : Task
    found : ℕ → Option (Row c.Stored) → Task
    saving : ℕ → ℕ → Option Text → Row c.Stored → Bool → Task
    ready : ℕ → Task

  pub record World : Type 0 where
    pub row : Option (Row c.Stored)
    pub objects : ℕ → c.Held
    pub next_object : ℕ
    pub caches : ℕ → Option Cached
    pub tasks : ℕ → Task

  abbrev pub set_task : ℕ → Task → World → World
  set_task t task w = record w { tasks = update t task w.tasks }

  abbrev pub set_object : ℕ → c.Held → World → World
  set_object o s w = record w { objects = update o s w.objects }

  -- `JSON.parse` and the like make a new object.
  abbrev pub new_object : c.Held → World → World
  new_object s w = record w {
    objects = update w.next_object s w.objects;
    next_object = w.next_object + 1;
  }

  -- `getCachedState`.
  abbrev pub object_of : Text → Option Cached → Option ℕ
  object_of revision none = none
  object_of revision (some cached) =
      if revision == cached.revision then some cached.object else none

  unfoldable pub get_cached_state : World → ℕ → Option (Row c.Stored) → Option ℕ
  get_cached_state w process none = none
  get_cached_state w process (some row) = object_of row.revision (w.caches process)

  -- `deserializeState(record?.state, workspaceId)`.
  abbrev pub read_body : Option c.Stored → Option c.Held
  read_body none = none
  read_body (some stored) = c.deserialize stored

  abbrev pub body_of : Option (Row c.Stored) → Option c.Stored
  body_of none = none
  body_of (some row) = some row.body

  abbrev pub revision_in : Option (Row c.Stored) → Option Text
  revision_in none = none
  revision_in (some row) = some row.revision

  abbrev pub created_in : Option (Row c.Stored) → Timestamp → Timestamp
  created_in none now = now
  created_in (some row) now = row.created_at

  -- `persistState` up to the call of the repository: the row is made of the object as it is now.
  unfoldable pub persist_state :
      ℕ → ℕ → ℕ → Option (Row c.Stored) → Timestamp → Bool → World → World
  persist_state t process object existing now reading w =
      let serialized = c.serialize (w.objects object) in
      set_task t
        (saving process object (revision_in existing)
          (record {
            revision = c.revision_of serialized;
            body = serialized;
            created_at = created_in existing now;
            updated_at = now;
          })
          reading)
        w

  -- The object that a mutation changes: that of the cache, a new one read from the row, or a new
  -- state. The first two are tagged.
  unfoldable pub mutated_object : World → ℕ → Option (Row c.Stored) → ℕ × World
  unfolding get_cached_state
  mutated_object w process existing = elim (get_cached_state w process existing) [
    | some object ↦ (object, set_object object (c.tag (w.objects object)).1 w)
    | none ↦ elim (read_body (body_of existing)) [
      | some state ↦ (w.next_object, new_object (c.tag state).1 w)
      | none ↦ (w.next_object, new_object c.empty w)
    ]
  ]

  -- `withMutation` behind `find`. An operation that throws has still changed the object.
  unfoldable pub mutate_found :
      ℕ → ℕ → Option (Row c.Stored) → c.Operation → Timestamp → World → World
  unfolding mutated_object persist_state
  mutate_found t process existing operation now w =
      let (object, w1) = mutated_object w process existing in
      let (returned, state) = c.act operation (w1.objects object) in
      let w2 = set_object object state w1 in
      if returned then persist_state t process object existing now false w2 else set_task t idle w2

  abbrev set_cached_state : ℕ → Option (Row c.Stored) → ℕ → World → World
  set_cached_state process none object w = w
  set_cached_state process (some row) object w = record w {
    caches = update process (some (record { revision = row.revision; object = object })) w.caches;
  }

  -- `ensureInitialized` and `readState` behind `find`; the second first runs without the lock, where
  -- a row that cannot be read is left for another `find` under the lock.
  unfoldable pub open_found : ℕ → ℕ → Option (Row c.Stored) → Bool → Timestamp → World → World
  unfolding get_cached_state persist_state
  open_found t process existing locked now w = elim (get_cached_state w process existing) [
    | some object ↦ set_task t (ready object) w
    | none ↦ elim (read_body (body_of existing)) [
      | some state ↦
          let (tagged, state') = c.tag state in
          let w1 = new_object state' w in
          if tagged
          then persist_state t process w.next_object existing now true w1
          else set_task t (ready w.next_object) (set_cached_state process existing w.next_object w1)
      | none ↦
          if locked
          then persist_state t process w.next_object existing now true (new_object c.empty w)
          else set_task t idle w
    ]
  ]

  -- `saveRecord`, and `persistState` behind it. A repository without `saveIfRevision` writes always.
  unfoldable pub save_record :
      Bool → Row c.Stored → Option Text → Option (Row c.Stored) → Bool × Option (Row c.Stored)
  unfolding save save_if_revision
  save_record true row expected old = save_if_revision row expected old
  save_record false row expected old = (true, save row old)

  unfoldable pub finish_save : Bool → ℕ → ℕ → ℕ → Option Text → Row c.Stored → Bool → World → World
  unfolding save_record
  finish_save guarded t process object expected row reading w =
      let (applied, stored) = save_record guarded row expected w.row in
      if applied
      then record w {
        row = stored;
        caches =
            update process (some (record { revision = row.revision; object = object })) w.caches;
        tasks = update t (if reading then ready object else idle) w.tasks;
      }
      else record w {
        row = stored;
        caches = update process none w.caches;
        tasks = update t idle w.tasks;
      }

  -- What a task does next: it reads the row; it goes on from there to mutate or to read; the
  -- repository takes its row; it runs an operation on the object that it reads from, such as the
  -- sweep of expired locks; or it ends.
  pub data Event : Type 0 where
    finds : ℕ → ℕ → Event
    mutates : ℕ → c.Operation → Timestamp → Event
    opens : ℕ → Bool → Timestamp → Event
    saves : ℕ → Event
    maintains : ℕ → c.Operation → Event
    ends : ℕ → Event

  -- An event that does not fit the task changes nothing.
  unfoldable pub advance_task : Bool → Event → Task → World → World
  unfolding mutate_found open_found finish_save
  advance_task guarded (finds t process) task w = set_task t (found process w.row) w
  advance_task guarded (mutates t operation now) (found process existing) w =
      mutate_found t process existing operation now w
  advance_task guarded (opens t locked now) (found process existing) w =
      open_found t process existing locked now w
  advance_task guarded (saves t) (saving process object expected row reading) w =
      finish_save guarded t process object expected row reading w
  advance_task guarded (maintains t operation) (ready object) w =
      set_task t idle (set_object object (c.act operation (w.objects object)).1 w)
  advance_task guarded (ends t) task w = set_task t idle w
  advance_task guarded _ _ w = w

  abbrev pub task_of : Event → ℕ
  task_of (finds t process) = t
  task_of (mutates t operation now) = t
  task_of (opens t locked now) = t
  task_of (saves t) = t
  task_of (maintains t operation) = t
  task_of (ends t) = t

  unfoldable pub advance : Bool → Event → World → World
  unfolding advance_task
  advance guarded event w = advance_task guarded event (w.tasks (task_of event)) w

  unfoldable pub advance_all : Bool → List Event → World → World
  advance_all guarded [] w = w
  advance_all guarded (event ∷ events) w = advance_all guarded events (advance guarded event w)
