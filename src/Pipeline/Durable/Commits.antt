-- ===== src/Pipeline/Durable/Commits.antt =====
-- PersistentNativePipelineStore.ts over any schedule of its tasks: whole operations, none lost.
use bbmcp.Prelude.{ℕ, ◌≡◌, refl, inl, inr, Bool, true, List, [], ◌∷◌, Option, none, some, arith}
use bbmcp.Pipeline.Model.{Timestamp}
use bbmcp.Pipeline.Rows.{Row}
use bbmcp.Pipeline.Durable.{
  Codec, Task, idle, found, saving, ready, World, Event, finds, mutates, opens, saves, maintains,
  ends, advance_task, advance, advance_all, task_of, mutate_found, open_found, mutated_object,
  persist_state,
}
use bbmcp.Pipeline.Durable.Chain.{acted, Commits, start, commit}
use bbmcp.Pipeline.Durable.Keeps.{Collisionless, IsTask, Good, set_object-Good, set_task-Good}
use bbmcp.Pipeline.Durable.Saves.{Commit, Advanced, finish_save-Advanced}
use bbmcp.Pipeline.Durable.Steps.{mutate_found-Good, open_found-Good}

module _ (c : Codec) (collisionless : Collisionless c) where
  -- The work between two waits leaves the row to `saves`.
  mutate_found-row :
      (t p : ℕ) (existing : Option (Row c.Stored)) (operation : c.Operation) (now : Timestamp)
      (w : World c)
      → (mutate_found c t p existing operation now w).row ≡ w.row
  unfolding mutate_found mutated_object persist_state
  mutate_found-row t p existing operation now w = ground arith

  open_found-row :
      (t p : ℕ) (existing : Option (Row c.Stored)) (locked : Bool) (now : Timestamp) (w : World c)
      → (open_found c t p existing locked now w).row ≡ w.row
  unfolding open_found persist_state
  open_found-row t p none locked now w = ground arith
  open_found-row t p (some row) locked now w = ground arith

  advance_task-Advanced :
      (event : Event c) (task : Task c) (w : World c)
      → Good c w
      → IsTask c w.objects w.next_object task
      → Advanced c collisionless w (advance_task c true event task w)
  unfolding advance_task
  advance_task-Advanced (finds t process) task w h k =
      (set_task-Good c t (found process w.row) w h.sealed h, inl refl)
  advance_task-Advanced (mutates t operation now) (found process existing) w h k = (
    mutate_found-Good c collisionless t process existing operation now w h k,
    inl (mutate_found-row t process existing operation now w),
  )
  advance_task-Advanced (mutates t operation now) idle w h k = (h, inl refl)
  advance_task-Advanced (mutates t operation now) (saving p o e r b) w h k = (h, inl refl)
  advance_task-Advanced (mutates t operation now) (ready o) w h k = (h, inl refl)
  advance_task-Advanced (opens t locked now) (found process existing) w h k = (
    open_found-Good c collisionless t process existing locked now w h k,
    inl (open_found-row t process existing locked now w),
  )
  advance_task-Advanced (opens t locked now) idle w h k = (h, inl refl)
  advance_task-Advanced (opens t locked now) (saving p o e r b) w h k = (h, inl refl)
  advance_task-Advanced (opens t locked now) (ready o) w h k = (h, inl refl)
  advance_task-Advanced (saves t) (saving process object expected row reading) w h k =
      finish_save-Advanced c collisionless t process object expected row reading w h k
  advance_task-Advanced (saves t) idle w h k = (h, inl refl)
  advance_task-Advanced (saves t) (found p e) w h k = (h, inl refl)
  advance_task-Advanced (saves t) (ready o) w h k = (h, inl refl)
  advance_task-Advanced (maintains t operation) (ready object) w h k = (
    set_task-Good c t idle _ tt (
        set_object-Good c object (c.act operation (w.objects object)).1 w (λ d g. acted operation g)
          h),
    inl refl,
  )
  advance_task-Advanced (maintains t operation) idle w h k = (h, inl refl)
  advance_task-Advanced (maintains t operation) (found p e) w h k = (h, inl refl)
  advance_task-Advanced (maintains t operation) (saving p o e r b) w h k = (h, inl refl)
  advance_task-Advanced (ends t) task w h k = (set_task-Good c t idle w tt h, inl refl)

  advance-Advanced :
      (event : Event c) (w : World c)
      → Good c w
      → Advanced c collisionless w (advance c true event w)
  unfolding advance
  advance-Advanced event w h =
      advance_task-Advanced event (w.tasks (task_of c event)) w h (h.at_work (task_of c event))

  Commit-Commits :
      {first old after : Option (Row c.Stored)}
      → Commits c first old
      → Commit c collisionless old after
      → Commits c first after
  Commit-Commits h (inl stays) = rw stays h
  Commit-Commits h (inr (new, put, extends)) = rw put (commit h extends)

  advance_all-Commits_from :
      (first : Option (Row c.Stored)) (schedule : List (Event c)) (w : World c)
      → Good c w
      → Commits c first w.row
      → Commits c first (advance_all c true schedule w).row
  unfolding advance_all
  advance_all-Commits_from first [] w h k = k
  advance_all-Commits_from first (event ∷ events) w h k =
      let (h', step) = advance-Advanced event w h in
      advance_all-Commits_from first events (advance c true event w) h' (Commit-Commits k step)

  -- Over a repository that guards revisions, where no two stored values have one revision, and from
  -- a good start: whatever the schedule of the processes' tasks, the rows that come to be stored are
  -- those of one object on which operations are whole. Each comes of the row that it replaces, as
  -- it was stored or read back, by tags and operations; no stored row is passed over.
  pub advance_all-Commits :
      (schedule : List (Event c)) (w : World c)
      → Good c w
      → Commits c w.row (advance_all c true schedule w).row
  advance_all-Commits schedule w h = advance_all-Commits_from w.row schedule w h start
