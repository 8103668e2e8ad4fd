-- ===== src/Pipeline/Lease/Exclusive.antt =====
-- PersistentNativePipelineStore.ts: the lease. One request at a time works under a lease that has not
-- run out.
use bbmcp.Prelude.{ℕ, ◌<◌, ◌≡◌, refl, sym, ◌∙◌, ap, List, [], ◌∷◌, true, false, some, arith, nat_eq}
use bbmcp.Prelude.Text.{Text, includes}
use bbmcp.Pipeline.Lease.{
  LockRow, lock_in, confirmed_until, released_row, Task, idle, waiting, attempting, written,
  holding, releasing, World, Event, passes, begins, looks, writes, confirms, gives_up, leaves,
  frees, advance_task, task_of, advance, advance_all, start_world,
}
use bbmcp.Pipeline.Lease.Safe.{IsHeld, IsSafe}
use bbmcp.Pipeline.Lease.Looking.{passes-IsSafe, begins-IsSafe, look-IsSafe}
use bbmcp.Pipeline.Lease.Putting.{writes-IsSafe, frees-IsSafe}
use bbmcp.Pipeline.Lease.Keeping.{confirm-IsSafe, idle-IsSafe, leave_row-IsSafe}

start_world-IsSafe : (now : ℕ) → IsSafe (start_world now)
start_world-IsSafe now = record {
  row = tt;
  at_work = λ t. tt;
  owners = record { known = λ t r e. absurd cc; unique = λ t u r e k. absurd cc };
  claims = record { known = λ t r e. absurd cc; unique = λ t u r e k. absurd cc };
  grown = λ r e. e;
}

module _ (iso : ℕ → Text) (ttl : ℕ) where
  -- An owner is new, a request confirms its lease before it has run out, and the revision of a
  -- release has not come up before.
  abbrev FairTask : World → Event → Task → Type 0
  FairTask w (begins t owner) task = includes w.used owner ≡ false
  FairTask w (confirms t) (written owner) =
      (expires : ℕ) × (confirmed_until owner (lock_in w.row) w.now ≡ some expires)
  FairTask w (leaves t) (holding owner expires) =
      (row : LockRow)
      → w.row ≡ some row
      → includes w.used (released_row iso owner row w.now).revision ≡ false
  FairTask w _ _ = Unit

  abbrev pub IsFair : List Event → World → Type 0
  IsFair [] w = Unit
  IsFair (event ∷ events) w =
      FairTask w event (task_of iso ttl event w) × IsFair events (advance iso ttl event w)

  module _ (w : World) (h : IsSafe w) where
    advance_task-IsSafe :
        (event : Event) (task : Task)
        → task_of iso ttl event w ≡ task
        → FairTask w event task
        → IsSafe (advance_task iso ttl event task w)
    unfolding advance_task
    advance_task-IsSafe (passes n) task k fair = passes-IsSafe iso ttl w h n
    advance_task-IsSafe (begins t owner) idle k fair = begins-IsSafe iso ttl w h t owner fair
    advance_task-IsSafe (looks t) (waiting owner) k fair = look-IsSafe iso ttl w h t owner k
    advance_task-IsSafe (writes t) (attempting owner expected row) k fair =
        writes-IsSafe iso ttl w h t owner expected row k
    advance_task-IsSafe (confirms t) (written owner) k (expires, e) =
        confirm-IsSafe iso ttl w h t owner expires k e
    advance_task-IsSafe (gives_up t) (waiting owner) k fair = idle-IsSafe iso ttl w h t
    advance_task-IsSafe (leaves t) (holding owner expires) k fair =
        leave_row-IsSafe iso ttl w h t owner expires w.row k refl fair
    advance_task-IsSafe (frees t) (releasing owner expected row) k fair =
        frees-IsSafe iso ttl w h t owner expected row k
    advance_task-IsSafe _ _ k fair = h

  advance_all-IsSafe :
      (events : List Event) (w : World)
      → IsSafe w
      → IsFair events w
      → IsSafe (advance_all iso ttl events w)
  unfolding advance_all advance
  advance_all-IsSafe [] w h fair = h
  advance_all-IsSafe (event ∷ events) w h (now, later) =
      advance_all-IsSafe events (advance iso ttl event w)
        (advance_task-IsSafe w h event (task_of iso ttl event w) refl now) later

  -- Over a repository that guards revisions, from an empty table, whatever the schedule of the
  -- requests, where each has an owner that is new, each finds its lease still active when it confirms
  -- it, and the revision of a release is new: two requests that both work under a lease that has not
  -- run out are the same one.
  pub advance_all-exclusive :
      (events : List Event) (now : ℕ)
      → IsFair events (start_world now)
      → (t u : ℕ) (a b : Text) (e f : ℕ)
      → (advance_all iso ttl events (start_world now)).tasks t ≡ holding a e
      → (advance_all iso ttl events (start_world now)).tasks u ≡ holding b f
      → (advance_all iso ttl events (start_world now)).now < e
      → (advance_all iso ttl events (start_world now)).now < f
      → nat_eq t u ≡ true
  advance_all-exclusive events now fair t u a b e f k l before before' =
      let w = advance_all iso ttl events (start_world now) in
      let h = advance_all-IsSafe events (start_world now) (start_world-IsSafe now) fair in
      let held : IsHeld w.now w.stored w.row a e = rw k at (h.at_work t) in
      let held' : IsHeld w.now w.stored w.row b f = rw l at (h.at_work u) in
      let (row, here, named, lock, body, mine, read) = held before in
      let (row', here', named', lock', body', mine', read') = held' before' in
      let one : row ≡ row' = ground arith in
      let same : a ≡ b = sym named ∙ ap (λ (r : LockRow). r.revision) one ∙ named' in
      h.owners.unique t u b (rw (k, same) refl) (rw l refl)
