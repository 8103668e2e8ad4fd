-- ===== src/Pipeline/Locks/Stale.antt =====
-- projectLockRepository.ts: `getProjectLock` on a lock that has expired.
use bbmcp.Prelude.{
  ℕ, ◌≡◌, refl, ◌⊎◌, inl, inr, ◌∙◌, Bool, true, false, [], ◌∷◌, Option, none, some, if◌then◌else◌,
  arith, Bool-cases,
}
use bbmcp.Prelude.Text.{Text, ◌==◌}
use bbmcp.Prelude.Dict.{
  Dict, get, delete, get-set_other, get-delete_self, UniqueKeys, delete-UniqueKeys,
}
use bbmcp.Pipeline.State.{Lock, Project, State}
use bbmcp.Pipeline.Events.{append_project_snapshot_event}
use bbmcp.Pipeline.Locks.Mirror.{Shows, IsMirror}
use bbmcp.Pipeline.Locks.Frame.{get-sweep}
use bbmcp.Pipeline.Locks.{
  show_lock, has_visible_lock_diff, sync_found, sync_project_lock_snapshot, drop_lock, drop_each,
  is_lock_expired, release_expired_project_locks, get_project_lock,
}

drop_lock-other :
    (j k : Text) (s : State) → (j == k) ≡ false → get k (drop_lock j s).projects ≡ get k s.projects
unfolding drop_lock sync_project_lock_snapshot append_project_snapshot_event
drop_lock-other j k s other = go (get j s.projects)
  where
    s' : State
    s' = record s { project_locks = delete j s.project_locks }

    go : (o : Option Project) → get k (sync_found s' j none o).projects ≡ get k s.projects
    go none = refl
    go (some p) = elim (Bool-cases (has_visible_lock_diff p.project_lock none)) [
      | inl diff ↦ rw diff (get-set_other j k (show_lock p none) s.projects other)
      | inr level ↦ rw level refl
    ]

drop_each-other :
    (selected : Lock → Bool) (entries : Dict Lock) (n : ℕ) (s : State) (k : Text)
    → get k entries ≡ none
    → get k (drop_each selected entries n s).1.projects ≡ get k s.projects
unfolding drop_each get
drop_each-other selected [] n s k absent = refl
drop_each-other selected ((j, l) ∷ rest) n s k absent =
    drop_each-other selected rest _ _ k (ground arith) ∙ step (Bool-cases (selected l))
  where
    other : (j == k) ≡ false
    other = ground arith

    step :
        ((selected l ≡ true) ⊎ (selected l ≡ false))
        → get k (if selected l then drop_lock j s else s).projects ≡ get k s.projects
    step (inl hit) = rw hit (drop_lock-other j k s other)
    step (inr miss) = rw miss refl

sweep-other :
    (now : ℕ) (s : State) (k : Text)
    → get k s.project_locks ≡ none
    → get k (release_expired_project_locks now s).1.projects ≡ get k s.projects
unfolding release_expired_project_locks
sweep-other now s k absent =
    drop_each-other (λ lock. is_lock_expired lock now) s.project_locks 0 s k absent

shown_lock : (l : Lock) (o : Option Lock) → Shows o (some l) → has_visible_lock_diff o none ≡ true
unfolding has_visible_lock_diff
shown_lock l none h = absurd h
shown_lock l (some x) h = refl

dropped_by_reading :
    (now : ℕ) (k : Text) (l : Lock) (s : State)
    → get k s.project_locks ≡ some l
    → is_lock_expired l now ≡ true
    → (get_project_lock now k s).1 ≡ record s { project_locks = delete k s.project_locks }
unfolding get_project_lock
dropped_by_reading now k l s e old = rw (e, get_project_lock, old) refl

-- The state after a reading of the lock of `k`, and after a sweep that follows it.
abbrev pub swept_after_reading : ℕ → ℕ → Text → State → State
swept_after_reading now later k s =
    (release_expired_project_locks later (get_project_lock now k s).1).1

-- A reading that finds a lock expired, in a state that stores one lock for a project at most and
-- whose snapshots show the locks, leaves the snapshot of the project as it was, and so does a
-- sweep that follows, at any time: it shows a lock although none is stored.
pub get_project_lock-stale :
    (now later : ℕ) (k : Text) (l : Lock) (p : Project) (s : State)
    → UniqueKeys s.project_locks
    → IsMirror s
    → get k s.project_locks ≡ some l
    → is_lock_expired l now ≡ true
    → get k s.projects ≡ some p
    → (get k (swept_after_reading now later k s).project_locks ≡ none)
      × (get k (swept_after_reading now later k s).projects ≡ some p)
      × (has_visible_lock_diff p.project_lock none ≡ true)
get_project_lock-stale now later k l p s u m e old found =
    let t = record s { project_locks = delete k s.project_locks } in
    let gone : get k t.project_locks ≡ none = get-delete_self k s.project_locks in
    rw (dropped_by_reading now k l s e old, swept_after_reading)
      (
        rw (get-sweep later t k (delete-UniqueKeys k s.project_locks u), gone) refl,
        sweep-other later t k gone ∙ found,
        shown_lock l p.project_lock (rw e at (m k p found)),
      )
