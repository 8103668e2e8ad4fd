-- ===== src/Pipeline/Locks/Mirror.antt =====
-- projectLockRepository.ts: what the snapshots of the projects show of the locks.
use bbmcp.Prelude.{
  ℕ, ◌≡◌, refl, sym, ◌⊎◌, inl, inr, ◌∙◌, Bool, true, false, [], ◌∷◌, Option, none, some,
  if◌then◌else◌, arith, Bool-cases, Option-cases,
}
use bbmcp.Prelude.Text.{Text, ◌==◌, ==_iff, eq_of_==}
use bbmcp.Prelude.Dict.{
  Dict, get, set, delete, get-set, get-delete, get-set_self, get-set_other, get-delete_self,
}
use bbmcp.Pipeline.Model.{ok}
use bbmcp.Pipeline.State.{Lock, Project, State}
use bbmcp.Pipeline.State.Throwing.{or_throw}
use bbmcp.Pipeline.Events.{append_project_snapshot_event}
use bbmcp.Pipeline.Locks.Owner.Sessions.{eq_of_same_session}
use bbmcp.Pipeline.Locks.Owner.{is_same_owner, normalize_owner_session_id, normalize_owner_agent_id}
use bbmcp.Pipeline.Locks.Calls.{
  LockCall, acquires, renews, releases, releases_by_owner, sweeps, reads, call_lock,
}
use bbmcp.Pipeline.Locks.{
  LockTimes, LockInput, show_lock, has_visible_lock_diff, sync_found, sync_project_lock_snapshot,
  drop_lock, store_lock, drop_each, is_lock_expired, release_expired_project_locks, acquire_new,
  acquire_existing, acquire_as, acquire_project_lock, renew_as, renew_project_lock, release_as,
  release_project_lock, is_owned_by, release_project_locks_by_owner, get_project_lock,
}

-- What is shown is a lock with the owner, the session and the token of the one that is stored, or
-- there is none of either.
abbrev pub Shows : Option Lock → Option Lock → Type 0
Shows none none = Unit
Shows (some shown) (some lock) =
    (shown.owner_agent_id ≡ lock.owner_agent_id)
    × (shown.owner_session_id ≡ lock.owner_session_id)
    × (shown.token ≡ lock.token)
Shows _ _ = ⊥

-- Each snapshot shows the owner and the token of the lock that is stored for its project, or none.
abbrev pub IsMirror : State → Type 0
IsMirror s =
    (k : Text) (p : Project)
    → get k s.projects ≡ some p
    → Shows p.project_lock (get k s.project_locks)

abbrev IsMirrorBut : Text → State → Type 0
IsMirrorBut id s =
    (k : Text) (p : Project)
    → get k s.projects ≡ some p
    → (id == k) ≡ false
    → Shows p.project_lock (get k s.project_locks)

Shows-refl : (o : Option Lock) → Shows o o
Shows-refl none = tt
Shows-refl (some l) = (refl, refl, refl)

-- The code's comparison finds no difference only where what is shown is what is stored.
no_diff-Shows :
    (shown lock : Option Lock) → has_visible_lock_diff shown lock ≡ false → Shows shown lock
unfolding has_visible_lock_diff
no_diff-Shows none none h = tt
no_diff-Shows none (some l) h = cc
no_diff-Shows (some x) none h = cc
no_diff-Shows (some x) (some l) h = (
  ground (arith, ==_iff x.owner_agent_id l.owner_agent_id),
  eq_of_same_session x.owner_session_id l.owner_session_id (ground arith),
  ground (arith, ==_iff x.token l.token),
)

sync_found-IsMirror :
    (s : State) (id : Text) (next : Option Lock) (o : Option Project)
    → get id s.projects ≡ o
    → get id s.project_locks ≡ next
    → IsMirrorBut id s
    → IsMirror (sync_found s id next o)
unfolding append_project_snapshot_event
sync_found-IsMirror s id next none e same others k p found = elim (Bool-cases (id == k)) [
  | inl hit ↦ let key : id ≡ k = eq_of_== id k hit in cc
  | inr miss ↦ others k p found miss
]
sync_found-IsMirror s id next (some x) e same others k p found =
    elim (Bool-cases (has_visible_lock_diff x.project_lock next)) [
      | inl diff ↦ rw diff (shown (rw diff at found))
      | inr level ↦ rw level (left_alone level (rw level at found))
    ]
  where
    shown :
        get k (set id (show_lock x next) s.projects) ≡ some p
        → Shows p.project_lock (get k s.project_locks)
    shown stored = elim (Bool-cases (id == k)) [
      | inl hit ↦
          let key : id ≡ k = eq_of_== id k hit in
          let new : some (show_lock x next) ≡ some p =
            sym (get-set_self id (show_lock x next) s.projects) ∙ rw (← key) at stored in
          let lock : p.project_lock ≡ next = cc in rw (← key, same, lock) (Shows-refl next)
      | inr miss ↦
          others k p (sym (get-set_other id k (show_lock x next) s.projects miss) ∙ stored) miss
    ]

    left_alone :
        has_visible_lock_diff x.project_lock next ≡ false
        → get k s.projects ≡ some p
        → Shows p.project_lock (get k s.project_locks)
    left_alone level stored = elim (Bool-cases (id == k)) [
      | inl hit ↦
          let key : id ≡ k = eq_of_== id k hit in
          let here : get id s.projects ≡ some p = rw (← key) at stored in
          let twin : x ≡ p = cc in
          rw (← key, same, ← twin) (no_diff-Shows x.project_lock next level)
      | inr miss ↦ others k p stored miss
    ]

drop_lock-IsMirror : (id : Text) (s : State) → IsMirror s → IsMirror (drop_lock id s)
unfolding drop_lock sync_project_lock_snapshot
drop_lock-IsMirror id s m =
    sync_found-IsMirror (record s { project_locks = delete id s.project_locks }) id none
      (get id s.projects) refl (get-delete_self id s.project_locks)
      (λ k p e miss. rw (get-delete id k s.project_locks, miss) (m k p e))

store_lock-IsMirror :
    (id : Text) (lock : Lock) (s : State) → IsMirror s → IsMirror (store_lock id lock s)
unfolding store_lock sync_project_lock_snapshot
store_lock-IsMirror id lock s m =
    sync_found-IsMirror (record s { project_locks = set id lock s.project_locks }) id (some lock)
      (get id s.projects) refl (get-set_self id lock s.project_locks)
      (λ k p e miss. rw (get-set id k lock s.project_locks, miss) (m k p e))

drop_each-IsMirror :
    (selected : Lock → Bool) (entries : Dict Lock) (n : ℕ) (s : State)
    → IsMirror s
    → IsMirror (drop_each selected entries n s).1
unfolding drop_each
drop_each-IsMirror selected [] n s m = m
drop_each-IsMirror selected ((k, l) ∷ rest) n s m =
    drop_each-IsMirror selected rest _ _ (kept (Bool-cases (selected l)))
  where
    kept :
        ((selected l ≡ true) ⊎ (selected l ≡ false))
        → IsMirror (if selected l then drop_lock k s else s)
    kept (inl hit) = rw hit (drop_lock-IsMirror k s m)
    kept (inr miss) = rw miss m

sweep-IsMirror :
    (now : ℕ) (s : State) → IsMirror s → IsMirror (release_expired_project_locks now s).1
unfolding release_expired_project_locks
sweep-IsMirror now s m = drop_each-IsMirror (λ lock. is_lock_expired lock now) s.project_locks 0 s m

module _ (times : LockTimes) (token : Text) (input : LockInput) (agent : Text) (s : State) where
  acquire_as-IsMirror : IsMirror s → IsMirror (acquire_as times token input agent s).1
  unfolding acquire_as acquire_new acquire_existing
  acquire_as-IsMirror m = elim (Option-cases (get input.project_id s.project_locks)) [
    | inl absent ↦ rw (absent, acquire_as) (store_lock-IsMirror _ _ s m)
    | inr (x, found) ↦ elim (Bool-cases (is_lock_expired x times.checked_at)) [
      | inl old ↦ rw (found, acquire_as, old) (store_lock-IsMirror _ _ s m)
      | inr fresh ↦
          elim (Bool-cases
            (is_same_owner x agent (normalize_owner_session_id input.owner_session_id))) [
              | inl same ↦ rw (found, acquire_as, fresh, same) (store_lock-IsMirror _ _ s m)
              | inr other ↦ rw (found, acquire_as, fresh, other) m
            ]
    ]
  ]

  renew_as-IsMirror : IsMirror s → IsMirror (renew_as times token input agent s).1
  unfolding renew_as
  renew_as-IsMirror m = elim (Option-cases (get input.project_id s.project_locks)) [
    | inl absent ↦ rw (absent, renew_as) m
    | inr (x, found) ↦
        elim (Bool-cases
          (is_same_owner x agent (normalize_owner_session_id input.owner_session_id))) [
            | inl same ↦ rw (found, renew_as, same) (store_lock-IsMirror _ _ s m)
            | inr other ↦ rw (found, renew_as, other) m
          ]
  ]

release_as-IsMirror :
    (now : ℕ) (k agent : Text) (session : Option Text) (s : State)
    → IsMirror s
    → IsMirror (release_as now k agent session s).1
unfolding release_as
release_as-IsMirror now k agent session s m = elim (Option-cases (get k s.project_locks)) [
  | inl absent ↦ rw (absent, release_as) m
  | inr (x, found) ↦ elim (Bool-cases (is_same_owner x agent session)) [
    | inl same ↦ rw (found, release_as, same) (drop_lock-IsMirror k s m)
    | inr other ↦ rw (found, release_as, other) m
  ]
]

-- A reading of a lock that finds none expired. (One that does drops it without the snapshot.)
abbrev pub ReadsAlive : LockCall → State → Type 0
ReadsAlive (reads now k) s =
    (l : Lock) → get k s.project_locks ≡ some l → is_lock_expired l now ≡ false
ReadsAlive _ s = Unit

reads-IsMirror :
    (now : ℕ) (k : Text) (s : State)
    → IsMirror s
    → ReadsAlive (reads now k) s
    → IsMirror (get_project_lock now k s).1
unfolding get_project_lock
reads-IsMirror now k s m alive = elim (Option-cases (get k s.project_locks)) [
  | inl absent ↦ rw (absent, get_project_lock) m
  | inr (x, found) ↦ rw (found, get_project_lock, alive x found) m
]

-- Where the snapshots show the locks, by owner, session and token, they go on showing them through
-- every call of the lock service, but for a reading that finds the lock expired.
pub call_lock-IsMirror :
    (call : LockCall) (s : State) → IsMirror s → ReadsAlive call s → IsMirror (call_lock call s)
unfolding call_lock acquire_project_lock renew_project_lock release_project_lock
    release_project_locks_by_owner
call_lock-IsMirror (acquires times token input) s m alive =
    let swept = (release_expired_project_locks times.swept_at s).1 in
    let kept = sweep-IsMirror times.swept_at s m in
    or_throw IsMirror (normalize_owner_agent_id input.owner_agent_id) swept
      (λ agent. acquire_as times token input agent swept) kept
      (λ agent. acquire_as-IsMirror times token input agent swept kept)
call_lock-IsMirror (renews times token input) s m alive =
    let swept = (release_expired_project_locks times.swept_at s).1 in
    let kept = sweep-IsMirror times.swept_at s m in
    or_throw IsMirror (normalize_owner_agent_id input.owner_agent_id) swept
      (λ agent. renew_as times token input agent swept) kept
      (λ agent. renew_as-IsMirror times token input agent swept kept)
call_lock-IsMirror (releases now input) s m alive =
    let swept = (release_expired_project_locks now s).1 in
    let kept = sweep-IsMirror now s m in
    or_throw IsMirror (normalize_owner_agent_id input.owner_agent_id) swept
      (λ agent. release_as now input.project_id agent _ swept) kept
      (λ agent. release_as-IsMirror now input.project_id agent _ swept kept)
call_lock-IsMirror (releases_by_owner now name session) s m alive =
    let swept = (release_expired_project_locks now s).1 in
    let kept = sweep-IsMirror now s m in
    or_throw IsMirror (normalize_owner_agent_id name) swept
      (λ agent.
        let (released, s') =
          drop_each (λ lock. is_owned_by now agent session lock) swept.project_locks 0 swept in
        (ok released, s'))
      kept (λ agent. drop_each-IsMirror _ swept.project_locks 0 swept kept)
call_lock-IsMirror (sweeps now) s m alive = sweep-IsMirror now s m
call_lock-IsMirror (reads now k) s m alive = reads-IsMirror now k s m alive
