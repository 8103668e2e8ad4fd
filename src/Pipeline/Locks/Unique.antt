-- ===== src/Pipeline/Locks/Unique.antt =====
-- projectLockRepository.ts: one lock to a project, and a lock through sequences of calls by others.
use bbmcp.Prelude.{
  ℕ, ◌≡◌, inl, inr, List, [], ◌∷◌, Option, some, arith, Bool-cases, Option-cases, All,
}
use bbmcp.Prelude.Text.{Text}
use bbmcp.Prelude.Dict.{get, UniqueKeys, set-UniqueKeys, delete-UniqueKeys}
use bbmcp.Pipeline.Model.{ok}
use bbmcp.Pipeline.State.{Lock, State}
use bbmcp.Pipeline.State.Throwing.{or_throw}
use bbmcp.Pipeline.Locks.Owner.{normalize_owner_agent_id}
use bbmcp.Pipeline.Locks.Frame.{
  drop_lock-locks, store_lock-locks, sweep-UniqueKeys, drop_each-UniqueKeys,
}
use bbmcp.Pipeline.Locks.Calls.{
  LockCall, acquires, renews, releases, releases_by_owner, sweeps, reads, call_lock, Unexpired,
  Foreign,
}
use bbmcp.Pipeline.Locks.Exclusive.{call_lock-keeps}
use bbmcp.Pipeline.Locks.{
  LockTimes, LockInput, is_lock_expired, acquire_new, acquire_existing, acquire_as,
  acquire_project_lock, renew_as, renewed_lock, renew_project_lock, release_as,
  release_project_lock, release_project_locks_by_owner, release_expired_project_locks,
  get_project_lock, is_owned_by, drop_lock, store_lock, drop_each,
}

abbrev pub OneLock : State → Type 0
OneLock s = UniqueKeys s.project_locks

store_lock-OneLock :
    (k : Text) (lock : Lock) (s : State) → OneLock s → OneLock (store_lock k lock s)
store_lock-OneLock k lock s u = rw (store_lock-locks k lock s) (set-UniqueKeys k lock _ u)

drop_lock-OneLock : (k : Text) (s : State) → OneLock s → OneLock (drop_lock k s)
drop_lock-OneLock k s u = rw (drop_lock-locks k s) (delete-UniqueKeys k _ u)

module _ (times : LockTimes) (token : Text) (input : LockInput) (agent : Text) (s : State) where
  acquire_as-OneLock : OneLock s → OneLock (acquire_as times token input agent s).1
  unfolding acquire_as acquire_new acquire_existing
  acquire_as-OneLock u = elim (Option-cases (get input.project_id s.project_locks)) [
    | inl absent ↦ rw (absent, acquire_as) (store_lock-OneLock _ _ s u)
    | inr (x, found) ↦ elim (Bool-cases (is_lock_expired x times.checked_at)) [
      | inl old ↦ rw (found, acquire_as, old) (store_lock-OneLock _ _ s u)
      | inr fresh ↦
          rw (found, acquire_as, fresh)
            (ground (
              arith,
              store_lock-OneLock input.project_id (renewed_lock times token input agent x) s u,
            ))
    ]
  ]

  renew_as-OneLock : OneLock s → OneLock (renew_as times token input agent s).1
  unfolding renew_as
  renew_as-OneLock u = elim (Option-cases (get input.project_id s.project_locks)) [
    | inl absent ↦ rw (absent, renew_as) u
    | inr (x, found) ↦
        rw (found, renew_as)
          (ground (
            arith,
            store_lock-OneLock input.project_id (renewed_lock times token input agent x) s u,
          ))
  ]

release_as-OneLock :
    (now : ℕ) (k agent : Text) (session : Option Text) (s : State)
    → OneLock s
    → OneLock (release_as now k agent session s).1
unfolding release_as
release_as-OneLock now k agent session s u = ground (arith, drop_lock-OneLock k s u)

get_project_lock-OneLock :
    (now : ℕ) (k : Text) (s : State) → OneLock s → OneLock (get_project_lock now k s).1
unfolding get_project_lock
get_project_lock-OneLock now k s u = ground (arith, delete-UniqueKeys k s.project_locks u)

pub call_lock-OneLock : (call : LockCall) (s : State) → OneLock s → OneLock (call_lock call s)
unfolding call_lock acquire_project_lock renew_project_lock release_project_lock
    release_project_locks_by_owner
call_lock-OneLock (acquires times token input) s u =
    let swept = (release_expired_project_locks times.swept_at s).1 in
    or_throw OneLock (normalize_owner_agent_id input.owner_agent_id) swept
      (λ agent. acquire_as times token input agent swept) (sweep-UniqueKeys times.swept_at s u)
      (λ agent.
        acquire_as-OneLock times token input agent swept (sweep-UniqueKeys times.swept_at s u))
call_lock-OneLock (renews times token input) s u =
    let swept = (release_expired_project_locks times.swept_at s).1 in
    or_throw OneLock (normalize_owner_agent_id input.owner_agent_id) swept
      (λ agent. renew_as times token input agent swept) (sweep-UniqueKeys times.swept_at s u)
      (λ agent.
        renew_as-OneLock times token input agent swept (sweep-UniqueKeys times.swept_at s u))
call_lock-OneLock (releases now input) s u =
    let swept = (release_expired_project_locks now s).1 in
    or_throw OneLock (normalize_owner_agent_id input.owner_agent_id) swept
      (λ agent. release_as now input.project_id agent _ swept) (sweep-UniqueKeys now s u)
      (λ agent. release_as-OneLock now input.project_id agent _ swept (sweep-UniqueKeys now s u))
call_lock-OneLock (releases_by_owner now name session) s u =
    let swept = (release_expired_project_locks now s).1 in
    or_throw OneLock (normalize_owner_agent_id name) swept
      (λ agent.
        let (released, s') =
          drop_each (λ lock. is_owned_by now agent session lock) swept.project_locks 0 swept in
        (ok released, s'))
      (sweep-UniqueKeys now s u)
      (λ agent. drop_each-UniqueKeys _ swept.project_locks 0 swept (sweep-UniqueKeys now s u))
call_lock-OneLock (sweeps now) s u = sweep-UniqueKeys now s u
call_lock-OneLock (reads now k) s u = get_project_lock-OneLock now k s u

unfoldable pub call_locks : List LockCall → State → State
call_locks [] s = s
call_locks (call ∷ calls) s = call_locks calls (call_lock call s)

-- In a state that stores one lock for a project at most, a lock outlives every sequence of calls
-- by other owners in which no reading of the clock reaches its expiry: the same lock, with its
-- owner, token and times, is still stored.
pub call_locks-keeps :
    (j : Text) (l : Lock) (calls : List LockCall) (s : State)
    → OneLock s
    → get j s.project_locks ≡ some l
    → All (Unexpired l) calls
    → All (Foreign l) calls
    → get j (call_locks calls s).project_locks ≡ some l
unfolding call_locks
call_locks-keeps j l [] s u e live other = e
call_locks-keeps j l (call ∷ calls) s u e (live, lives) (other, others) =
    call_locks-keeps j l calls (call_lock call s) (call_lock-OneLock call s u)
      (call_lock-keeps j l call s u e live other) lives others
