-- ===== src/Pipeline/Locks/Calls.antt =====
-- projectLockRepository.ts: the calls of the lock service as one type, and when a call comes from
-- another owner than that of a lock.
use bbmcp.Prelude.{ℕ, ◌≡◌, Bool, false, Option}
use bbmcp.Prelude.Text.{Text}
use bbmcp.Pipeline.Model.{Result, ok, throw}
use bbmcp.Pipeline.State.{Lock, State}
use bbmcp.Pipeline.Locks.Owner.{is_same_owner, normalize_owner_agent_id, normalize_owner_session_id}
use bbmcp.Pipeline.Locks.{
  LockInput, LockTimes, is_lock_expired, acquire_project_lock, renew_project_lock,
  release_project_lock, release_project_locks_by_owner, release_expired_project_locks,
  get_project_lock, is_owned_by,
}

-- One call of the lock service.
pub data LockCall : Type 0 where
  acquires renews : LockTimes → Text → LockInput → LockCall
  releases : ℕ → LockInput → LockCall
  releases_by_owner : ℕ → Text → Option (Option Text) → LockCall
  sweeps : ℕ → LockCall
  reads : ℕ → Text → LockCall

unfoldable pub call_lock : LockCall → State → State
call_lock (acquires times token input) s = (acquire_project_lock times token input s).1
call_lock (renews times token input) s = (renew_project_lock times token input s).1
call_lock (releases now input) s = (release_project_lock now input s).1
call_lock (releases_by_owner now agent session) s =
    (release_project_locks_by_owner now agent session s).1
call_lock (sweeps now) s = (release_expired_project_locks now s).1
call_lock (reads now project_id) s = (get_project_lock now project_id s).1

-- The lock is not expired at any time that the call reads.
abbrev pub Unexpired : Lock → LockCall → Type 0
Unexpired l (acquires times token input) =
    (is_lock_expired l times.swept_at ≡ false) × (is_lock_expired l times.checked_at ≡ false)
Unexpired l (renews times token input) = is_lock_expired l times.swept_at ≡ false
Unexpired l (releases now input) = is_lock_expired l now ≡ false
Unexpired l (releases_by_owner now agent session) = is_lock_expired l now ≡ false
Unexpired l (sweeps now) = is_lock_expired l now ≡ false
Unexpired l (reads now project_id) = is_lock_expired l now ≡ false

-- The caller's name, once it is normalised, differs from the lock's owner.
abbrev pub OtherOwner : Lock → Result Text → (Text → Bool) → Type 0
OtherOwner l (throw e) same = Unit
OtherOwner l (ok agent) same = same agent ≡ false

abbrev pub Foreign : Lock → LockCall → Type 0
Foreign l (acquires times token input) =
    OtherOwner l (normalize_owner_agent_id input.owner_agent_id)
      (λ agent. is_same_owner l agent (normalize_owner_session_id input.owner_session_id))
Foreign l (renews times token input) =
    OtherOwner l (normalize_owner_agent_id input.owner_agent_id)
      (λ agent. is_same_owner l agent (normalize_owner_session_id input.owner_session_id))
Foreign l (releases now input) =
    OtherOwner l (normalize_owner_agent_id input.owner_agent_id)
      (λ agent. is_same_owner l agent (normalize_owner_session_id input.owner_session_id))
Foreign l (releases_by_owner now agent session) =
    OtherOwner l (normalize_owner_agent_id agent) (λ a. is_owned_by now a session l)
Foreign l (sweeps now) = Unit
Foreign l (reads now project_id) = Unit
