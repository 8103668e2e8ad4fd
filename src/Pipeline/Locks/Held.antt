-- ===== src/Pipeline/Locks/Held.antt =====
-- projectLockRepository.ts: the lock that a caller holds after a call that succeeds.
use bbmcp.Prelude.{ℕ, ◌+◌, ◌≡◌, ◌≤◌, refl, Option, some, arith}
use bbmcp.Prelude.Text.{Text, ==_refl}
use bbmcp.Prelude.Number.{Number, finite_trunc, clamp_or_bounds}
use bbmcp.Prelude.Dict.{get}
use bbmcp.Pipeline.Model.{stamp, Timestamp, ok}
use bbmcp.Pipeline.State.{Lock, State}
use bbmcp.Pipeline.Locks.Owner.{normalize_owner_agent_id, normalize_owner_session_id}
use bbmcp.Pipeline.Locks.Frame.{get-store_lock}
use bbmcp.Pipeline.Locks.{
  LockTimes, LockInput, clamp_lock_ttl_ms, store_lock, build_active_lock, min_lock_ttl_ms,
  max_lock_ttl_ms,
}

-- Whatever the caller asks for, a lease lasts between five seconds and five minutes.
clamp_lock_ttl_ms_bounds :
    (ttl : Option Number)
    → (min_lock_ttl_ms ≤ clamp_lock_ttl_ms ttl) × (clamp_lock_ttl_ms ttl ≤ max_lock_ttl_ms)
unfolding clamp_lock_ttl_ms
clamp_lock_ttl_ms_bounds ttl =
    clamp_or_bounds (finite_trunc ttl) 30_000 5_000 300_000 (omega arith) (omega arith)

-- The caller holds the lock that the state stores for the project, for a bounded time.
pub record IsHeld (times : LockTimes) (input : LockInput) (lock : Lock) (s : State) : Type 0 where
  pub agent : Text
  pub named : normalize_owner_agent_id input.owner_agent_id ≡ ok agent
  pub owner : lock.owner_agent_id ≡ agent
  pub session : lock.owner_session_id ≡ normalize_owner_session_id input.owner_session_id
  pub beat : lock.heartbeat_at ≡ stamp times.built_at
  pub stored : get input.project_id s.project_locks ≡ some lock
  pub ttl : ℕ
  pub expires : lock.expires_at ≡ stamp (times.built_at + ttl)
  pub at_least : min_lock_ttl_ms ≤ ttl
  pub at_most : ttl ≤ max_lock_ttl_ms

module _ (times : LockTimes) (input : LockInput) where
  pub built_IsHeld :
      (agent token : Text) (acquired_at : Timestamp) (s : State)
      → normalize_owner_agent_id input.owner_agent_id ≡ ok agent
      → let lock =
          build_active_lock agent
            (normalize_owner_session_id input.owner_session_id)
            (clamp_lock_ttl_ms input.ttl_ms)
            times.built_at
            acquired_at
            token in
        IsHeld times input lock (store_lock input.project_id lock s)
  unfolding build_active_lock
  built_IsHeld agent token acquired_at s h =
      let bounds = clamp_lock_ttl_ms_bounds input.ttl_ms in
      record {
        agent = agent;
        named = h;
        owner = refl;
        session = refl;
        beat = refl;
        stored =
            rw (get-store_lock input.project_id input.project_id _ s, ==_refl input.project_id)
              refl;
        ttl = clamp_lock_ttl_ms input.ttl_ms;
        expires = refl;
        at_least = bounds.0;
        at_most = bounds.1;
      }
