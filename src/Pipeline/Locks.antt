-- ===== src/Pipeline/Locks.antt =====
-- packages/native-pipeline/src/projectLockRepository.ts. Each reading of the clock and each new
-- token is an argument; an operation that throws still leaves the state it has reached.
pub mod Owner
pub mod Frame
pub mod Calls
pub mod Exclusive
pub mod Unique
pub mod Release
pub mod Held
pub mod Outcomes
pub mod Mirror
pub mod Stale
use bbmcp.Prelude.{
  ℕ, ◌+◌, List, [], ◌∷◌, Bool, true, false, ◌&&◌, ◌||◌, not, Option, none, some, if◌then◌else◌, leb,
  is_some, take,
}
use bbmcp.Prelude.Text.{Text, ◌==◌, trim, is_empty}
use bbmcp.Prelude.Dict.{Dict, get, set, delete}
use bbmcp.Prelude.Number.{Number, finite_trunc, clamp_or}
use bbmcp.Pipeline.Model.{
  Timestamp, stamp, parse_date, Error, Result, ok, throw, owner_required, lock_conflict,
}
use bbmcp.Pipeline.State.{Lock, Project, State, clone_project}
use bbmcp.Pipeline.Events.{append_project_snapshot_event}
use Owner.{same_session, is_same_owner, normalize_owner_agent_id, normalize_owner_session_id}

abbrev pub default_lock_ttl_ms : ℕ
default_lock_ttl_ms = 30_000

abbrev pub min_lock_ttl_ms : ℕ
min_lock_ttl_ms = 5_000

abbrev pub max_lock_ttl_ms : ℕ
max_lock_ttl_ms = 300_000

unfoldable pub clamp_lock_ttl_ms : Option Number → ℕ
clamp_lock_ttl_ms value =
    clamp_or (finite_trunc value) default_lock_ttl_ms min_lock_ttl_ms max_lock_ttl_ms

-- A time that cannot be read counts as past.
unfoldable pub is_lock_expired : Lock → ℕ → Bool
is_lock_expired lock now = elim (parse_date lock.expires_at) [ none ↦ true | some t ↦ leb t now ]

unfoldable pub has_visible_lock_diff : Option Lock → Option Lock → Bool
unfolding same_session
has_visible_lock_diff none none = false
has_visible_lock_diff none (some next) = true
has_visible_lock_diff (some previous) none = true
has_visible_lock_diff (some previous) (some next) =
    not (previous.owner_agent_id == next.owner_agent_id)
    || not (same_session previous.owner_session_id next.owner_session_id)
    || not (previous.token == next.token)

-- The new snapshot with its revision, and its event.
abbrev pub show_lock : Project → Option Lock → Project
show_lock p next = record p { project_lock = next; revision = p.revision + 1 }

abbrev store_shown : State → Text → Project → State
store_shown s project_id p =
    append_project_snapshot_event (record s { projects = set project_id p s.projects })
      (clone_project p)

abbrev sync_found : State → Text → Option Lock → Option Project → State
sync_found s project_id next none = s
sync_found s project_id next (some p) =
    if has_visible_lock_diff p.project_lock next
    then store_shown s project_id (show_lock p next)
    else s

unfoldable pub sync_project_lock_snapshot : State → Text → Option Lock → State
sync_project_lock_snapshot s project_id next =
    sync_found s project_id next (get project_id s.projects)

-- `state.projectLocks.delete(id)`, or `set`, with the snapshot brought up to date.
unfoldable pub drop_lock : Text → State → State
drop_lock project_id s =
    sync_project_lock_snapshot (record s { project_locks = delete project_id s.project_locks })
      project_id none

unfoldable pub store_lock : Text → Lock → State → State
store_lock project_id lock s =
    sync_project_lock_snapshot (record s { project_locks = set project_id lock s.project_locks })
      project_id (some lock)

unfoldable pub build_active_lock : Text → Option Text → ℕ → ℕ → Timestamp → Text → Lock
build_active_lock agent session ttl now acquired_at token = record {
  owner_agent_id = agent;
  owner_session_id = session;
  token = token;
  acquired_at = acquired_at;
  heartbeat_at = stamp now;
  expires_at = stamp (now + ttl);
}

-- A loop over the entries that drops those that a test selects, and counts them.
unfoldable pub drop_each : (Lock → Bool) → Dict Lock → ℕ → State → ℕ × State
drop_each selected [] released s = (released, s)
drop_each selected ((project_id, lock) ∷ entries) released s =
    drop_each selected entries (if selected lock then released + 1 else released)
      (if selected lock then drop_lock project_id s else s)

unfoldable pub release_expired_project_locks : ℕ → State → ℕ × State
release_expired_project_locks now s =
    drop_each (λ lock. is_lock_expired lock now) s.project_locks 0 s

unfoldable pub get_project_lock : ℕ → Text → State → Option Lock × State
get_project_lock now project_id s = elim (get project_id s.project_locks) [
  | none ↦ (none, s)
  | some lock ↦
      if is_lock_expired lock now
      then (none, record s { project_locks = delete project_id s.project_locks })
      else (some lock, s)
]

pub record LockInput : Type 0 where
  pub project_id : Text
  pub owner_agent_id : Text
  pub owner_session_id : Option Text
  pub ttl_ms : Option Number

-- The readings of the clock in one call, in their order.
pub record LockTimes : Type 0 where
  pub swept_at : ℕ
  pub checked_at : ℕ
  pub built_at : ℕ

module _ (times : LockTimes) (token : Text) (input : LockInput) where
  acquire_new : Text → State → Result Lock × State
  acquire_new agent s =
      let lock =
        build_active_lock agent (normalize_owner_session_id input.owner_session_id)
          (clamp_lock_ttl_ms input.ttl_ms) times.built_at (stamp times.built_at) token in
      (ok lock, store_lock input.project_id lock s)

  -- The owner's lock with new times; its token and the time of its acquisition stay.
  pub renewed_lock : Text → Lock → Lock
  renewed_lock agent existing =
      build_active_lock agent (normalize_owner_session_id input.owner_session_id)
        (clamp_lock_ttl_ms input.ttl_ms) times.built_at existing.acquired_at existing.token

  acquire_existing : Text → Lock → State → Result Lock × State
  unfolding renewed_lock
  acquire_existing agent existing s =
      if is_same_owner existing agent (normalize_owner_session_id input.owner_session_id)
      then (
        ok (renewed_lock agent existing),
        store_lock input.project_id (renewed_lock agent existing) s,
      )
      else (
        throw (
            lock_conflict input.project_id existing.owner_agent_id existing.owner_session_id
              existing.expires_at),
        s,
      )

  acquire_as : Text → State → Result Lock × State
  unfolding acquire_new acquire_existing
  acquire_as agent s = elim (get input.project_id s.project_locks) [
    | none ↦ acquire_new agent s
    | some existing ↦
        if is_lock_expired existing times.checked_at
        then acquire_new agent s
        else acquire_existing agent existing s
  ]

  unfoldable pub acquire_project_lock : State → Result Lock × State
  unfolding acquire_as release_expired_project_locks
  acquire_project_lock s =
      let swept = (release_expired_project_locks times.swept_at s).1 in
      elim (normalize_owner_agent_id input.owner_agent_id) [
        | throw e ↦ (throw e, swept)
        | ok agent ↦ acquire_as agent swept
      ]

  renew_as : Text → State → Result (Option Lock) × State
  unfolding renewed_lock
  renew_as agent s = elim (get input.project_id s.project_locks) [
    | none ↦ (ok none, s)
    | some existing ↦
        if is_same_owner existing agent (normalize_owner_session_id input.owner_session_id)
        then (
          ok (some (renewed_lock agent existing)),
          store_lock input.project_id (renewed_lock agent existing) s,
        )
        else (ok none, s)
  ]

  unfoldable pub renew_project_lock : State → Result (Option Lock) × State
  unfolding renew_as release_expired_project_locks
  renew_project_lock s =
      let swept = (release_expired_project_locks times.swept_at s).1 in
      elim (normalize_owner_agent_id input.owner_agent_id) [
        | throw e ↦ (throw e, swept)
        | ok agent ↦ renew_as agent swept
      ]

module _ (now : ℕ) where
  release_as : Text → Text → Option Text → State → Result Bool × State
  release_as project_id agent session s = elim (get project_id s.project_locks) [
    | none ↦ (ok false, s)
    | some existing ↦
        if is_same_owner existing agent session
        then (ok true, drop_lock project_id s)
        else (ok false, s)
  ]

  unfoldable pub release_project_lock : LockInput → State → Result Bool × State
  unfolding release_as release_expired_project_locks
  release_project_lock input s =
      let swept = (release_expired_project_locks now s).1 in
      elim (normalize_owner_agent_id input.owner_agent_id) [
        | throw e ↦ (throw e, swept)
        | ok agent ↦
            release_as input.project_id agent (normalize_owner_session_id input.owner_session_id)
              swept
      ]

  -- The session is `none` where the caller leaves it out, and `some none` where it is `null`.
  abbrev pub is_owned_by : Text → Option (Option Text) → Lock → Bool
  is_owned_by agent none lock = lock.owner_agent_id == agent
  is_owned_by agent (some session) lock =
      lock.owner_agent_id == agent
      && same_session lock.owner_session_id (normalize_owner_session_id session)

  unfoldable pub release_project_locks_by_owner :
      Text → Option (Option Text) → State → Result ℕ × State
  unfolding release_expired_project_locks
  release_project_locks_by_owner owner_agent_id session s =
      let swept = (release_expired_project_locks now s).1 in
      elim (normalize_owner_agent_id owner_agent_id) [
        | throw e ↦ (throw e, swept)
        | ok agent ↦
            let (released, s') =
              drop_each (λ lock. is_owned_by agent session lock) swept.project_locks 0 swept in
            (ok released, s')
      ]
