-- ===== src/Pipeline/Locks/Exclusive.antt =====
-- projectLockRepository.ts: a lock that has not expired, and one call by another owner.
use bbmcp.Prelude.{ℕ, ◌≡◌, refl, inl, inr, false, Option, some, arith, Bool-cases, Option-cases}
use bbmcp.Prelude.Text.{Text, ◌==◌, ==_iff, eq_of_==}
use bbmcp.Prelude.Dict.{get, get-delete, UniqueKeys}
use bbmcp.Pipeline.Model.{Result, ok, throw}
use bbmcp.Pipeline.State.{Lock, State}
use bbmcp.Pipeline.Locks.Owner.{is_same_owner, normalize_owner_agent_id, normalize_owner_session_id}
use bbmcp.Pipeline.Locks.Frame.{
  get-store_lock, get-drop_lock, get-sweep, sweep-UniqueKeys, get-drop_all,
}
use bbmcp.Pipeline.Locks.Calls.{
  LockCall, acquires, renews, releases, releases_by_owner, sweeps, reads, call_lock, Unexpired,
  OtherOwner, Foreign,
}
use bbmcp.Pipeline.Locks.{
  LockInput, LockTimes, is_lock_expired, acquire_new, acquire_existing, acquire_as,
  acquire_project_lock, renew_as, renewed_lock, renew_project_lock, release_as,
  release_project_lock, release_project_locks_by_owner, release_expired_project_locks,
  get_project_lock, is_owned_by, drop_lock, store_lock,
}

module _ (j : Text) (l : Lock) where
  sweep_keeps :
      (now : ℕ) (s : State)
      → UniqueKeys s.project_locks
      → get j s.project_locks ≡ some l
      → is_lock_expired l now ≡ false
      → get j (release_expired_project_locks now s).1.project_locks ≡ some l
  sweep_keeps now s u e h = ground (arith, get-sweep now s j u)

  store_other :
      (k : Text) (lock : Lock) (s : State)
      → (k == j) ≡ false
      → get j s.project_locks ≡ some l
      → get j (store_lock k lock s).project_locks ≡ some l
  store_other k lock s other e = ground (arith, get-store_lock k j lock s)

  drop_other :
      (k : Text) (s : State)
      → (k == j) ≡ false
      → get j s.project_locks ≡ some l
      → get j (drop_lock k s).project_locks ≡ some l
  drop_other k s other e = ground (arith, get-drop_lock k j s)

  acquire_as_keeps :
      (times : LockTimes) (token : Text) (input : LockInput) (agent : Text) (s : State)
      → get j s.project_locks ≡ some l
      → is_lock_expired l times.checked_at ≡ false
      → is_same_owner l agent (normalize_owner_session_id input.owner_session_id) ≡ false
      → get j (acquire_as times token input agent s).1.project_locks ≡ some l
  unfolding acquire_as acquire_new acquire_existing
  acquire_as_keeps times token input agent s e live other =
      elim (Bool-cases (input.project_id == j)) [
        | inl same ↦ rw (eq_of_== _ _ same, e, acquire_as, live, other) (ground arith)
        | inr differ ↦ elim (Option-cases (get input.project_id s.project_locks)) [
          | inl absent ↦ rw (absent, acquire_as) (store_other _ _ s differ e)
          | inr (x, found) ↦ elim (Bool-cases (is_lock_expired x times.checked_at)) [
            | inl old ↦ rw (found, acquire_as, old) (store_other _ _ s differ e)
            | inr fresh ↦
                rw (found, acquire_as, fresh)
                  (ground (
                    arith,
                    store_other input.project_id (renewed_lock times token input agent x) s differ
                        e,
                  ))
          ]
        ]
      ]

  renew_as_keeps :
      (times : LockTimes) (token : Text) (input : LockInput) (agent : Text) (s : State)
      → get j s.project_locks ≡ some l
      → is_same_owner l agent (normalize_owner_session_id input.owner_session_id) ≡ false
      → get j (renew_as times token input agent s).1.project_locks ≡ some l
  unfolding renew_as
  renew_as_keeps times token input agent s e other = elim (Bool-cases (input.project_id == j)) [
    | inl same ↦ rw (eq_of_== _ _ same, e, renew_as, other) e
    | inr differ ↦ elim (Option-cases (get input.project_id s.project_locks)) [
      | inl absent ↦ rw (absent, renew_as) e
      | inr (x, found) ↦
          rw (found, renew_as)
            (ground (
              arith,
              store_other input.project_id (renewed_lock times token input agent x) s differ e,
            ))
    ]
  ]

  release_as_keeps :
      (now : ℕ) (k agent : Text) (session : Option Text) (s : State)
      → get j s.project_locks ≡ some l
      → is_same_owner l agent session ≡ false
      → get j (release_as now k agent session s).1.project_locks ≡ some l
  unfolding release_as
  release_as_keeps now k agent session s e other = elim (Bool-cases (k == j)) [
    | inl same ↦ rw (eq_of_== _ _ same, e, release_as, other) e
    | inr differ ↦ elim (Option-cases (get k s.project_locks)) [
      | inl absent ↦ rw (absent, release_as) e
      | inr (x, found) ↦ rw (found, release_as) (ground (arith, drop_other k s differ e))
    ]
  ]

  reads_keeps :
      (now : ℕ) (k : Text) (s : State)
      → get j s.project_locks ≡ some l
      → is_lock_expired l now ≡ false
      → get j (get_project_lock now k s).1.project_locks ≡ some l
  unfolding get_project_lock
  reads_keeps now k s e live = elim (Option-cases (get k s.project_locks)) [
    | inl absent ↦ rw (absent, get_project_lock) e
    | inr (x, found) ↦
        rw (found, get_project_lock) (ground (arith, ==_iff k j, get-delete k j s.project_locks))
  ]

  -- Whoever calls the lock service, and whatever for: a lock stays as it is, token and times
  -- included, through a call of another owner that reads no time at which it is expired.
  pub call_lock-keeps :
      (call : LockCall) (s : State)
      → UniqueKeys s.project_locks
      → get j s.project_locks ≡ some l
      → Unexpired l call
      → Foreign l call
      → get j (call_lock call s).project_locks ≡ some l
  unfolding call_lock acquire_project_lock renew_project_lock release_project_lock
      release_project_locks_by_owner
  call_lock-keeps (acquires times token input) s u e live other = go _ refl other
    where
      swept : State
      swept = (release_expired_project_locks times.swept_at s).1

      go :
          (owner : Result Text)
          → normalize_owner_agent_id input.owner_agent_id ≡ owner
          → OtherOwner l owner
              (λ agent. is_same_owner l agent (normalize_owner_session_id input.owner_session_id))
          → get j (acquire_project_lock times token input s).1.project_locks ≡ some l
      go (throw x) h o = rw (h, acquire_project_lock) (sweep_keeps times.swept_at s u e live.0)
      go (ok agent) h o =
          rw (h, acquire_project_lock)
            (acquire_as_keeps times token input agent swept
              (sweep_keeps times.swept_at s u e live.0) live.1 o)
  call_lock-keeps (renews times token input) s u e live other = go _ refl other
    where
      swept : State
      swept = (release_expired_project_locks times.swept_at s).1

      go :
          (owner : Result Text)
          → normalize_owner_agent_id input.owner_agent_id ≡ owner
          → OtherOwner l owner
              (λ agent. is_same_owner l agent (normalize_owner_session_id input.owner_session_id))
          → get j (renew_project_lock times token input s).1.project_locks ≡ some l
      go (throw x) h o = rw (h, renew_project_lock) (sweep_keeps times.swept_at s u e live)
      go (ok agent) h o =
          rw (h, renew_project_lock)
            (renew_as_keeps times token input agent swept (sweep_keeps times.swept_at s u e live) o)
  call_lock-keeps (releases now input) s u e live other = go _ refl other
    where
      go :
          (owner : Result Text)
          → normalize_owner_agent_id input.owner_agent_id ≡ owner
          → OtherOwner l owner
              (λ agent. is_same_owner l agent (normalize_owner_session_id input.owner_session_id))
          → get j (release_project_lock now input s).1.project_locks ≡ some l
      go (throw x) h o = rw (h, release_project_lock) (sweep_keeps now s u e live)
      go (ok agent) h o =
          rw (h, release_project_lock)
            (release_as_keeps now input.project_id agent _ _ (sweep_keeps now s u e live) o)
  call_lock-keeps (releases_by_owner now name session) s u e live other = go _ refl other
    where
      swept : State
      swept = (release_expired_project_locks now s).1

      go :
          (owner : Result Text)
          → normalize_owner_agent_id name ≡ owner
          → OtherOwner l owner (λ agent. is_owned_by now agent session l)
          → get j (release_project_locks_by_owner now name session s).1.project_locks ≡ some l
      go (throw x) h o = rw (h, release_project_locks_by_owner) (sweep_keeps now s u e live)
      go (ok agent) h o =
          rw (h, release_project_locks_by_owner)
            (ground (
              arith,
              sweep_keeps now s u e live,
              get-drop_all (λ lock. is_owned_by now agent session lock) 0 swept j
                  (sweep-UniqueKeys now s u),
            ))
  call_lock-keeps (sweeps now) s u e live other = sweep_keeps now s u e live
  call_lock-keeps (reads now k) s u e live other = reads_keeps now k s e live
