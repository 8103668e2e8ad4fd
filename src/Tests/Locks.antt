-- ===== src/Tests/Locks.antt =====
-- The lock service on the locked chair.
use bbmcp.Prelude.{◌≡◌, refl, inl, inr, true, [], ◌∷◌, none, some, arith, Bool-cases}
use bbmcp.Prelude.Text.{text, ◌==◌, trim}
use bbmcp.Prelude.Dict.{get}
use bbmcp.Pipeline.Model.{throw, lock_conflict, stamp}
use bbmcp.Pipeline.Locks.Owner.{normalize_owner_agent_id, is_same_owner}
use bbmcp.Pipeline.Locks.Calls.{acquires, sweeps, releases, reads, call_lock}
use bbmcp.Pipeline.Locks.Unique.{call_locks, call_locks-keeps}
use bbmcp.Pipeline.Locks.Outcomes.{
  Acquired, acquire_project_lock-Acquired, Renewed, renew_project_lock-Renewed,
}
use bbmcp.Pipeline.Locks.Release.{Released, release_project_lock-Released}
use bbmcp.Pipeline.Locks.Mirror.{IsMirror, call_lock-IsMirror}
use bbmcp.Pipeline.Locks.Stale.{swept_after_reading, get_project_lock-stale}
use bbmcp.Pipeline.Locks.{
  is_lock_expired, has_visible_lock_diff, acquire_project_lock, renew_project_lock,
  release_project_lock, drop_each,
}
use bbmcp.Tests.Data.{chair, alice_lock, chair_project, locked, asks, at_time}

-- Bob is refused while alice's lock is alive.
bob_refused :
    (acquire_project_lock (at_time 100) (text "t2") (asks (text "bob")) locked).0
    ≡ throw (lock_conflict chair (text "alice") none (stamp 30_000))
unfolding acquire_project_lock normalize_owner_agent_id trim is_same_owner ◌==◌ get is_lock_expired
    drop_each
bob_refused = refl

call_locks-keeps_example :
    get chair
      (call_locks
        (acquires (at_time 100) (text "t2") (asks (text "bob"))
          ∷ sweeps 200
          ∷ releases 300 (asks (text " mallory "))
          ∷ reads 400 chair
          ∷ [])
        locked).project_locks
    ≡ some alice_lock
unfolding normalize_owner_agent_id trim is_same_owner ◌==◌ get is_lock_expired
call_locks-keeps_example =
    call_locks-keeps chair alice_lock
      (acquires (at_time 100) (text "t2") (asks (text "bob"))
        ∷ sweeps 200
        ∷ releases 300 (asks (text " mallory "))
        ∷ reads 400 chair
        ∷ [])
      locked (refl, tt) refl ((refl, refl), (refl, (refl, (refl, tt))))
      (refl, (tt, (refl, (tt, tt))))

acquire_project_lock-Acquired_example :
    Acquired
      (at_time 40_000)
      (asks (text "bob"))
      (text "t2")
      locked
      (acquire_project_lock (at_time 40_000) (text "t2") (asks (text "bob")) locked)
unfolding get
acquire_project_lock-Acquired_example =
    acquire_project_lock-Acquired (at_time 40_000) (asks (text "bob")) (text "t2") locked (refl, tt)

renew_project_lock-Renewed_example :
    Renewed
      (at_time 100)
      (asks (text "alice"))
      locked
      (renew_project_lock (at_time 100) (text "t2") (asks (text "alice")) locked)
unfolding get
renew_project_lock-Renewed_example =
    renew_project_lock-Renewed (at_time 100) (asks (text "alice")) (text "t2") locked (refl, tt)

release_project_lock-Released_example :
    Released
      (asks (text "alice"))
      100
      locked
      (release_project_lock 100 (asks (text "alice")) locked)
unfolding get
release_project_lock-Released_example =
    release_project_lock-Released (asks (text "alice")) 100 locked (refl, tt)

locked-IsMirror : IsMirror locked
unfolding get ◌==◌
locked-IsMirror k p e = elim (Bool-cases (chair == k)) [
  | inl hit ↦
      let same : chair_project (some alice_lock) ≡ p = ground arith in
      rw (← same, hit) (refl, refl, refl)
  | inr miss ↦ absurd (ground arith)
]

call_lock-IsMirror_example :
    IsMirror (call_lock (acquires (at_time 40_000) (text "t2") (asks (text "bob"))) locked)
call_lock-IsMirror_example =
    call_lock-IsMirror (acquires (at_time 40_000) (text "t2") (asks (text "bob"))) locked
      locked-IsMirror tt

get_project_lock-stale_example :
    (get chair (swept_after_reading 30_000 60_000 chair locked).project_locks ≡ none)
    × (get chair (swept_after_reading 30_000 60_000 chair locked).projects
        ≡ some (chair_project (some alice_lock)))
    × (has_visible_lock_diff (some alice_lock) none ≡ true)
unfolding get ◌==◌ is_lock_expired
get_project_lock-stale_example =
    get_project_lock-stale 30_000 60_000 chair alice_lock (chair_project (some alice_lock)) locked
      (refl, tt) locked-IsMirror refl refl refl
