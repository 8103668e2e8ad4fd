-- ===== src/Pipeline/Locks/Outcomes.antt =====
-- projectLockRepository.ts: what a caller may rely on when a call succeeds.
use bbmcp.Prelude.{
  ◌⊎◌, false, ◌≡◌, refl, inl, inr, true, Option, none, some, Bool-cases, Option-cases,
}
use bbmcp.Prelude.Text.{Text, ◌==◌}
use bbmcp.Prelude.Dict.{get, UniqueKeys}
use bbmcp.Pipeline.Model.{stamp, Result, ok, throw, lock_conflict}
use bbmcp.Pipeline.State.{Lock, State}
use bbmcp.Pipeline.Locks.Owner.{is_same_owner, normalize_owner_agent_id, normalize_owner_session_id}
use bbmcp.Pipeline.Locks.Owner.Sessions.{eq_of_is_same_owner}
use bbmcp.Pipeline.Locks.Frame.{get-store_lock, get-sweep, unexpired}
use bbmcp.Pipeline.Locks.Held.{IsHeld, built_IsHeld}
use bbmcp.Pipeline.Locks.Release.{IsAlive, StaysBut, swept_found, none-IsAlive, other-IsAlive}
use bbmcp.Pipeline.Locks.{
  LockTimes, LockInput, is_lock_expired, acquire_new, acquire_existing, acquire_as,
  acquire_project_lock, renew_as, renewed_lock, renew_project_lock, release_expired_project_locks,
  store_lock, build_active_lock,
}

module _ (times : LockTimes) (input : LockInput) where
  -- The state after the sweep with which every call begins.
  abbrev swept_state : State → State
  swept_state s = (release_expired_project_locks times.swept_at s).1

  stored_StaysBut :
      (s : State) (lock : Lock)
      → UniqueKeys s.project_locks
      → StaysBut
          (λ k. input.project_id == k)
          times.swept_at
          s
          (store_lock input.project_id lock (swept_state s))
  stored_StaysBut s lock u k away =
      rw (get-store_lock input.project_id k lock (swept_state s), away)
        (get-sweep times.swept_at s k u)

  -- Another owner's lock that the call finds alive, both at its sweep and behind it.
  pub record IsTaken (s : State) (existing : Lock) : Type 0 where
    pub agent : Text
    pub named : normalize_owner_agent_id input.owner_agent_id ≡ ok agent
    pub found : get input.project_id s.project_locks ≡ some existing
    pub live_at_sweep : is_lock_expired existing times.swept_at ≡ false
    pub live : is_lock_expired existing times.checked_at ≡ false
    pub owner :
        is_same_owner existing agent (normalize_owner_session_id input.owner_session_id) ≡ false

  -- A lock that is new has the call's token and time.
  abbrev pub IsNew : Text → Lock → Type 0
  IsNew token lock = (lock.token ≡ token) × (lock.acquired_at ≡ stamp times.built_at)

  -- How a caller comes by a lock, by what was stored for the project: there was none, or one that
  -- the sweep or the check behind it finds expired, and the lock is new; or one of the caller's own,
  -- found alive twice, of which the lock keeps the token and the time of acquisition.
  abbrev pub ComesBy : Text → Option Lock → Lock → Type 0
  ComesBy token none lock = IsNew token lock
  ComesBy token (some existing) lock =
      (((is_lock_expired existing times.swept_at ≡ true)
          ⊎ (is_lock_expired existing times.checked_at ≡ true))
        × IsNew token lock)
      ⊎ ((is_lock_expired existing times.swept_at ≡ false)
          × (is_lock_expired existing times.checked_at ≡ false)
          × (existing.owner_agent_id ≡ lock.owner_agent_id)
          × (existing.owner_session_id ≡ lock.owner_session_id)
          × (lock.token ≡ existing.token)
          × (lock.acquired_at ≡ existing.acquired_at))

  swept_away-ComesBy :
      (token : Text) (s : State) (lock : Lock)
      → UniqueKeys s.project_locks
      → get input.project_id (swept_state s).project_locks ≡ none
      → IsNew token lock
      → ComesBy token (get input.project_id s.project_locks) lock
  swept_away-ComesBy token s lock u absent new =
      go _ (get-sweep times.swept_at s input.project_id u)
    where
      go :
          (o : Option Lock)
          → get input.project_id (swept_state s).project_locks ≡ unexpired times.swept_at o
          → ComesBy token o lock
      go none e = new
      go (some x) e = elim (Bool-cases (is_lock_expired x times.swept_at)) [
        | inl old ↦ inl (inl old, new)
        | inr live ↦
            let found : get input.project_id (swept_state s).project_locks ≡ some x =
              rw live at e in
            cc
      ]

  -- What a call of `acquire` may return, and which locks it leaves alone.
  abbrev pub Acquired : Text → State → Result Lock × State → Type 0
  Acquired token s (ok lock, s') =
      IsHeld times input lock s'
      × ComesBy token (get input.project_id s.project_locks) lock
      × StaysBut (λ k. input.project_id == k) times.swept_at s s'
  Acquired token s (throw e, s') =
      ((normalize_owner_agent_id input.owner_agent_id ≡ throw e) × (s' ≡ swept_state s))
      ⊎ ((existing : Lock) × IsTaken s existing
          × (s' ≡ swept_state s)
          × (e
              ≡ lock_conflict input.project_id existing.owner_agent_id existing.owner_session_id
                  existing.expires_at))

  acquire_as-Acquired :
      (token agent : Text) (s : State)
      → UniqueKeys s.project_locks
      → normalize_owner_agent_id input.owner_agent_id ≡ ok agent
      → Acquired token s (acquire_as times token input agent (swept_state s))
  unfolding acquire_as acquire_new acquire_existing renewed_lock build_active_lock
  acquire_as-Acquired token agent s u h =
      elim (Option-cases (get input.project_id (swept_state s).project_locks)) [
        | inl absent ↦
            rw (absent, acquire_as)
              (
                built_IsHeld times input agent token _ (swept_state s) h,
                swept_away-ComesBy token s _ u absent (refl, refl),
                stored_StaysBut s _ u,
              )
        | inr (x, found) ↦ elim (Bool-cases (is_lock_expired x times.checked_at)) [
          | inl old ↦
              let (before, live) = swept_found input times.swept_at s x u found in
              rw (found, acquire_as, old, before)
                (
                  built_IsHeld times input agent token _ (swept_state s) h,
                  inl (inr old, (refl, refl)),
                  stored_StaysBut s _ u,
                )
          | inr fresh ↦
              elim (Bool-cases
                (is_same_owner x agent (normalize_owner_session_id input.owner_session_id))) [
                  | inl same ↦
                      let (before, live) = swept_found input times.swept_at s x u found in
                      let (owner, session) = eq_of_is_same_owner x agent _ same in
                      rw (found, acquire_as, fresh, same, before)
                        (
                          built_IsHeld times input agent x.token x.acquired_at (swept_state s) h,
                          inr (live, fresh, owner, session, refl, refl),
                          stored_StaysBut s _ u,
                        )
                  | inr other ↦
                      let (before, live) = swept_found input times.swept_at s x u found in
                      rw (found, acquire_as, fresh, other)
                        (inr (
                          x,
                          record {
                            agent = agent;
                            named = h;
                            found = before;
                            live_at_sweep = live;
                            live = fresh;
                            owner = other;
                          },
                          refl,
                          refl,
                        ))
                ]
        ]
      ]

  -- Where the state stores one lock for a project at most, `acquire` returns a lock that is stored
  -- for the project under the caller's normalised name and session, and that runs out between five
  -- seconds and five minutes after the call. It is a new one where the project had none or one that
  -- the call finds expired; otherwise the project's lock was the caller's own, whose token and time
  -- of acquisition it keeps; the other projects keep their locks but by the sweep. Or it throws,
  -- because the caller has no name, or because another owner's lock on the project is alive, which
  -- the error names, and then nothing has changed but by the sweep.
  pub acquire_project_lock-Acquired :
      (token : Text) (s : State)
      → UniqueKeys s.project_locks
      → Acquired token s (acquire_project_lock times token input s)
  unfolding acquire_project_lock
  acquire_project_lock-Acquired token s u = go _ refl
    where
      go :
          (owner : Result Text)
          → normalize_owner_agent_id input.owner_agent_id ≡ owner
          → Acquired token s (acquire_project_lock times token input s)
      go (throw e) h = rw (h, acquire_project_lock) (inl (h, refl))
      go (ok agent) h = rw (h, acquire_project_lock) (acquire_as-Acquired token agent s u h)

  abbrev pub Renewed : State → Result (Option Lock) × State → Type 0
  Renewed s (ok (some lock), s') =
      IsHeld times input lock s'
      × ((existing : Lock) × IsAlive input times.swept_at s existing
          × (lock.token ≡ existing.token)
          × (lock.acquired_at ≡ existing.acquired_at))
  Renewed s (ok none, s') = (existing : Lock) → ¬ IsAlive input times.swept_at s existing
  Renewed s (throw e, s') = (existing : Lock) → ¬ IsAlive input times.swept_at s existing

  renew_as-Renewed :
      (token agent : Text) (s : State)
      → UniqueKeys s.project_locks
      → normalize_owner_agent_id input.owner_agent_id ≡ ok agent
      → Renewed s (renew_as times token input agent (swept_state s))
  unfolding renew_as renewed_lock build_active_lock
  renew_as-Renewed token agent s u h =
      elim (Option-cases (get input.project_id (swept_state s).project_locks)) [
        | inl absent ↦ rw (absent, renew_as) (none-IsAlive input times.swept_at s u absent)
        | inr (x, found) ↦
            elim (Bool-cases
              (is_same_owner x agent (normalize_owner_session_id input.owner_session_id))) [
                | inl same ↦
                    let (before, live) = swept_found input times.swept_at s x u found in
                    rw (found, renew_as, same)
                      (
                        built_IsHeld times input agent x.token x.acquired_at (swept_state s) h,
                        (
                          x,
                          record {
                            agent = agent;
                            named = h;
                            found = before;
                            live = live;
                            owner = same;
                          },
                          refl,
                          refl,
                        ),
                      )
                | inr other ↦
                    rw (found, renew_as, other)
                      (other-IsAlive input times.swept_at agent s x u h found other)
              ]
      ]

  -- Where the state stores one lock for a project at most, a lock that `renew` returns is the
  -- caller's own lock, alive when the call began, with the same token and time of acquisition, and
  -- is stored with a new lease: renewal revives no expired lock and takes none over. Where it
  -- returns none, or throws for want of a name, the caller had no lock on the project that was
  -- alive.
  pub renew_project_lock-Renewed :
      (token : Text) (s : State)
      → UniqueKeys s.project_locks
      → Renewed s (renew_project_lock times token input s)
  unfolding renew_project_lock
  renew_project_lock-Renewed token s u = go _ refl
    where
      go :
          (owner : Result Text)
          → normalize_owner_agent_id input.owner_agent_id ≡ owner
          → Renewed s (renew_project_lock times token input s)
      go (throw e) h = rw (h, renew_project_lock) (λ x a. cc (a.named))
      go (ok agent) h = rw (h, renew_project_lock) (renew_as-Renewed token agent s u h)
