-- ===== src/Pipeline/Locks/Release.antt =====
-- projectLockRepository.ts: locks that a call finds alive, and what `release` does with them.
use bbmcp.Prelude.{
  ℕ, ◌≡◌, refl, inl, inr, Bool, true, false, Option, none, some, arith, Bool-cases, Option-cases,
}
use bbmcp.Prelude.Text.{Text, ◌==◌, ==_refl}
use bbmcp.Prelude.Dict.{get, UniqueKeys}
use bbmcp.Pipeline.Model.{Result, ok, throw}
use bbmcp.Pipeline.State.{Lock, State}
use bbmcp.Pipeline.Locks.Owner.{is_same_owner, normalize_owner_agent_id, normalize_owner_session_id}
use bbmcp.Pipeline.Locks.Frame.{get-drop_lock, get-sweep, unexpired}
use bbmcp.Pipeline.Locks.{
  LockInput, is_lock_expired, release_as, release_project_lock, release_expired_project_locks,
}

-- Nothing but what has expired is gone from the locks of the projects that a test lets through.
abbrev pub StaysBut : (Text → Bool) → ℕ → State → State → Type 0
StaysBut but now s s' =
    (k : Text) → but k ≡ false → get k s'.project_locks ≡ unexpired now (get k s.project_locks)

swept-StaysBut :
    (but : Text → Bool) (now : ℕ) (s : State)
    → UniqueKeys s.project_locks
    → StaysBut but now s (release_expired_project_locks now s).1
swept-StaysBut but now s u k other = get-sweep now s k u

module _ (input : LockInput) where
  -- A lock of the caller that the call finds alive.
  pub record IsAlive (now : ℕ) (s : State) (existing : Lock) : Type 0 where
    pub agent : Text
    pub named : normalize_owner_agent_id input.owner_agent_id ≡ ok agent
    pub found : get input.project_id s.project_locks ≡ some existing
    pub live : is_lock_expired existing now ≡ false
    pub owner :
        is_same_owner existing agent (normalize_owner_session_id input.owner_session_id) ≡ true

  pub swept_found :
      (now : ℕ) (s : State) (x : Lock)
      → UniqueKeys s.project_locks
      → get input.project_id (release_expired_project_locks now s).1.project_locks ≡ some x
      → (get input.project_id s.project_locks ≡ some x) × (is_lock_expired x now ≡ false)
  swept_found now s x u e =
      split (get input.project_id s.project_locks) refl (get-sweep now s input.project_id u)
    where
      split :
          (o : Option Lock)
          → get input.project_id s.project_locks ≡ o
          → get input.project_id (release_expired_project_locks now s).1.project_locks
            ≡ unexpired now o
          → (get input.project_id s.project_locks ≡ some x) × (is_lock_expired x now ≡ false)
      split o p q = ground arith

  abbrev pub Released : ℕ → State → Result Bool × State → Type 0
  Released now s (ok true, s') =
      (get input.project_id s'.project_locks ≡ none)
      × ((existing : Lock) × IsAlive now s existing)
      × StaysBut (λ k. input.project_id == k) now s s'
  Released now s (ok false, s') =
      ((existing : Lock) → ¬ IsAlive now s existing) × StaysBut (λ k. false) now s s'
  Released now s (throw e, s') =
      ((existing : Lock) → ¬ IsAlive now s existing) × StaysBut (λ k. false) now s s'

  swept_alive :
      (now : ℕ) (s : State) (x : Lock)
      → UniqueKeys s.project_locks
      → IsAlive now s x
      → get input.project_id (release_expired_project_locks now s).1.project_locks ≡ some x
  swept_alive now s x u a = ground (arith, a.found, a.live, get-sweep now s input.project_id u)

  pub none-IsAlive :
      (now : ℕ) (s : State)
      → UniqueKeys s.project_locks
      → get input.project_id (release_expired_project_locks now s).1.project_locks ≡ none
      → (x : Lock) → ¬ IsAlive now s x
  none-IsAlive now s u e x a = cc (swept_alive now s x u a)

  pub other-IsAlive :
      (now : ℕ) (agent : Text) (s : State) (l : Lock)
      → UniqueKeys s.project_locks
      → normalize_owner_agent_id input.owner_agent_id ≡ ok agent
      → get input.project_id (release_expired_project_locks now s).1.project_locks ≡ some l
      → is_same_owner l agent (normalize_owner_session_id input.owner_session_id) ≡ false
      → (x : Lock) → ¬ IsAlive now s x
  other-IsAlive now agent s l u h e other x a =
      ground (arith, swept_alive now s x u a, a.named, a.owner)

  release_as-Released :
      (now : ℕ) (agent : Text) (s : State)
      → UniqueKeys s.project_locks
      → normalize_owner_agent_id input.owner_agent_id ≡ ok agent
      → let swept = (release_expired_project_locks now s).1 in
        Released now s (
          release_as now input.project_id agent
            (normalize_owner_session_id input.owner_session_id)
            swept)
  unfolding release_as
  release_as-Released now agent s u h =
      let swept = (release_expired_project_locks now s).1 in
      elim (Option-cases (get input.project_id swept.project_locks)) [
        | inl absent ↦
            rw (absent, release_as)
              (none-IsAlive now s u absent, swept-StaysBut (λ k. false) now s u)
        | inr (x, found) ↦
            elim (Bool-cases
              (is_same_owner x agent (normalize_owner_session_id input.owner_session_id))) [
                | inl same ↦
                    let (before, live) = swept_found now s x u found in
                    rw (found, release_as, same)
                      (
                        rw
                            (
                              get-drop_lock input.project_id input.project_id swept,
                              ==_refl input.project_id,
                            )
                            refl,
                        (
                          x,
                          record {
                            agent = agent;
                            named = h;
                            found = before;
                            live = live;
                            owner = same;
                          },
                        ),
                        λ k away.
                            rw (get-drop_lock input.project_id k swept, away) (get-sweep now s k u),
                      )
                | inr other ↦
                    rw (found, release_as, other)
                      (
                        other-IsAlive now agent s x u h found other,
                        swept-StaysBut (λ k. false) now s u,
                      )
              ]
      ]

  -- Where the state stores one lock for a project at most, `release` answers `true` exactly when
  -- the caller holds a lock on the project that is alive, and then the project has no lock; it
  -- answers `false`, or throws for want of a name, only when the caller holds none, and then the
  -- lock of the project stays as it was, but for one that has expired. So do the locks of all other
  -- projects on every answer.
  pub release_project_lock-Released :
      (now : ℕ) (s : State)
      → UniqueKeys s.project_locks
      → Released now s (release_project_lock now input s)
  unfolding release_project_lock
  release_project_lock-Released now s u = go _ refl
    where
      go :
          (owner : Result Text)
          → normalize_owner_agent_id input.owner_agent_id ≡ owner
          → Released now s (release_project_lock now input s)
      go (throw e) h =
          rw (h, release_project_lock) (λ x a. cc (a.named), swept-StaysBut (λ k. false) now s u)
      go (ok agent) h = rw (h, release_project_lock) (release_as-Released now agent s u h)
