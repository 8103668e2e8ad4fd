-- ===== src/Pipeline/Locks/Frame.antt =====
-- projectLockRepository.ts: what the upkeep of snapshots leaves alone, and what a sweep over the
-- locks leaves of them.
use bbmcp.Prelude.{
  ℕ, ◌+◌, ◌≡◌, refl, ◌⊎◌, inl, inr, ◌∙◌, Bool, true, false, [], ◌∷◌, Option, none, some,
  if◌then◌else◌, arith, Bool-cases,
}
use bbmcp.Prelude.Text.{Text, ◌==◌, ==_iff}
use bbmcp.Prelude.Dict.{Dict, get, set, delete, get-set, get-delete, UniqueKeys, delete-UniqueKeys}
use bbmcp.Pipeline.State.{Lock, Project, State}
use bbmcp.Pipeline.Events.{append_project_snapshot_event}
use bbmcp.Pipeline.Locks.{
  sync_project_lock_snapshot, sync_found, drop_lock, store_lock, drop_each, is_lock_expired,
  release_expired_project_locks,
}

sync_found-locks :
    (s : State) (k : Text) (next : Option Lock) (found : Option Project)
    → (sync_found s k next found).project_locks ≡ s.project_locks
unfolding append_project_snapshot_event
sync_found-locks s k next none = refl
sync_found-locks s k next (some p) = ground arith

pub drop_lock-locks :
    (k : Text) (s : State) → (drop_lock k s).project_locks ≡ delete k s.project_locks
unfolding drop_lock sync_project_lock_snapshot
drop_lock-locks k s = sync_found-locks _ k none _

pub store_lock-locks :
    (k : Text) (lock : Lock) (s : State)
    → (store_lock k lock s).project_locks ≡ set k lock s.project_locks
unfolding store_lock sync_project_lock_snapshot
store_lock-locks k lock s = sync_found-locks _ k (some lock) _

pub get-store_lock :
    (k j : Text) (lock : Lock) (s : State)
    → get j (store_lock k lock s).project_locks
      ≡ (if k == j then some lock else get j s.project_locks)
get-store_lock k j lock s = rw (store_lock-locks k lock s) (get-set k j lock s.project_locks)

pub get-drop_lock :
    (k j : Text) (s : State)
    → get j (drop_lock k s).project_locks ≡ (if k == j then none else get j s.project_locks)
get-drop_lock k j s = rw (drop_lock-locks k s) (get-delete k j s.project_locks)

-- What a loop over the entries makes of one of them.
abbrev pub unselected : (Lock → Bool) → Option Lock → Option Lock
unselected selected none = none
unselected selected (some l) = if selected l then none else some l

abbrev pub after_entry : (Lock → Bool) → Option Lock → Option Lock → Option Lock
after_entry selected none before = before
after_entry selected (some l) before = if selected l then none else before

step_state : (Lock → Bool) → Text → Lock → State → State
step_state selected k l s = if selected l then drop_lock k s else s

get-step_state :
    (selected : Lock → Bool) (k j : Text) (l : Lock) (s : State)
    → get j (step_state selected k l s).project_locks ≡ (
        if k == j
        then after_entry selected (some l) (get j s.project_locks)
        else get j s.project_locks)
unfolding step_state
get-step_state selected k j l s =
    ground (arith, drop_lock-locks k s, get-delete k j s.project_locks)

get-drop_each :
    (selected : Lock → Bool) (entries : Dict Lock) (n : ℕ) (s : State) (j : Text)
    → UniqueKeys entries
    → get j (drop_each selected entries n s).1.project_locks
      ≡ after_entry selected (get j entries) (get j s.project_locks)
unfolding drop_each step_state get
get-drop_each selected [] n s j u = refl
get-drop_each selected ((k, l) ∷ rest) n s j (fresh, u) = ground (
  arith,
  ==_iff k j,
  get-step_state selected k j l s,
  get-drop_each selected rest (if selected l then n + 1 else n) (step_state selected k l s) j u,
)

pub drop_each-UniqueKeys :
    (selected : Lock → Bool) (entries : Dict Lock) (n : ℕ) (s : State)
    → UniqueKeys s.project_locks
    → UniqueKeys (drop_each selected entries n s).1.project_locks
unfolding drop_each
drop_each-UniqueKeys selected [] n s u = u
drop_each-UniqueKeys selected ((k, l) ∷ rest) n s u =
    drop_each-UniqueKeys selected rest _ _ (kept (Bool-cases (selected l)))
  where
    kept :
        ((selected l ≡ true) ⊎ (selected l ≡ false))
        → UniqueKeys (if selected l then drop_lock k s else s).project_locks
    kept (inl e) = rw (e, drop_lock-locks k s) (delete-UniqueKeys k _ u)
    kept (inr e) = rw e u

after_entry_self :
    (selected : Lock → Bool) (o : Option Lock) → after_entry selected o o ≡ unselected selected o
after_entry_self selected none = refl
after_entry_self selected (some l) = refl

pub get-drop_all :
    (selected : Lock → Bool) (n : ℕ) (s : State) (j : Text)
    → UniqueKeys s.project_locks
    → get j (drop_each selected s.project_locks n s).1.project_locks
      ≡ unselected selected (get j s.project_locks)
get-drop_all selected n s j u =
    get-drop_each selected s.project_locks n s j u
    ∙ after_entry_self selected (get j s.project_locks)

abbrev pub unexpired : ℕ → Option Lock → Option Lock
unexpired now = unselected (λ lock. is_lock_expired lock now)

pub get-sweep :
    (now : ℕ) (s : State) (j : Text)
    → UniqueKeys s.project_locks
    → get j (release_expired_project_locks now s).1.project_locks
      ≡ unexpired now (get j s.project_locks)
unfolding release_expired_project_locks
get-sweep now s j u = get-drop_all (λ lock. is_lock_expired lock now) 0 s j u

pub sweep-UniqueKeys :
    (now : ℕ) (s : State)
    → UniqueKeys s.project_locks
    → UniqueKeys (release_expired_project_locks now s).1.project_locks
unfolding release_expired_project_locks
sweep-UniqueKeys now s u =
    drop_each-UniqueKeys (λ lock. is_lock_expired lock now) s.project_locks 0 s u
