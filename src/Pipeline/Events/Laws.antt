-- ===== src/Pipeline/Events/Laws.antt =====
-- eventRepository.ts: the order and the length of the logs.
use bbmcp.Prelude.{
  ℕ, zero, suc, ◌+◌, ◌-◌, ◌≡◌, ◌≤◌, ◌<◌, refl, inl, inr, List, [], ◌∷◌, ◌++◌, some, arith, ltb,
  Bool-cases, length, length-drop, drop, All, All-append, All-drop, Option-cases,
}
use bbmcp.Prelude.Text.{Text, ◌==◌}
use bbmcp.Prelude.Dict.{get, get-set}
use bbmcp.Pipeline.State.{Project, Event, State, clone_project, empty_state}
use bbmcp.Pipeline.Events.{
  max_project_events, trim_events, events_of, append_project_snapshot_event,
}

-- The numbers rise along the list, from `low` on.
abbrev pub Rising : ℕ → List Event → Type 0
Rising low [] = Unit {0}
Rising low (e ∷ es) = (low ≤ e.seq) × Rising (e.seq + 1) es

abbrev pub Before : ℕ → Event → Type 0
Before next e = e.seq < next

pub record IsLog (next : ℕ) (events : List Event) : Type 0 where
  pub rising : Rising 0 events
  pub given : All (Before next) events
  pub bounded : length events ≤ max_project_events

-- Every log of the state is one.
abbrev pub IsLogged : State → Type 0
IsLogged s =
    (k : Text) (events : List Event)
    → get k s.project_events ≡ some events
    → IsLog s.next_seq events

Rising-mono : {low low' : ℕ} (es : List Event) → low' ≤ low → Rising low es → Rising low' es
Rising-mono [] h r = tt
Rising-mono (e ∷ es) h r = (omega arith, r.1)

Rising-drop : (low n : ℕ) (es : List Event) → Rising low es → Rising 0 (drop n es)
Rising-drop low zero es r = Rising-mono {low = low} es (omega arith) r
Rising-drop low (suc n) [] r = tt
Rising-drop low (suc n) (e ∷ es) r = Rising-drop (e.seq + 1) n es r.1

Rising-append :
    (low next : ℕ) (es : List Event) (e : Event)
    → Rising low es
    → All (Before next) es
    → low ≤ next
    → e.seq ≡ next
    → Rising low (es ++ e ∷ [])
Rising-append low next [] e r b h same = (omega arith, tt)
Rising-append low next (x ∷ es) e (first, r) (below, b) h same =
    (first, Rising-append (x.seq + 1) next es e r b (omega arith) same)

Before-mono : (next : ℕ) (es : List Event) → All (Before next) es → All (Before (next + 1)) es
Before-mono next [] b = tt
Before-mono next (e ∷ es) (below, b) = (omega arith, Before-mono next es b)

trim_events-IsLog :
    (next : ℕ) (es : List Event) → Rising 0 es → All (Before next) es → IsLog next (trim_events es)
unfolding trim_events
trim_events-IsLog next es r b = elim (Bool-cases (ltb max_project_events (length es))) [
  | inl long ↦
      rw (long, trim_events)
        (record {
          rising = Rising-drop 0 (length es - max_project_events) es r;
          given = All-drop (Before next) (length es - max_project_events) es b;
          bounded = ground (arith, length-drop (length es - max_project_events) es);
        })
  | inr short ↦ rw (short, trim_events) (record { rising = r; given = b; bounded = ground arith })
]

-- The log of a project, also where there is none yet.
pub events_of-IsLog : (s : State) (k : Text) → IsLogged s → IsLog s.next_seq (events_of s k)
events_of-IsLog s k h = elim (Option-cases (get k s.project_events)) [
  | inl absent ↦ rw absent (record { rising = tt; given = tt; bounded = omega arith })
  | inr (es, found) ↦ rw found (h k es found)
]

abbrev pub new_event : State → Project → Event
new_event s p = record { seq = s.next_seq; snapshot = clone_project p }

appended-IsLog :
    (s : State) (p : Project)
    → IsLogged s
    → IsLog (s.next_seq + 1) (trim_events (events_of s p.project_id ++ new_event s p ∷ []))
appended-IsLog s p h =
    let log = events_of-IsLog s p.project_id h in
    let old = events_of s p.project_id in
    trim_events-IsLog (s.next_seq + 1) (old ++ new_event s p ∷ [])
      (Rising-append 0 s.next_seq old (new_event s p) log.rising log.given (omega arith) refl)
      (All-append (Before (s.next_seq + 1)) old _ (Before-mono s.next_seq old log.given)
        (omega arith, tt))

-- Where every log is in order, to show a snapshot keeps it so: the numbers rise, they are below
-- the next one to be given out, and no log holds more than two hundred events.
pub append_project_snapshot_event-IsLogged :
    (s : State) (p : Project) → IsLogged s → IsLogged (append_project_snapshot_event s p)
unfolding append_project_snapshot_event
append_project_snapshot_event-IsLogged s p h k events e =
    let log = trim_events (events_of s p.project_id ++ new_event s p ∷ []) in
    elim (Bool-cases (p.project_id == k)) [
      | inl same ↦
          let found : events ≡ log = ground (arith, get-set p.project_id k log s.project_events) in
          rw found (appended-IsLog s p h)
      | inr other ↦
          let old = h k events (ground (arith, get-set p.project_id k log s.project_events)) in
          record {
            rising = old.rising;
            given = Before-mono s.next_seq events old.given;
            bounded = old.bounded;
          }
    ]

pub empty_state-IsLogged : (workspace_id : Text) → IsLogged (empty_state workspace_id)
unfolding get
empty_state-IsLogged workspace_id k events e = cc
