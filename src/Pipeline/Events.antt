-- ===== src/Pipeline/Events.antt =====
-- packages/native-pipeline/src/eventRepository.ts: the log of snapshots of each project.
pub mod Laws
pub mod Reading
use bbmcp.Prelude.{
  ℕ, ◌+◌, ◌-◌, List, [], ◌∷◌, ◌++◌, Bool, Option, none, some, if◌then◌else◌, ltb, get_or_else,
  length, drop, keep_if,
}
use bbmcp.Prelude.Text.{Text}
use bbmcp.Prelude.Dict.{get, set}
use bbmcp.Pipeline.State.{Project, Event, State, clone_project, allocate_event_seq}

abbrev pub max_project_events : ℕ
max_project_events = 200

-- `events.splice(0, events.length - MAX)` where the log is longer than the limit.
unfoldable pub trim_events : List Event → List Event
trim_events events =
    if ltb max_project_events (length events)
    then drop (length events - max_project_events) events
    else events

abbrev pub events_of : State → Text → List Event
events_of s project_id = get_or_else (get project_id s.project_events) []

-- The callback `emitProjectSnapshot` of every store.
unfoldable pub append_project_snapshot_event : State → Project → State
unfolding trim_events allocate_event_seq clone_project
append_project_snapshot_event s p =
    let (seq, s') = allocate_event_seq s in
    let event : Event = record { seq = seq; snapshot = clone_project p } in
    let events = trim_events (events_of s' p.project_id ++ event ∷ []) in
    record s' { project_events = set p.project_id events s'.project_events }

abbrev pub clone_event : Event → Event
clone_event e = record e { snapshot = clone_project e.snapshot }

abbrev pub clone_events : List Event → List Event
clone_events [] = []
clone_events (e ∷ es) = clone_event e ∷ clone_events es

unfoldable pub get_project_events_since : State → Text → ℕ → List Event
unfolding clone_project
get_project_events_since s project_id last_seq =
    clone_events (keep_if (λ e. ltb last_seq e.seq) (events_of s project_id))
