-- ===== src/Tests/Others.antt =====
-- The event log of the chair, and its snapshot.
use bbmcp.Prelude.{◌≡◌, refl, [], ◌∷◌, ◌++◌, none, arith}
use bbmcp.Prelude.Text.{text, ◌==◌}
use bbmcp.Prelude.Dict.{get, set}
use bbmcp.Pipeline.Model.{bone, cube, node, HierarchyNodes, leaf, branch}
use bbmcp.Pipeline.State.{empty_state, Project, State}
use bbmcp.Pipeline.Events.{append_project_snapshot_event, get_project_events_since, clone_event}
use bbmcp.Pipeline.Events.Laws.{
  IsLogged, new_event, append_project_snapshot_event-IsLogged, empty_state-IsLogged,
}
use bbmcp.Pipeline.Events.Reading.{get_project_events_since-append}
use bbmcp.Pipeline.Sync.{derive_hierarchy_stats, synchronize_project_snapshot}
use bbmcp.Pipeline.Sync.Laws.{tally, is_bone, is_cube, derive_hierarchy_stats-tally}
use bbmcp.Pipeline.Sync.Cleaning.{IsSynchronized, synchronize_project_snapshot-IsSynchronized}
use bbmcp.Tests.Data.{workspace, chair, chair_project}

-- The chair's body with a leg on each side.
abbrev body : HierarchyNodes
body =
    branch
      (node chair chair bone (
        branch (node (text "l") (text "left") cube leaf)
          (branch (node (text "r") (text "right") cube leaf) leaf)))
      leaf

abbrev furnished : Project
furnished = record (chair_project none) { hierarchy = body }

furnished_stats : (synchronize_project_snapshot furnished).stats ≡ record { bones = 1; cubes = 2 }
unfolding synchronize_project_snapshot
furnished_stats = refl

abbrev shown : State
shown = append_project_snapshot_event (empty_state workspace) (chair_project none)

shown-IsLogged : IsLogged shown
shown-IsLogged =
    append_project_snapshot_event-IsLogged (empty_state workspace) (chair_project none)
      (empty_state-IsLogged workspace)

append_project_snapshot_event-IsLogged_example :
    IsLogged (append_project_snapshot_event shown furnished)
append_project_snapshot_event-IsLogged_example =
    append_project_snapshot_event-IsLogged shown furnished shown-IsLogged

get_project_events_since-append_example :
    get_project_events_since (append_project_snapshot_event shown furnished) chair 0
    ≡ get_project_events_since shown chair 0 ++ clone_event (new_event shown furnished) ∷ []
unfolding append_project_snapshot_event get_project_events_since get set ◌==◌
get_project_events_since-append_example =
    get_project_events_since-append shown furnished 0 shown-IsLogged (omega arith) (omega arith)

derive_hierarchy_stats-tally_example :
    ((derive_hierarchy_stats body).bones ≡ tally is_bone body)
    × ((derive_hierarchy_stats body).cubes ≡ tally is_cube body)
derive_hierarchy_stats-tally_example = derive_hierarchy_stats-tally body

synchronize_project_snapshot-IsSynchronized_example :
    IsSynchronized furnished (synchronize_project_snapshot furnished)
synchronize_project_snapshot-IsSynchronized_example =
    synchronize_project_snapshot-IsSynchronized furnished
