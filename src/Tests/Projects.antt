-- ===== src/Tests/Projects.antt =====
-- The chair among other projects of the root, and its deletion.
use bbmcp.Prelude.{◌≡◌, refl, List, [], ◌∷◌, none, some}
use bbmcp.Prelude.Text.{Text, text, ◌==◌, trim}
use bbmcp.Prelude.Dict.{get}
use bbmcp.Prelude.Number.{whole_number}
use bbmcp.Pipeline.Model.{ok}
use bbmcp.Pipeline.State.{project, ChildRef, State}
use bbmcp.Pipeline.Tree.{find_container_children, normalize_parent_folder_id, normalize_index}
use bbmcp.Pipeline.Tree.{ensure_folder_depth_limit}
use bbmcp.Pipeline.Tree.Depth.{DepthLimit, ensure_folder_depth_limit-DepthLimit}
use bbmcp.Prelude.Dict.{Dict}
use bbmcp.Pipeline.State.{Folder}
use bbmcp.Pipeline.Projects.Editing.{places, move_project, delete_project, normalize_name}
use bbmcp.Pipeline.Projects.Editing.Deleting.{Deleted, delete_project-Deleted}
use bbmcp.Pipeline.Projects.Editing.Moving.{project_ref, move_project-find_container_children}
use bbmcp.Tests.Data.{chair, chair_project, running_job, with_job}
use bbmcp.Tests.Jobs.{running-Consistent}

abbrev other_ref : Text → ChildRef
other_ref id = record { kind = project; id = id }

abbrev refs : List ChildRef
refs =
    project_ref (chair_project none)
    ∷ other_ref (text "a")
    ∷ other_ref (text "b")
    ∷ other_ref (text "c")
    ∷ []

abbrev room : State
room = record (with_job running_job []) { root_children = refs }

spaces_collapse : normalize_name (text "  big   oak  table ") chair ≡ text "big oak table"
unfolding normalize_name trim
spaces_collapse = refl

-- The chair goes in front of what was at place 2.
move_project-find_container_children_example :
    find_container_children
      (places (move_project chair (some (text " ")) (some (whole_number 2)) room).1)
      none
    ≡ ok (
        other_ref (text "a")
        ∷ project_ref (chair_project none)
        ∷ other_ref (text "b")
        ∷ other_ref (text "c")
        ∷ [])
unfolding find_container_children normalize_parent_folder_id normalize_index get trim ◌==◌
move_project-find_container_children_example =
    move_project-find_container_children chair (some (text " ")) (some (whole_number 2))
      (chair_project none) room refs refl refl refl refl

delete_project-Deleted_example :
    Deleted chair (with_job running_job []) (delete_project chair (with_job running_job []))
delete_project-Deleted_example =
    delete_project-Deleted chair (with_job running_job []) running-Consistent

-- Two folders, one in the other.
abbrev nested : Dict Folder
nested =
    (
      text "a",
      record { folder_id = text "a"; name = chair; parent_folder_id = none; children = [] },
    )
    ∷ (
      text "b",
      record {
        folder_id = text "b";
        name = chair;
        parent_folder_id = some (text "a");
        children = [];
      },
    )
    ∷ []

ensure_folder_depth_limit-DepthLimit_example :
    DepthLimit nested (some (text "b")) 2 (ensure_folder_depth_limit nested (some (text "b")) 2)
ensure_folder_depth_limit-DepthLimit_example =
    ensure_folder_depth_limit-DepthLimit nested (some (text "b")) 2
