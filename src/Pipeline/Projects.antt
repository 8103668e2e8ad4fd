-- ===== src/Pipeline/Projects.antt =====
-- packages/native-pipeline/src/projectRepository.ts: a project that a job needs is created on demand.
pub mod Frame
pub mod Editing
pub mod Folders
pub mod Views
use bbmcp.Prelude.{◌+◌, [], ◌∷◌, ◌++◌, false, Option, none, some, if◌then◌else◌}
use bbmcp.Prelude.Text.{Text, trim, is_empty}
use bbmcp.Prelude.Number.{whole_number}
use bbmcp.Prelude.Dict.{get, set}
use bbmcp.Pipeline.Model.{leaf, Result, ok, throw, workspace_required}
use bbmcp.Pipeline.State.{Project, State, project, non_empty}
use bbmcp.Pipeline.Sync.{synchronize_project_snapshot}
use bbmcp.Pipeline.Events.{append_project_snapshot_event}

unfoldable pub require_workspace_id : Option Text → Result Text
require_workspace_id none = throw workspace_required
require_workspace_id (some id) =
    let normalized = trim id in
    if is_empty normalized then throw workspace_required else ok normalized

-- The workspace has passed `require_workspace_id`.
unfoldable pub create_default_project : Text → Text → Option Text → Text → Project
create_default_project project_id name parent_folder_id workspace_id = record {
  project_id = project_id;
  workspace_id = some workspace_id;
  name = name;
  parent_folder_id = parent_folder_id;
  revision = 1;
  has_geometry = false;
  focus_anchor = some (whole_number 0, whole_number 24, whole_number 0);
  hierarchy = leaf;
  animations = [];
  stats = record { bones = 0; cubes = 0 };
  texture_sources = [];
  textures = [];
  project_lock = none;
  active_job = none;
}

-- A snapshot is stored and shown.
unfoldable pub store_project : Text → Project → State → State
store_project project_id p s =
    append_project_snapshot_event (record s { projects = set project_id p s.projects }) p

-- A snapshot from before workspaces joins the workspace.
adopt_project : Text → Text → Project → State → Project × State
adopt_project project_id workspace_id p s = elim (non_empty p.workspace_id) [
  | some known ↦ (p, s)
  | none ↦
      let synced = synchronize_project_snapshot (record p { workspace_id = some workspace_id }) in
      let p' = record synced { revision = synced.revision + 1 } in
      (p', store_project project_id p' s)
]

add_project : Text → Text → State → Project × State
unfolding create_default_project
add_project project_id workspace_id s =
    let p =
      synchronize_project_snapshot
        (create_default_project project_id project_id none workspace_id) in
    (
      p,
      store_project project_id p (record s {
        root_children = s.root_children ++ record { kind = project; id = project_id } ∷ [];
      }),
    )

unfoldable pub ensure_project : Text → Option Text → State → Result Project × State
unfolding adopt_project add_project require_workspace_id
ensure_project project_id workspace_id s = elim (require_workspace_id workspace_id) [
  | throw e ↦ (throw e, s)
  | ok workspace ↦ elim (get project_id s.projects) [
    | some existing ↦ let (p, s') = adopt_project project_id workspace existing s in (ok p, s')
    | none ↦ let (p, s') = add_project project_id workspace s in (ok p, s')
  ]
]
