-- ===== src/Pipeline/Projects/Views.antt =====
-- projectRepository.ts: `listProjects` and `getProjectTree`. `toLowerCase` is a parameter.
pub mod Ending
use bbmcp.Prelude.{
  ℕ, zero, suc, ◌+◌, List, [], ◌∷◌, Bool, true, false, ◌&&◌, ◌||◌, not, Option, none, some,
  if◌then◌else◌, nat_eq,
}
use bbmcp.Prelude.Text.{Text, trim, is_empty}
use bbmcp.Prelude.Dict.{Dict, get}
use bbmcp.Pipeline.State.{
  JobStatus, folder, project, ChildRef, Lock, ActiveJob, Folder, Project, State, clone_project,
}

-- `s.startsWith(q)` and `s.includes(q)`.
unfoldable pub starts_with : Text → Text → Bool
starts_with s [] = true
starts_with [] (d ∷ q) = false
starts_with (c ∷ s) (d ∷ q) = nat_eq c d && starts_with s q

unfoldable pub contains : Text → Text → Bool
unfolding starts_with
contains [] q = is_empty q
contains (c ∷ s) q = starts_with (c ∷ s) q || contains s q

pub data TreeLock : Type 0 where
  unlocked locked_by_self locked_by_other : TreeLock

pub record ProjectNode : Type 0 where
  pub project_id : Text
  pub name : Text
  pub parent_folder_id : Option Text
  pub depth : ℕ
  pub active_job_status : Option JobStatus
  pub lock_state : TreeLock
  pub locked_by_self : Bool
  pub lock_owner_agent_id : Option Text

-- `folder_node id name parent depth children`.
mutual
  pub data TreeNode : Type 0 where
    folder_node : Text → Text → Option Text → ℕ → TreeNodes → TreeNode
    project_node : ProjectNode → TreeNode

  pub data TreeNodes : Type 0 where
    no_nodes : TreeNodes
    node_before : TreeNode → TreeNodes → TreeNodes

abbrev has_nodes : TreeNodes → Bool
has_nodes no_nodes = false
has_nodes (node_before node nodes) = true

abbrev lock_state_of : Option Lock → TreeLock
lock_state_of none = unlocked
lock_state_of (some lock) = locked_by_other

abbrev owner_of_lock : Option Lock → Option Text
owner_of_lock none = none
owner_of_lock (some lock) = some lock.owner_agent_id

abbrev status_of : Option ActiveJob → Option JobStatus
status_of none = none
status_of (some job) = some job.status

unfoldable pub project_node_of : Project → ℕ → ProjectNode
project_node_of p depth = record {
  project_id = p.project_id;
  name = p.name;
  parent_folder_id = p.parent_folder_id;
  depth = depth;
  active_job_status = status_of p.active_job;
  lock_state = lock_state_of p.project_lock;
  locked_by_self = false;
  lock_owner_agent_id = owner_of_lock p.project_lock;
}

module _ (lower : Text → Text) where
  unfoldable pub normalize_query : Option Text → Text
  normalize_query none = []
  normalize_query (some query) = lower (trim query)

  -- A name or an identifier has the query in it; the empty query fits all.
  unfoldable pub matches : Text → Text → Text → Bool
  unfolding contains
  matches query name id = is_empty query || contains (lower name) query || contains (lower id) query

  unfoldable pub list_matching : Text → Dict Project → List Project
  unfolding matches clone_project
  list_matching query [] = []
  list_matching query ((k, p) ∷ projects) =
      let rest = list_matching query projects in
      if matches query p.project_id p.name then clone_project p ∷ rest else rest

  unfoldable pub list_projects : Option Text → State → List Project
  unfolding normalize_query list_matching
  list_projects query s = list_matching (normalize_query query) s.projects

  module _ (s : State) (query : Text) where
    abbrev folder_before : Folder → ℕ → TreeNodes → TreeNodes → TreeNodes
    folder_before f depth children rest =
        if matches query f.name f.folder_id || has_nodes children
        then node_before (folder_node f.folder_id f.name f.parent_folder_id depth children) rest
        else rest

    abbrev project_before : Option Project → ℕ → TreeNodes → TreeNodes
    project_before none depth rest = rest
    project_before (some p) depth rest =
        if matches query p.name p.project_id
        then node_before (project_node (project_node_of p depth)) rest
        else rest

    -- The nodes of some children, by a function that builds those of a folder's.
    unfoldable pub build_each :
        (List ChildRef → ℕ → Option TreeNodes) → ℕ → List ChildRef → Option TreeNodes
    unfolding matches project_node_of
    build_each below depth [] = some no_nodes
    build_each below depth (child ∷ children) =
        let rest = build_each below depth children in
        elim rest [
          | none ↦ none
          | some nodes ↦ elim child.kind [
            | project ↦ some (project_before (get child.id s.projects) depth nodes)
            | folder ↦ elim (get child.id s.folders) [
              | none ↦ some nodes
              | some f ↦ elim (below f.children (depth + 1)) [
                | none ↦ none
                | some inner ↦ some (folder_before f depth inner nodes)
              ]
            ]
          ]
        ]

    unfoldable pub build_tree_nodes : ℕ → List ChildRef → ℕ → Option TreeNodes
    unfolding build_each
    build_tree_nodes zero children depth = none
    build_tree_nodes (suc rounds) children depth =
        build_each (build_tree_nodes rounds) depth children

  unfoldable pub get_project_tree : ℕ → Option Text → State → Option TreeNodes
  unfolding build_tree_nodes normalize_query
  get_project_tree rounds query s =
      build_tree_nodes s (normalize_query query) rounds s.root_children 1
