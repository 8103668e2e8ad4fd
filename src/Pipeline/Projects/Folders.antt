-- ===== src/Pipeline/Projects/Folders.antt =====
-- projectRepository.ts: `createFolder`, `renameFolder`, `moveFolder` and `createProject`;
-- `deleteFolder` stands in Removal. The source's unbounded loops are given a number of rounds; the
-- answer is `none` where these run out. The first twelve digits of a SHA-256 digest are a function of
-- the text.
pub mod Removal
pub mod Acyclic
pub mod Links
pub mod Unlisting
pub mod Listing
pub mod Linking
pub mod Unlinking
pub mod Housing
pub mod OneParent
pub mod Keeps
pub mod Attaching
pub mod Creating
pub mod Moving
pub mod Deleting
pub mod Hosting
pub mod Retains
pub mod Emptied
pub mod Calls
use bbmcp.Prelude.{
  ℕ, zero, suc, ◌+◌, List, [], ◌∷◌, ◌++◌, Bool, true, false, Option, none, some, if◌then◌else◌,
}
use bbmcp.Prelude.Text.{Text, text, ◌==◌}
use bbmcp.Prelude.Dict.{Dict, get, has, set, delete}
use bbmcp.Prelude.Number.{Number}
use bbmcp.Pipeline.Model.{Result, ok, throw, move_into_self, move_into_descendant}
use bbmcp.Pipeline.State.{
  folder, project, ChildRef, Folder, Project, State, non_empty, decimal, clone_project,
}
use bbmcp.Pipeline.Sync.{synchronize_project_snapshot}
use bbmcp.Pipeline.Tree.{
  Places, normalize_parent_folder_id, find_container_children, put_container_children,
  insert_child_ref, resolve_reorder_insert_index, detach_from_parent, ensure_target_folder_exists,
  ensure_folder_depth_limit,
}
use bbmcp.Pipeline.Tree.Walks.{
  get_subtree_folder_height, is_folder_descendant, collect_folder_subtree,
  collect_projects_in_folders,
}
use bbmcp.Pipeline.Projects.{require_workspace_id, create_default_project, store_project}
use bbmcp.Pipeline.Projects.Editing.{
  normalize_name, same_parent, places, with_places, remove_project_internal,
}

-- `computeEntityId`, over the identifiers that are taken: a new one, and the next nonce.
unfoldable pub compute_entity_id :
    (Text → Text) → (Text → Bool) → Text → Text → ℕ → ℕ → Option (Text × ℕ)
unfolding decimal
compute_entity_id digest taken prefix seed zero nonce = none
compute_entity_id digest taken prefix seed (suc rounds) nonce =
    let source = prefix ++ text ":" ++ decimal nonce ++ text ":" ++ seed in
    let candidate = prefix ++ text "_" ++ digest source in
    elim (taken candidate) [
      | true ↦ compute_entity_id digest taken prefix seed rounds (nonce + 1)
      | false ↦ some (candidate, nonce + 1)
    ]

abbrev pub parent_or_root : Option Text → Text
parent_or_root none = text "root"
parent_or_root (some id) = id

abbrev pub new_folder : Text → Text → Option Text → Folder
new_folder id name parent = record {
  folder_id = id;
  name = name;
  parent_folder_id = parent;
  children = [];
}

-- The new folder is in the table; it goes among the children of its parent.
unfoldable pub attach_folder : Folder → Option Text → Option Number → State → Result Folder × State
unfolding find_container_children put_container_children insert_child_ref
attach_folder f parent index s = elim (find_container_children (places s) parent) [
  | throw e ↦ (throw e, s)
  | ok children ↦
      let entry : ChildRef = record { kind = folder; id = f.folder_id } in
      (
        ok f,
        with_places s
            (put_container_children (places s) parent (insert_child_ref children entry index)),
      )
]

unfoldable pub create_folder :
    (Text → Text) → ℕ → Text → Option Text → Option Number → State → Option (Result Folder × State)
unfolding ensure_target_folder_exists ensure_folder_depth_limit compute_entity_id normalize_name
create_folder digest rounds name parent_id index s =
    let parent = normalize_parent_folder_id parent_id in
    elim (ensure_target_folder_exists s.folders parent) [
      | throw e ↦ some (throw e, s)
      | ok _ ↦ elim (ensure_folder_depth_limit s.folders parent 1) [
        | throw e ↦ some (throw e, s)
        | ok _ ↦
            let normalized = normalize_name name (text "New Folder") in
            let seed = parent_or_root parent ++ text ":" ++ normalized in
            let taken : Text → Bool = λ id. has id s.folders in
            elim (compute_entity_id digest taken (text "fld") seed rounds s.next_entity_nonce) [
              | none ↦ none
              | some (id, nonce) ↦
                  let f = new_folder id normalized parent in
                  some (
                    attach_folder f parent index
                      (record s { next_entity_nonce = nonce; folders = set id f s.folders }))
            ]
      ]
    ]

unfoldable pub rename_folder : Text → Text → State → Option Folder × State
unfolding normalize_name
rename_folder id next_name s = elim (get id s.folders) [
  | none ↦ (none, s)
  | some f ↦
      let f' = record f { name = normalize_name next_name f.name } in
      (some f', record s { folders = set id f' s.folders })
]

-- `parentFolderId === folder.folderId`.
abbrev pub is_parent : Option Text → Text → Bool
is_parent none id = false
is_parent (some parent) id = parent == id

-- `parentFolderId && isFolderDescendant(…)`.
abbrev pub is_below : Dict Folder → Text → Option Text → Result Bool
is_below folders id none = ok false
is_below folders id (some parent) = is_folder_descendant folders id parent

unfoldable pub adjusted_folder_index :
    Folder → Option Text → Option Number → Places → Result (Option Number)
unfolding find_container_children resolve_reorder_insert_index
adjusted_folder_index f parent index at =
    if same_parent f.parent_folder_id parent
    then (elim (find_container_children at f.parent_folder_id) [
      | throw e ↦ throw e
      | ok children ↦ ok (resolve_reorder_insert_index children folder f.folder_id index)
    ])
    else ok index

-- The folder in the table is changed in place.
abbrev pub set_parent : Text → Option Text → Dict Folder → Dict Folder
set_parent id parent folders = elim (get id folders) [
  | none ↦ folders
  | some f ↦ set id (record f { parent_folder_id = parent }) folders
]

-- The folder is out of its old parent; it goes into the new one.
unfoldable pub attach_moved_folder :
    Text → Text → Option Text → Option Number → Places → Result Places
unfolding find_container_children put_container_children insert_child_ref
attach_moved_folder key id parent index at = elim (find_container_children at parent) [
  | throw e ↦ throw e
  | ok children ↦
      let entry : ChildRef = record { kind = folder; id = id } in
      let (folders, root) =
        put_container_children at parent (insert_child_ref children entry index) in
      ok (set_parent key parent folders, root)
]

-- The detaching and the attaching; a detachment stays where the attaching throws.
unfoldable pub relocate_folder :
    Text → Folder → Option Text → Option Number → State → Result (Option Folder) × State
unfolding detach_from_parent attach_moved_folder
relocate_folder key f parent index s =
    elim (detach_from_parent folder f.folder_id f.parent_folder_id (places s)) [
      | throw e ↦ (throw e, s)
      | ok detached ↦ elim (attach_moved_folder key f.folder_id parent index detached) [
        | throw e ↦ (throw e, with_places s detached)
        | ok moved ↦ (ok (get key moved.0), with_places s moved)
      ]
    ]

-- The guards of `moveFolder` have passed, and the subtree is measured.
unfoldable pub move_measured_folder :
    Text → Folder → Option Text → Option Number → State → ℕ → Result (Option Folder) × State
unfolding ensure_folder_depth_limit adjusted_folder_index relocate_folder
move_measured_folder key f parent index s height =
    elim (ensure_folder_depth_limit s.folders parent height) [
      | throw e ↦ (throw e, s)
      | ok _ ↦ elim (adjusted_folder_index f parent index (places s)) [
        | throw e ↦ (throw e, s)
        | ok index' ↦ relocate_folder key f parent index' s
      ]
    ]

unfoldable pub move_checked_folder :
    ℕ
    → Text
    → Folder
    → Option Text
    → Option Number
    → State
    → Option (Result (Option Folder) × State)
unfolding get_subtree_folder_height move_measured_folder
move_checked_folder rounds key f parent index s =
    elim (get_subtree_folder_height rounds s.folders f.folder_id) [
      | none ↦ none
      | some height ↦ some (move_measured_folder key f parent index s height)
    ]

unfoldable pub move_found_folder :
    ℕ
    → Text
    → Folder
    → Option Text
    → Option Number
    → State
    → Option (Result (Option Folder) × State)
unfolding ensure_target_folder_exists move_checked_folder
move_found_folder rounds key f parent index s =
    if is_parent parent f.folder_id
    then some (throw move_into_self, s)
    else (elim (ensure_target_folder_exists s.folders parent) [
      | throw e ↦ some (throw e, s)
      | ok _ ↦ elim (is_below s.folders f.folder_id parent) [
        | throw e ↦ some (throw e, s)
        | ok true ↦ some (throw move_into_descendant, s)
        | ok false ↦ move_checked_folder rounds key f parent index s
      ]
    ])

unfoldable pub move_folder :
    ℕ → Text → Option Text → Option Number → State → Option (Result (Option Folder) × State)
unfolding move_found_folder
move_folder rounds id parent index s = elim (get id s.folders) [
  | none ↦ some (ok none, s)
  | some f ↦ move_found_folder rounds id f (normalize_parent_folder_id parent) index s
]

-- The new project is in the table; it goes among the children of its parent and is shown.
unfoldable pub attach_project :
    Project → Option Text → Option Number → State → Result Project × State
unfolding find_container_children put_container_children insert_child_ref
attach_project p parent index s = elim (find_container_children (places s) parent) [
  | throw e ↦ (throw e, record s { projects = set p.project_id p s.projects })
  | ok children ↦
      let entry : ChildRef = record { kind = project; id = p.project_id } in
      let at = put_container_children (places s) parent (insert_child_ref children entry index) in
      (ok (clone_project p), store_project p.project_id p (with_places s at))
]

unfoldable pub create_project :
    (Text → Text)
    → ℕ
    → Text
    → Option Text
    → Option Text
    → Option Number
    → State
    → Option (Result Project × State)
unfolding ensure_target_folder_exists require_workspace_id compute_entity_id create_default_project
    normalize_name
create_project digest rounds name parent_id workspace_id index s =
    let parent = normalize_parent_folder_id parent_id in
    elim (ensure_target_folder_exists s.folders parent) [
      | throw e ↦ some (throw e, s)
      | ok _ ↦ elim (require_workspace_id workspace_id) [
        | throw e ↦ some (throw e, s)
        | ok workspace ↦
            let taken : Text → Bool = λ id. has id s.projects in
            let seed = text "project:" ++ workspace in
            elim (compute_entity_id digest taken (text "prj") seed rounds s.next_entity_nonce) [
              | none ↦ none
              | some (id, nonce) ↦
                  let p = synchronize_project_snapshot (
                    create_default_project id (normalize_name name (text "My Project")) parent
                      workspace) in
                  some (attach_project p parent index (record s { next_entity_nonce = nonce }))
            ]
      ]
    ]
