-- ===== src/Pipeline/Projects/Folders/Removal.antt =====
-- projectRepository.ts: `deleteFolder`. Its loop is given a number of rounds.
use bbmcp.Prelude.{ℕ, List, [], ◌∷◌, Bool, true, false, Option, none, some}
use bbmcp.Prelude.Text.{Text}
use bbmcp.Prelude.Dict.{Dict, get, delete}
use bbmcp.Pipeline.Model.{Result, ok, throw}
use bbmcp.Pipeline.State.{folder, Folder, State}
use bbmcp.Pipeline.Tree.{detach_from_parent}
use bbmcp.Pipeline.Tree.Walks.{collect_folder_subtree, collect_projects_in_folders}
use bbmcp.Pipeline.Projects.Editing.{places, with_places, remove_project_internal}

-- The loop over the projects ends at the first that throws.
unfoldable pub remove_projects : List Text → State → Result (Unit {0}) × State
unfolding remove_project_internal
remove_projects [] s = (ok tt, s)
remove_projects (id ∷ ids) s =
    let (removed, s') = remove_project_internal id s in
    elim removed [ throw e ↦ (throw e, s') | ok _ ↦ remove_projects ids s' ]

unfoldable pub delete_folders : List Text → Dict Folder → Dict Folder
delete_folders [] folders = folders
delete_folders (id ∷ ids) folders = delete_folders ids (delete id folders)

abbrev pub delete_emptied : List Text → Result (Unit {0}) × State → Result Bool × State
delete_emptied ids (throw e, s) = (throw e, s)
delete_emptied ids (ok _, s) = (ok true, record s { folders = delete_folders ids s.folders })

unfoldable pub delete_folder : ℕ → Text → State → Option (Result Bool × State)
unfolding detach_from_parent collect_folder_subtree collect_projects_in_folders remove_projects
    delete_folders
delete_folder rounds id s = elim (get id s.folders) [
  | none ↦ some (ok false, s)
  | some f ↦ elim (detach_from_parent folder f.folder_id f.parent_folder_id (places s)) [
    | throw e ↦ some (throw e, s)
    | ok detached ↦
        let s1 = with_places s detached in
        elim (collect_folder_subtree rounds s1.folders id) [
          | none ↦ none
          | some ids ↦
              some (
                delete_emptied ids
                  (remove_projects (collect_projects_in_folders s1.folders ids) s1))
        ]
  ]
]
