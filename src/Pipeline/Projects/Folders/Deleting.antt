-- ===== src/Pipeline/Projects/Folders/Deleting.antt =====
-- projectRepository.ts: `deleteFolder` leaves the folders a acyclic.
use bbmcp.Prelude.{ℕ, inl, inr, List, [], ◌∷◌, Option-cases}
use bbmcp.Prelude.Text.{Text}
use bbmcp.Prelude.Dict.{Dict, get, delete}
use bbmcp.Pipeline.Model.{Result, ok, throw}
use bbmcp.Pipeline.State.{folder, project, Folder, State}
use bbmcp.Pipeline.State.Throwing.{Result-cases}
use bbmcp.Pipeline.Tree.{detach_from_parent}
use bbmcp.Pipeline.Tree.Walks.{collect_folder_subtree, collect_projects_in_folders}
use bbmcp.Pipeline.Projects.Editing.{
  places, with_places, remove_project_jobs, remove_project_internal,
}
use bbmcp.Pipeline.Projects.Folders.Removal.{
  remove_projects, delete_folders, delete_emptied, delete_folder,
}
use bbmcp.Pipeline.Projects.Folders.Acyclic.{
  Thins, Thins-same, Thins-trans, Thins-delete, IsAcyclic-Thins,
}
use bbmcp.Pipeline.Projects.Folders.Keeps.{detach_from_parent-Thins}
use bbmcp.Pipeline.Projects.Folders.Attaching.{Leaves, Acyclic}

pub remove_project_internal-Thins :
    (id : Text) (s : State) → Thins s.folders (remove_project_internal id s).1.folders
unfolding remove_project_internal remove_project_jobs
remove_project_internal-Thins id s = elim (Option-cases (get id s.projects)) [
  | inl absent ↦ rw (remove_project_internal, absent) (Thins-same s.folders)
  | inr (p, found) ↦
      elim (Result-cases (detach_from_parent project p.project_id p.parent_folder_id (places s))) [
        | inl (e, thrown) ↦ rw (remove_project_internal, found, thrown) (Thins-same s.folders)
        | inr (detached, out) ↦
            rw (remove_project_internal, found, out)
              (detach_from_parent-Thins project p.project_id p.parent_folder_id (places s) detached
                out)
      ]
]

remove_projects-Thins :
    (ids : List Text) (s : State) → Thins s.folders (remove_projects ids s).1.folders
unfolding remove_projects
remove_projects-Thins [] s = Thins-same s.folders
remove_projects-Thins (id ∷ ids) s =
    let s' = (remove_project_internal id s).1 in
    let first = remove_project_internal-Thins id s in
    elim (Result-cases (remove_project_internal id s).0) [
      | inl (e, thrown) ↦ rw (remove_projects, thrown) first
      | inr (u, removed) ↦
          rw (remove_projects, removed)
            (Thins-trans s.folders s'.folders _ first (remove_projects-Thins ids s'))
    ]

delete_folders-Thins :
    (ids : List Text) (folders : Dict Folder) → Thins folders (delete_folders ids folders)
unfolding delete_folders
delete_folders-Thins [] folders = Thins-same folders
delete_folders-Thins (id ∷ ids) folders =
    Thins-trans folders (delete id folders) _ (Thins-delete folders id)
      (delete_folders-Thins ids (delete id folders))

delete_emptied-Acyclic :
    (ids : List Text) (r : Result (Unit {0}) × State)
    → Acyclic r.1
    → Acyclic (delete_emptied ids r).1
delete_emptied-Acyclic ids (throw e, s) h = h
delete_emptied-Acyclic ids (ok u, s) h =
    IsAcyclic-Thins s.folders _ h (delete_folders-Thins ids s.folders)

module _ (s : State) (h : Acyclic s) where
  pub delete_folder-IsAcyclic :
      (rounds : ℕ) (id : Text) → Leaves Acyclic (delete_folder rounds id s)
  unfolding delete_folder
  delete_folder-IsAcyclic rounds id = elim (Option-cases (get id s.folders)) [
    | inl absent ↦ rw (delete_folder, absent) h
    | inr (f, found) ↦
        elim (Result-cases (detach_from_parent folder f.folder_id f.parent_folder_id (places s))) [
          | inl (e, thrown) ↦ rw (delete_folder, found, thrown) h
          | inr (detached, out) ↦
              let h1 = IsAcyclic-Thins s.folders detached.0 h (
                detach_from_parent-Thins folder f.folder_id f.parent_folder_id (places s) detached
                  out) in
              let s1 = with_places s detached in
              elim (Option-cases (collect_folder_subtree rounds detached.0 id)) [
                | inl over ↦ rw (delete_folder, found, out, over) tt
                | inr (ids, collected) ↦
                    let projects = collect_projects_in_folders detached.0 ids in
                    rw (delete_folder, found, out, collected)
                      (delete_emptied-Acyclic ids (remove_projects projects s1)
                        (IsAcyclic-Thins s1.folders _ h1 (remove_projects-Thins projects s1)))
              ]
        ]
  ]
