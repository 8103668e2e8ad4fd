-- ===== src/Pipeline/Projects/Folders/Hosting.antt =====
-- projectRepository.ts: the operations that create, move and delete a project leave the folders that
-- hold it a acyclic.
use bbmcp.Prelude.{ℕ, ◌≡◌, refl, inl, inr, ◌++◌, Option, Bool-cases, Option-cases}
use bbmcp.Prelude.Text.{Text, text}
use bbmcp.Prelude.Dict.{get, has}
use bbmcp.Prelude.Number.{Number}
use bbmcp.Pipeline.State.{project, Project, State}
use bbmcp.Pipeline.State.Throwing.{Result-cases}
use bbmcp.Pipeline.Events.{append_project_snapshot_event}
use bbmcp.Pipeline.Tree.{
  find_container_children, detach_from_parent, normalize_parent_folder_id,
  ensure_target_folder_exists,
}
use bbmcp.Pipeline.Projects.{store_project, require_workspace_id}
use bbmcp.Pipeline.Projects.Editing.{
  places, with_places, remove_project_internal, delete_project, adjusted_index, attach_moved,
  move_found, move_project,
}
use bbmcp.Pipeline.Projects.Folders.{attach_project, compute_entity_id, create_project}
use bbmcp.Pipeline.Projects.Folders.Acyclic.{IsAcyclic-Thins}
use bbmcp.Pipeline.Projects.Folders.Keeps.{detach_from_parent-Thins, insert_project-Thins}
use bbmcp.Pipeline.Projects.Folders.Attaching.{Leaves, Acyclic}
use bbmcp.Pipeline.Projects.Folders.Deleting.{remove_project_internal-Thins}

store_project-folders :
    (id : Text) (p : Project) (s : State) → (store_project id p s).folders ≡ s.folders
unfolding store_project append_project_snapshot_event
store_project-folders id p s = refl

module _ (s : State) (h : Acyclic s) where
  pub delete_project-IsAcyclic : (id : Text) → Acyclic (delete_project id s).1
  unfolding delete_project
  delete_project-IsAcyclic id =
      let h' = IsAcyclic-Thins s.folders _ h (remove_project_internal-Thins id s) in
      elim (Bool-cases (has id s.projects)) [
        | inr absent ↦ rw (delete_project, absent) h
        | inl there ↦ elim (Result-cases (remove_project_internal id s).0) [
          | inl (e, thrown) ↦ rw (delete_project, there, thrown) h'
          | inr (u, removed) ↦ rw (delete_project, there, removed) h'
        ]
      ]

  attach_project-IsAcyclic :
      (p : Project) (parent : Option Text) (index : Option Number) (nonce : ℕ)
      → Acyclic (attach_project p parent index (record s { next_entity_nonce = nonce })).1
  unfolding attach_project
  attach_project-IsAcyclic p parent index nonce =
      elim (Result-cases (find_container_children (places s) parent)) [
        | inl (e, thrown) ↦ rw (attach_project, thrown) h
        | inr (children, inside) ↦
            rw (attach_project, inside, store_project-folders)
              (IsAcyclic-Thins s.folders _ h
                (insert_project-Thins (places s) parent children p.project_id index inside))
      ]

  pub create_project-IsAcyclic :
      (digest : Text → Text) (rounds : ℕ) (name : Text) (parent_id workspace_id : Option Text)
      (index : Option Number)
      → Leaves Acyclic (create_project digest rounds name parent_id workspace_id index s)
  unfolding create_project
  create_project-IsAcyclic digest rounds name parent_id workspace_id index =
      elim (Result-cases (ensure_target_folder_exists s.folders parent)) [
        | inl (e, thrown) ↦ rw (create_project, thrown) h
        | inr (u, there) ↦ elim (Result-cases (require_workspace_id workspace_id)) [
          | inl (e, thrown) ↦ rw (create_project, there, thrown) h
          | inr (workspace, known) ↦ elim (Option-cases (new_id workspace)) [
            | inl over ↦ rw (create_project, there, known, over) tt
            | inr ((id, nonce), made) ↦
                rw (create_project, there, known, made)
                  (attach_project-IsAcyclic _ parent index nonce)
          ]
        ]
      ]
    where
      parent : Option Text
      parent = normalize_parent_folder_id parent_id

      new_id : Text → Option (Text × ℕ)
      new_id workspace =
          compute_entity_id digest (λ x. has x s.projects) (text "prj")
            (text "project:" ++ workspace) rounds s.next_entity_nonce

  attach_moved-IsAcyclic :
      (id : Text) (p : Project) (parent : Option Text) (index : Option Number) (v : State)
      → Acyclic v
      → Acyclic (attach_moved id p parent index v).1
  unfolding attach_moved
  attach_moved-IsAcyclic id p parent index v k =
      elim (Result-cases (find_container_children (places v) parent)) [
        | inl (e, thrown) ↦ rw (attach_moved, thrown) k
        | inr (children, inside) ↦
            rw (attach_moved, inside, store_project-folders)
              (IsAcyclic-Thins v.folders _ k
                (insert_project-Thins (places v) parent children p.project_id index inside))
      ]

  move_found-IsAcyclic :
      (id : Text) (p : Project) (parent : Option Text) (index : Option Number)
      → Acyclic (move_found id p parent index s).1
  unfolding move_found
  move_found-IsAcyclic id p parent index =
      elim (Result-cases (ensure_target_folder_exists s.folders parent)) [
        | inl (e, thrown) ↦ rw (move_found, thrown) h
        | inr (u, there) ↦ elim (Result-cases (adjusted_index p parent index (places s))) [
          | inl (e, thrown) ↦ rw (move_found, there, thrown) h
          | inr (index', adjusted) ↦
              elim (Result-cases
                (detach_from_parent project p.project_id p.parent_folder_id (places s))) [
                  | inl (e, thrown) ↦ rw (move_found, there, adjusted, thrown) h
                  | inr (detached, out) ↦
                      rw (move_found, there, adjusted, out)
                        (attach_moved-IsAcyclic id p parent index' (with_places s detached) (
                          IsAcyclic-Thins s.folders detached.0 h (
                            detach_from_parent-Thins project p.project_id p.parent_folder_id
                              (places s) detached out)))
                ]
        ]
      ]

  pub move_project-IsAcyclic :
      (id : Text) (parent : Option Text) (index : Option Number)
      → Acyclic (move_project id parent index s).1
  unfolding move_project
  move_project-IsAcyclic id parent index = elim (Option-cases (get id s.projects)) [
    | inl absent ↦ rw (move_project, absent) h
    | inr (p, found) ↦
        rw (move_project, found)
          (move_found-IsAcyclic id p (normalize_parent_folder_id parent) index)
  ]
