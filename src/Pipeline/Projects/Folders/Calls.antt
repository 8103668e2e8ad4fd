-- ===== src/Pipeline/Projects/Folders/Calls.antt =====
-- projectRepository.ts: the operations on the tree of a workspace, one after another, and that they end.
use bbmcp.Prelude.{
  ℕ, Bool, ◌≡◌, refl, inl, inr, true, false, Option, none, some, arith, Bool-cases, Option-cases,
}
use bbmcp.Prelude.Text.{Text}
use bbmcp.Prelude.Dict.{get}
use bbmcp.Prelude.Number.{Number}
use bbmcp.Pipeline.Model.{Result, ok, throw, move_into_self, move_into_descendant}
use bbmcp.Pipeline.State.{folder, Folder, Project, State, empty_state}
use bbmcp.Pipeline.State.Throwing.{Result-cases}
use bbmcp.Pipeline.Events.{append_project_snapshot_event}
use bbmcp.Pipeline.Tree.{
  detach_from_parent, normalize_parent_folder_id, ensure_target_folder_exists,
}
use bbmcp.Pipeline.Tree.Walks.{collect_projects_in_folders}
use bbmcp.Pipeline.Tree.Edges.{grounded}
use bbmcp.Pipeline.Tree.Ending.{Ends, get_subtree_folder_height-Ends}
use bbmcp.Pipeline.Tree.Collecting.{collect_folder_subtree-Ends}
use bbmcp.Pipeline.Projects.{store_project}
use bbmcp.Pipeline.Projects.Editing.{
  places, with_places, rename_project, move_project, delete_project,
}
use bbmcp.Pipeline.Projects.Folders.{
  create_folder, rename_folder, is_parent, is_below, move_measured_folder, move_checked_folder,
  move_found_folder, move_folder, create_project,
}
use bbmcp.Pipeline.Projects.Folders.Removal.{remove_projects, delete_emptied, delete_folder}
use bbmcp.Pipeline.Projects.Folders.Acyclic.{IsAcyclic, IsAcyclic-Thins}
use bbmcp.Pipeline.Projects.Folders.Keeps.{detach_from_parent-Thins}
use bbmcp.Pipeline.Projects.Folders.Attaching.{Leaves, Acyclic}
use bbmcp.Pipeline.Projects.Folders.Creating.{create_folder-IsAcyclic, rename_folder-IsAcyclic}
use bbmcp.Pipeline.Projects.Folders.Moving.{move_folder-IsAcyclic}
use bbmcp.Pipeline.Projects.Folders.Deleting.{delete_folder-IsAcyclic}
use bbmcp.Pipeline.Projects.Folders.Hosting.{
  create_project-IsAcyclic, move_project-IsAcyclic, delete_project-IsAcyclic,
}

-- A call, whatever it answers, also one that throws; a loop that is given rounds comes to its end.
pub data TreeStep (digest : Text → Text) (s : State) : State → Type 0 where
  folder_created :
      {t : State} (rounds : ℕ) (name : Text) (parent : Option Text) (index : Option Number)
      (r : Result Folder)
      → create_folder digest rounds name parent index s ≡ some (r, t)
      → TreeStep digest s t
  folder_renamed : (id name : Text) → TreeStep digest s (rename_folder id name s).1
  folder_moved :
      {t : State} (rounds : ℕ) (id : Text) (parent : Option Text) (index : Option Number)
      (r : Result (Option Folder))
      → move_folder rounds id parent index s ≡ some (r, t)
      → TreeStep digest s t
  folder_deleted :
      {t : State} (rounds : ℕ) (id : Text) (r : Result Bool)
      → delete_folder rounds id s ≡ some (r, t)
      → TreeStep digest s t
  project_created :
      {t : State} (rounds : ℕ) (name : Text) (parent workspace : Option Text)
      (index : Option Number) (r : Result Project)
      → create_project digest rounds name parent workspace index s ≡ some (r, t)
      → TreeStep digest s t
  project_renamed : (id name : Text) → TreeStep digest s (rename_project id name s).1
  project_moved :
      (id : Text) (parent : Option Text) (index : Option Number)
      → TreeStep digest s (move_project id parent index s).1
  project_deleted : (id : Text) → TreeStep digest s (delete_project id s).1

-- What calls in a row make of a new workspace.
pub data IsReached (digest : Text → Text) (workspace_id : Text) : State → Type 0 where
  at_first : IsReached digest workspace_id (empty_state workspace_id)
  next :
      {s t : State}
      → IsReached digest workspace_id s
      → TreeStep digest s t
      → IsReached digest workspace_id t

pub rename_project-folders :
    (id name : Text) (s : State) → (rename_project id name s).1.folders ≡ s.folders
unfolding rename_project store_project append_project_snapshot_event
rename_project-folders id name s = ground arith

at_end {ℓ} :
    {A : Type ℓ} (o : Option (A × State)) (a : A) (t : State)
    → o ≡ some (a, t)
    → Leaves Acyclic o
    → Acyclic t
at_end o a t e h = rw e at h

TreeStep-IsAcyclic :
    (digest : Text → Text) (s t : State) → TreeStep digest s t → Acyclic s → Acyclic t
TreeStep-IsAcyclic digest s t (folder_created rounds name parent index r e) h =
    at_end _ r t e (create_folder-IsAcyclic s h digest rounds name parent index)
TreeStep-IsAcyclic digest s _ (folder_renamed id name) h = rename_folder-IsAcyclic s h id name
TreeStep-IsAcyclic digest s t (folder_moved rounds id parent index r e) h =
    at_end _ r t e (move_folder-IsAcyclic s h rounds id parent index)
TreeStep-IsAcyclic digest s t (folder_deleted rounds id r e) h =
    at_end _ r t e (delete_folder-IsAcyclic s h rounds id)
TreeStep-IsAcyclic digest s t (project_created rounds name parent workspace index r e) h =
    at_end _ r t e (create_project-IsAcyclic s h digest rounds name parent workspace index)
TreeStep-IsAcyclic digest s _ (project_renamed id name) h = rw (rename_project-folders id name s) h
TreeStep-IsAcyclic digest s _ (project_moved id parent index) h =
    move_project-IsAcyclic s h id parent index
TreeStep-IsAcyclic digest s _ (project_deleted id) h = delete_project-IsAcyclic s h id

empty_state-IsAcyclic : (workspace_id : Text) → Acyclic (empty_state workspace_id)
unfolding get
empty_state-IsAcyclic workspace_id = record {
  unnamed = refl;
  named = λ id f e. cc;
  ends = λ id. grounded (λ b (f, found, child). absurd cc);
}

-- Whatever is called, no way down by way of children comes back.
pub IsReached-IsAcyclic :
    (digest : Text → Text) (workspace_id : Text) (s : State)
    → IsReached digest workspace_id s
    → IsAcyclic s.folders
IsReached-IsAcyclic digest workspace_id _ at_first = empty_state-IsAcyclic workspace_id
IsReached-IsAcyclic digest workspace_id _ (next {s} {t} reached step) =
    TreeStep-IsAcyclic digest s t step (IsReached-IsAcyclic digest workspace_id s reached)

at_every {ℓ} : {A : Type ℓ} (loop : ℕ → Option A) (a : A) → ((m : ℕ) → loop m ≡ some a) → Ends loop
at_every loop a h = (0, a, λ m le. h m)

module _ (s : State) (h : Acyclic s) where
  move_checked_folder-Ends :
      (key : Text) (f : Folder) (parent : Option Text) (index : Option Number)
      → Ends (λ rounds. move_checked_folder rounds key f parent index s)
  unfolding move_checked_folder
  move_checked_folder-Ends key f parent index =
      let (n, height, ends) =
        get_subtree_folder_height-Ends s.folders f.folder_id (h.ends f.folder_id) in
      (
        n,
        move_measured_folder key f parent index s height,
        λ m le. rw (move_checked_folder, ends m le) refl,
      )

  move_found_folder-Ends :
      (key : Text) (f : Folder) (parent : Option Text) (index : Option Number)
      → Ends (λ rounds. move_found_folder rounds key f parent index s)
  unfolding move_found_folder
  move_found_folder-Ends key f parent index = elim (Bool-cases (is_parent parent f.folder_id)) [
    | inl self ↦ at_every _ (throw move_into_self, s) (λ m. rw (move_found_folder, self) refl)
    | inr other ↦ elim (Result-cases (ensure_target_folder_exists s.folders parent)) [
      | inl (e, thrown) ↦ at_every _ (throw e, s) (λ m. rw (move_found_folder, other, thrown) refl)
      | inr (u, there) ↦ elim (Result-cases (is_below s.folders f.folder_id parent)) [
        | inl (e, thrown) ↦
            at_every _ (throw e, s) (λ m. rw (move_found_folder, other, there, thrown) refl)
        | inr (true, inside) ↦
            at_every _ (throw move_into_descendant, s)
              (λ m. rw (move_found_folder, other, there, inside) refl)
        | inr (false, outside) ↦
            let (n, a, ends) = move_checked_folder-Ends key f parent index in
            (n, a, λ m le. rw (move_found_folder, other, there, outside) (ends m le))
      ]
    ]
  ]

  -- Where the folders are acyclic `moveFolder` ends: from some number of rounds of its recursion on
  -- it gives one and the same answer and state.
  pub move_folder-Ends :
      (id : Text) (parent : Option Text) (index : Option Number)
      → Ends (λ rounds. move_folder rounds id parent index s)
  unfolding move_folder
  move_folder-Ends id parent index = elim (Option-cases (get id s.folders)) [
    | inl absent ↦ at_every _ (ok none, s) (λ m. rw (move_folder, absent) refl)
    | inr (f, found) ↦
        let (n, a, ends) = move_found_folder-Ends id f (normalize_parent_folder_id parent) index in
        (n, a, λ m le. rw (move_folder, found) (ends m le))
  ]

  -- Where the folders are acyclic `deleteFolder` ends: from some number of rounds of its loop on it
  -- gives one and the same answer and state.
  pub delete_folder-Ends : (id : Text) → Ends (λ rounds. delete_folder rounds id s)
  unfolding delete_folder
  delete_folder-Ends id = elim (Option-cases (get id s.folders)) [
    | inl absent ↦ at_every _ (ok false, s) (λ m. rw (delete_folder, absent) refl)
    | inr (f, found) ↦
        elim (Result-cases (detach_from_parent folder f.folder_id f.parent_folder_id (places s))) [
          | inl (e, thrown) ↦ at_every _ (throw e, s) (λ m. rw (delete_folder, found, thrown) refl)
          | inr (detached, out) ↦
              let thin =
                detach_from_parent-Thins folder f.folder_id f.parent_folder_id (places s) detached
                  out in
              let h1 = IsAcyclic-Thins s.folders detached.0 h thin in
              let (n, ids, ends, only) =
                collect_folder_subtree-Ends detached.0 id h1.unnamed (h1.ends id) in
              (
                n,
                delete_emptied ids (
                    remove_projects (collect_projects_in_folders detached.0 ids)
                      (with_places s detached)),
                λ m le. rw (delete_folder, found, out, ends m le) refl,
              )
        ]
  ]
