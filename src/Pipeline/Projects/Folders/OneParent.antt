-- ===== src/Pipeline/Projects/Folders/OneParent.antt =====
-- projectRepository.ts: the folders of a workspace are a forest.
use bbmcp.Prelude.{◌≡◌, Option, some}
use bbmcp.Prelude.Text.{Text}
use bbmcp.Prelude.Dict.{Dict, get}
use bbmcp.Pipeline.State.{Folder, State}
use bbmcp.Pipeline.Tree.Edges.{Edge}
use bbmcp.Pipeline.Projects.Folders.Acyclic.{IsAcyclic}
use bbmcp.Pipeline.Projects.Folders.Attaching.{Leaves, Acyclic}
use bbmcp.Pipeline.Projects.Folders.Links.{has_child-listed, IsLinked}
use bbmcp.Pipeline.Projects.Folders.Linking.{
  Linked, create_folder-Linked, rename_folder-Linked, move_folder-Linked,
}
use bbmcp.Pipeline.Projects.Folders.Unlinking.{delete_folder-Linked}
use bbmcp.Pipeline.Projects.Folders.Housing.{
  create_project-Linked, move_project-Linked, delete_project-Linked,
}
use bbmcp.Pipeline.Projects.Folders.Calls.{
  TreeStep, folder_created, folder_renamed, folder_moved, folder_deleted, project_created,
  project_renamed, project_moved, project_deleted, IsReached, at_first, next,
  rename_project-folders, IsReached-IsAcyclic,
}

-- The folders are acyclic, what one lists is a folder that records it as its parent, and no folder
-- has two that list it.
pub record IsForest (folders : Dict Folder) : Type 0 where
  pub acyclic : IsAcyclic folders
  pub linked : IsLinked folders
  pub one_parent : (a b c : Text) → Edge folders a c → Edge folders b c → a ≡ b

Linked-one_parent :
    (folders : Dict Folder)
    → IsLinked folders
    → (a b c : Text) → Edge folders a c
    → Edge folders b c
    → a ≡ b
Linked-one_parent folders h a b c (f, found, child) (g, found', child') =
    let (x, there, up) = h.linked a c f found (has_child-listed c f.children child) in
    let (y, again, up') = h.linked b c g found' (has_child-listed c g.children child') in cc

ends_Linked {ℓ} :
    {A : Type ℓ} (o : Option (A × State)) (a : A) (t : State)
    → o ≡ some (a, t)
    → Leaves Linked o
    → Linked t
ends_Linked o a t e h = rw e at h

TreeStep-Linked :
    (digest : Text → Text) (s t : State) → TreeStep digest s t → Acyclic s → Linked s → Linked t
TreeStep-Linked digest s t (folder_created rounds name parent index r e) h k =
    ends_Linked _ r t e (create_folder-Linked s h k digest rounds name parent index)
TreeStep-Linked digest s _ (folder_renamed id name) h k = rename_folder-Linked s h k id name
TreeStep-Linked digest s t (folder_moved rounds id parent index r e) h k =
    ends_Linked _ r t e (move_folder-Linked s h k rounds id parent index)
TreeStep-Linked digest s t (folder_deleted rounds id r e) h k =
    ends_Linked _ r t e (delete_folder-Linked s h k rounds id)
TreeStep-Linked digest s t (project_created rounds name parent workspace index r e) h k =
    ends_Linked _ r t e (create_project-Linked s k digest rounds name parent workspace index)
TreeStep-Linked digest s _ (project_renamed id name) h k = rw (rename_project-folders id name s) k
TreeStep-Linked digest s _ (project_moved id parent index) h k =
    move_project-Linked s k id parent index
TreeStep-Linked digest s _ (project_deleted id) h k = delete_project-Linked s k id

IsReached-Linked :
    (digest : Text → Text) (workspace_id : Text) (s : State)
    → IsReached digest workspace_id s
    → Linked s
unfolding get
IsReached-Linked digest workspace_id _ at_first = record {
  linked = λ a b f e c. absurd cc;
  once = λ a b f e. absurd cc;
}
IsReached-Linked digest workspace_id _ (next {s} {t} reached step) =
    TreeStep-Linked digest s t step (IsReached-IsAcyclic digest workspace_id s reached)
      (IsReached-Linked digest workspace_id s reached)

-- After any calls, also such as throw, of createFolder, renameFolder, moveFolder, deleteFolder,
-- createProject, renameProject, moveProject and deleteProject in a new workspace, the folders are a
-- forest: none has an empty identifier, each stands under its own, every way down by way of children
-- ends, so that no folder is below itself, and what a folder lists as its child is a folder, which
-- records it as its parent and is listed there once, so that no two folders list the same one.
pub IsReached-IsForest :
    (digest : Text → Text) (workspace_id : Text) (s : State)
    → IsReached digest workspace_id s
    → IsForest s.folders
IsReached-IsForest digest workspace_id s reached =
    let h = IsReached-Linked digest workspace_id s reached in
    record {
      acyclic = IsReached-IsAcyclic digest workspace_id s reached;
      linked = h;
      one_parent = Linked-one_parent s.folders h;
    }
