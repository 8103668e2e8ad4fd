-- ===== src/Tests/Folders.antt =====
-- Two folders, one in the other, made by calls in a new workspace. A digest is cut to six characters.
use bbmcp.Prelude.{ℕ, ◌≤◌, ◌≡◌, ◌↔◌, refl, false, true, List, [], ◌∷◌, none, some, take}
use bbmcp.Prelude.Text.{Text, text, ◌==◌, trim, is_empty, includes}
use bbmcp.Prelude.Dict.{get, set, delete}
use bbmcp.Pipeline.Model.{ok, throw, move_into_descendant}
use bbmcp.Pipeline.State.{Folder, State, empty_state}
use bbmcp.Pipeline.Tree.{normalize_parent_folder_id}
use bbmcp.Pipeline.Tree.Walks.{collect_folder_subtree, is_folder_descendant}
use bbmcp.Pipeline.Tree.Edges.{Below}
use bbmcp.Pipeline.Tree.Descent.{is_folder_descendant-IsAnswer}
use bbmcp.Pipeline.Tree.Ending.{Ends}
use bbmcp.Pipeline.Tree.Collecting.{collect_folder_subtree-Ends}
use bbmcp.Pipeline.Projects.Folders.{new_folder, attach_folder, create_folder, move_folder}
use bbmcp.Pipeline.Projects.Folders.Removal.{delete_folder}
use bbmcp.Pipeline.Projects.Folders.Acyclic.{IsAcyclic}
use bbmcp.Pipeline.Projects.Folders.Attaching.{entry_of}
use bbmcp.Pipeline.Projects.Folders.Calls.{
  IsReached, at_first, next, folder_created, folder_moved, IsReached-IsAcyclic, move_folder-Ends,
  delete_folder-Ends,
}
use bbmcp.Pipeline.Projects.Folders.OneParent.{IsForest, IsReached-IsForest}
use bbmcp.Pipeline.Projects.Folders.Emptied.{Emptied, delete_folder-Emptied}
use bbmcp.Pipeline.Projects.Views.{no_nodes, node_before, folder_node, get_project_tree}
use bbmcp.Pipeline.Projects.Views.Ending.{get_project_tree-Ends}
use bbmcp.Pipeline.Stored.{as_folder, write_folder, as_folder-write_folder}
use bbmcp.Tests.Data.{workspace}

abbrev digest : Text → Text
digest s = take 6 s

abbrev outer : Text
outer = text "fld_fld:1:"

abbrev inner : Text
inner = text "fld_fld:2:"

abbrev start : State
start = empty_state workspace

abbrev with_outer : State
with_outer = record start {
  folders = (outer, new_folder outer (text "Outer") none) ∷ [];
  root_children = entry_of outer ∷ [];
  next_entity_nonce = 2;
}

abbrev nested : State
nested = record with_outer {
  folders =
      (outer, record (new_folder outer (text "Outer") none) { children = entry_of inner ∷ [] })
      ∷ (inner, new_folder inner (text "Inner") (some outer))
      ∷ [];
  next_entity_nonce = 3;
}

create_outer :
    create_folder digest 1 (text " Outer ") none none start
    ≡ some (ok (new_folder outer (text "Outer") none), with_outer)
unfolding create_folder normalize_parent_folder_id attach_folder trim set
create_outer = refl

create_inner :
    create_folder digest 1 (text "Inner") (some outer) none with_outer
    ≡ some (ok (new_folder inner (text "Inner") (some outer)), nested)
unfolding create_folder normalize_parent_folder_id trim ◌==◌ attach_folder set
create_inner = refl

move_into_inner :
    move_folder 3 outer (some inner) none nested ≡ some (throw move_into_descendant, nested)
unfolding move_folder ◌==◌ normalize_parent_folder_id trim is_folder_descendant
move_into_inner = refl

abbrev emptied : State
emptied = record nested { folders = []; root_children = [] }

delete_outer : delete_folder 3 outer nested ≡ some (ok true, emptied)
unfolding delete_folder get ◌==◌ delete
delete_outer = refl

nested-IsReached : IsReached digest workspace nested
nested-IsReached =
    next
      (next
        (next at_first (
          folder_created 1 (text " Outer ") none none (ok (new_folder outer (text "Outer") none))
            create_outer))
        (folder_created 1 (text "Inner") (some outer) none
          (ok (new_folder inner (text "Inner") (some outer))) create_inner))
      (folder_moved 3 outer (some inner) none (throw move_into_descendant) move_into_inner)

IsReached-IsForest_example : IsForest nested.folders
IsReached-IsForest_example = IsReached-IsForest digest workspace nested nested-IsReached

move_folder-Ends_example : Ends (λ rounds. move_folder rounds inner none none nested)
move_folder-Ends_example =
    move_folder-Ends nested (IsReached-IsAcyclic digest workspace nested nested-IsReached) inner
      none none

delete_folder-Ends_example : Ends (λ rounds. delete_folder rounds outer nested)
delete_folder-Ends_example =
    delete_folder-Ends nested (IsReached-IsAcyclic digest workspace nested nested-IsReached) outer

nested-IsAcyclic : IsAcyclic nested.folders
nested-IsAcyclic = IsReached-IsAcyclic digest workspace nested nested-IsReached

collect_folder_subtree-Ends_example :
    (n : ℕ) × (l : List Text) × ((m : ℕ)
      → n ≤ m
      → collect_folder_subtree m nested.folders outer ≡ some l)
    × ((x : Text) → (includes l x ≡ true) ↔ ((is_empty x ≡ false) × Below nested.folders x outer))
collect_folder_subtree-Ends_example =
    collect_folder_subtree-Ends nested.folders outer nested-IsAcyclic.unnamed
      (nested-IsAcyclic.ends outer)

finds_inner : is_folder_descendant nested.folders outer inner ≡ ok true
unfolding is_folder_descendant ◌==◌ get
finds_inner = refl

is_folder_descendant-IsAnswer_example : Below nested.folders inner outer
is_folder_descendant-IsAnswer_example =
    is_folder_descendant-IsAnswer nested.folders inner nested-IsAcyclic.unnamed refl outer true
      finds_inner

delete_folder-Emptied_example : Emptied nested outer emptied
delete_folder-Emptied_example =
    delete_folder-Emptied nested nested-IsAcyclic 3 outer emptied delete_outer

-- A query of the inner folder alone shows the outer one too.
tree_of_inner :
    get_project_tree (λ name. name) 4 (some (text "Inn")) nested
    ≡ some (
        node_before
          (folder_node outer
            (text "Outer")
            none
            1
            (node_before (folder_node inner (text "Inner") (some outer) 2 no_nodes) no_nodes))
          no_nodes)
unfolding get_project_tree get ◌==◌ trim
tree_of_inner = refl

get_project_tree-Ends_example :
    Ends (λ rounds. get_project_tree (λ name. name) rounds (some (text "Inn")) nested)
get_project_tree-Ends_example =
    get_project_tree-Ends (λ name. name) (some (text "Inn")) nested nested-IsAcyclic

abbrev outer_with_inner : Folder
outer_with_inner = record (new_folder outer (text "Outer") none) { children = entry_of inner ∷ [] }

as_folder-write_folder_example : as_folder (write_folder outer_with_inner) ≡ some outer_with_inner
as_folder-write_folder_example = as_folder-write_folder outer_with_inner
