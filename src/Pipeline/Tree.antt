-- ===== src/Pipeline/Tree.antt =====
-- packages/native-pipeline/src/projectTreeOps.ts: the children of folders and of the root, with the
-- operations on them; those that walk a subtree stand in Walks.
pub mod Reorder
pub mod Depth
pub mod Walks
pub mod Edges
pub mod Descent
pub mod Ending
pub mod Collecting
use bbmcp.Prelude.{
  ℕ, zero, suc, ◌+◌, ◌-◌, List, [], ◌∷◌, Bool, true, false, ◌&&◌, Option, none, some, if◌then◌else◌,
  ltb, length,
}
use bbmcp.Prelude.Text.{Text, ◌==◌, trim, is_empty}
use bbmcp.Prelude.Dict.{Dict, get, has, set}
use bbmcp.Prelude.Number.{Number, whole_number, finite_trunc, clamp_or}
use bbmcp.Pipeline.Model.{Result, ok, throw, folder_not_found, depth_exceeded, hierarchy_cycle}
use bbmcp.Pipeline.State.{ChildKind, folder, project, ChildRef, Folder, non_empty}

abbrev pub max_folder_depth : ℕ
max_folder_depth = 3

abbrev pub max_loop_guard : ℕ
max_loop_guard = 64

-- A parent is a folder, or none for the root.
unfoldable pub normalize_parent_folder_id : Option Text → Option Text
normalize_parent_folder_id none = none
normalize_parent_folder_id (some value) = non_empty (some (trim value))

unfoldable pub normalize_index : Option Number → ℕ → ℕ
normalize_index index max_length = clamp_or (finite_trunc index) max_length 0 max_length

-- The folders and the children of the root.
abbrev pub Places : Type 0
Places = Dict Folder × List ChildRef

unfoldable pub find_container_children : Places → Option Text → Result (List ChildRef)
find_container_children (folders, root) parent = elim (non_empty parent) [
  | none ↦ ok root
  | some id ↦ elim (get id folders) [ none ↦ throw folder_not_found | some f ↦ ok f.children ]
]

-- The children of a container that exists are changed in place.
unfoldable pub put_container_children : Places → Option Text → List ChildRef → Places
put_container_children (folders, root) parent children = elim (non_empty parent) [
  | none ↦ (folders, children)
  | some id ↦ elim (get id folders) [
    | none ↦ (folders, root)
    | some f ↦ (set id (record f { children = children }) folders, root)
  ]
]

abbrev pub same_kind : ChildKind → ChildKind → Bool
same_kind folder folder = true
same_kind folder project = false
same_kind project folder = false
same_kind project project = true

abbrev pub is_ref : ChildKind → Text → ChildRef → Bool
is_ref kind id entry = same_kind entry.kind kind && entry.id == id

-- `children.findIndex`, with `none` for -1.
unfoldable pub find_index : ChildKind → Text → List ChildRef → Option ℕ
find_index kind id [] = none
find_index kind id (entry ∷ rest) =
    let later = find_index kind id rest in
    if is_ref kind id entry then some 0 else elim later [ none ↦ none | some n ↦ some (suc n) ]

-- The children without the first such entry, or `none` where there is none and the source answers
-- `false`.
unfoldable pub remove_child_ref : ChildKind → Text → List ChildRef → Option (List ChildRef)
remove_child_ref kind id [] = none
remove_child_ref kind id (entry ∷ rest) =
    let later = remove_child_ref kind id rest in
    if is_ref kind id entry
    then some rest
    else elim later [ none ↦ none | some kept ↦ some (entry ∷ kept) ]

-- `children.splice(n, 0, entry)`.
unfoldable pub insert_at : ℕ → ChildRef → List ChildRef → List ChildRef
insert_at zero entry children = entry ∷ children
insert_at (suc n) entry [] = entry ∷ []
insert_at (suc n) entry (child ∷ children) = child ∷ insert_at n entry children

unfoldable pub insert_child_ref : List ChildRef → ChildRef → Option Number → List ChildRef
unfolding insert_at normalize_index
insert_child_ref children entry index =
    insert_at (normalize_index index (length children)) entry children

-- The place of the entry after it has been taken out.
abbrev pub adjust : Option ℕ → ℕ → ℕ
adjust none target = target
adjust (some source) target = if ltb source target then target - 1 else target

unfoldable pub resolve_reorder_insert_index :
    List ChildRef → ChildKind → Text → Option Number → Option Number
unfolding find_index normalize_index
resolve_reorder_insert_index children kind id index = elim (finite_trunc index) [
  | none ↦ index
  | some n ↦ some (
      whole_number (adjust (find_index kind id children) (normalize_index index (length children))))
]

-- The first folder that has such a child gives it up; `none` where none has it.
unfoldable pub detach_from_any : ChildKind → Text → Dict Folder → Option (Dict Folder)
unfolding remove_child_ref
detach_from_any kind id [] = none
detach_from_any kind id ((key, f) ∷ folders) =
    let later = detach_from_any kind id folders in
    elim (remove_child_ref kind id f.children) [
      | some kept ↦ some ((key, record f { children = kept }) ∷ folders)
      | none ↦ elim later [ none ↦ none | some folders' ↦ some ((key, f) ∷ folders') ]
    ]

abbrev remove_or_keep : ChildKind → Text → List ChildRef → List ChildRef
remove_or_keep kind id children = elim (remove_child_ref kind id children) [
  | none ↦ children
  | some kept ↦ kept
]

abbrev detach_elsewhere : ChildKind → Text → Places → Places
detach_elsewhere kind id (folders, root) = elim (detach_from_any kind id folders) [
  | some folders' ↦ (folders', root)
  | none ↦ (folders, remove_or_keep kind id root)
]

-- `detachFolderFromParent` and `detachProjectFromParent`, which differ in the kind.
unfoldable pub detach_from_parent : ChildKind → Text → Option Text → Places → Result Places
unfolding find_container_children put_container_children remove_child_ref detach_from_any
detach_from_parent kind id parent places = elim (find_container_children places parent) [
  | throw e ↦ throw e
  | ok children ↦ elim (remove_child_ref kind id children) [
    | some kept ↦ ok (put_container_children places parent kept)
    | none ↦ ok (detach_elsewhere kind id places)
  ]
]

unfoldable pub ensure_target_folder_exists : Dict Folder → Option Text → Result (Unit {0})
unfolding has
ensure_target_folder_exists folders parent = elim (non_empty parent) [
  | none ↦ ok tt
  | some id ↦ if has id folders then ok tt else throw folder_not_found
]

-- The loop of `getFolderDepth`: the rounds left before the guard throws, and the depth so far.
unfoldable pub folder_depth_from : Dict Folder → ℕ → Option Text → ℕ → Result ℕ
folder_depth_from folders zero current depth = elim (non_empty current) [
  | none ↦ ok depth
  | some id ↦ elim (get id folders) [ none ↦ ok depth | some f ↦ throw hierarchy_cycle ]
]
folder_depth_from folders (suc rounds) current depth = elim (non_empty current) [
  | none ↦ ok depth
  | some id ↦ elim (get id folders) [
    | none ↦ ok depth
    | some f ↦ folder_depth_from folders rounds f.parent_folder_id (depth + 1)
  ]
]

unfoldable pub get_folder_depth : Dict Folder → Text → Result ℕ
unfolding folder_depth_from
get_folder_depth folders id = folder_depth_from folders max_loop_guard (some id) 0

unfoldable pub ensure_folder_depth_limit : Dict Folder → Option Text → ℕ → Result (Unit {0})
unfolding get_folder_depth
ensure_folder_depth_limit folders target height =
    let depth : Result ℕ = elim (non_empty target) [
      | none ↦ ok 0
      | some id ↦ get_folder_depth folders id
    ] in
    elim depth [
      | throw e ↦ throw e
      | ok n ↦ if ltb max_folder_depth (n + height) then throw depth_exceeded else ok tt
    ]
