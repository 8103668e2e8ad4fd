-- ===== src/Pipeline/Tree/Walks.antt =====
-- projectTreeOps.ts: what walks the folders below one. The source bounds one of these walks; the
-- others stop where they run out of the rounds that they are given, which folders without a cycle never do.
use bbmcp.Prelude.{
  ℕ, zero, suc, ◌+◌, List, [], ◌∷◌, ◌++◌, Bool, true, false, Option, none, some, if◌then◌else◌, max,
}
use bbmcp.Prelude.Text.{Text, ◌==◌, is_empty, includes}
use bbmcp.Prelude.Dict.{Dict, get}
use bbmcp.Pipeline.Model.{Result, ok, throw, traversal_overflow}
use bbmcp.Pipeline.State.{folder, project, ChildRef, Folder}

-- The highest of the folders among the children, by a function that measures one.
abbrev pub max_height : (Text → Option ℕ) → List ChildRef → Option ℕ
max_height height [] = some 0
max_height height (child ∷ children) =
    let rest = max_height height children in
    elim child.kind [
      | project ↦ rest
      | folder ↦ elim (height child.id) [
        | none ↦ none
        | some n ↦ elim rest [ none ↦ none | some m ↦ some (max n m) ]
      ]
    ]

unfoldable pub get_subtree_folder_height : ℕ → Dict Folder → Text → Option ℕ
get_subtree_folder_height zero folders id = none
get_subtree_folder_height (suc rounds) folders id = elim (get id folders) [
  | none ↦ some 1
  | some f ↦ elim (max_height (get_subtree_folder_height rounds folders) f.children) [
    | none ↦ none
    | some n ↦ some (n + 1)
  ]
]

-- The stack has its top in front: the last of the children is taken first.
abbrev pub push_folders : List ChildRef → List Text → List Text
push_folders [] stack = stack
push_folders (child ∷ children) stack = elim child.kind [
  | project ↦ push_folders children stack
  | folder ↦ push_folders children (child.id ∷ stack)
]

-- What comes off the stack, over entries that are empty or name no folder: nothing, the identifier
-- looked for, or a folder.
pub data Popped : Type 0 where
  emptied : Popped
  reached : Popped
  popped : Folder → List Text → Popped

unfoldable pub pop_folder : Dict Folder → Text → List Text → Popped
pop_folder folders candidate [] = emptied
pop_folder folders candidate (id ∷ stack) =
    let rest = pop_folder folders candidate stack in
    if is_empty id
    then rest
    else if id == candidate
    then reached
    else elim (get id folders) [ none ↦ rest | some f ↦ popped f stack ]

unfoldable pub descend : Dict Folder → Text → ℕ → List Text → Result Bool
unfolding pop_folder
descend folders candidate zero stack = elim (pop_folder folders candidate stack) [
  | emptied ↦ ok false
  | reached ↦ ok true
  | popped f rest ↦ throw traversal_overflow
]
descend folders candidate (suc rounds) stack = elim (pop_folder folders candidate stack) [
  | emptied ↦ ok false
  | reached ↦ ok true
  | popped f rest ↦ descend folders candidate rounds (push_folders f.children rest)
]

-- The guard throws once it is above this.
abbrev pub max_traversal_guard : ℕ
max_traversal_guard = 1024

unfoldable pub is_folder_descendant : Dict Folder → Text → Text → Result Bool
unfolding descend
is_folder_descendant folders id candidate = descend folders candidate max_traversal_guard (id ∷ [])

abbrev pub put_first : Text → Option (List Text) → Option (List Text)
put_first id none = none
put_first id (some collected) = some (id ∷ collected)

unfoldable pub collect_from : Dict Folder → ℕ → List Text → Option (List Text)
collect_from folders rounds [] = some []
collect_from folders zero (id ∷ stack) = none
collect_from folders (suc rounds) (id ∷ stack) = elim (is_empty id) [
  | true ↦ collect_from folders rounds stack
  | false ↦ elim (get id folders) [
    | none ↦ put_first id (collect_from folders rounds stack)
    | some f ↦ put_first id (collect_from folders rounds (push_folders f.children stack))
  ]
]

unfoldable pub collect_folder_subtree : ℕ → Dict Folder → Text → Option (List Text)
unfolding collect_from
collect_folder_subtree rounds folders id = collect_from folders rounds (id ∷ [])

-- `projectIds.add` for each child that is a project.
abbrev pub add_projects : List ChildRef → List Text → List Text
add_projects [] found = found
add_projects (child ∷ children) found = elim child.kind [
  | folder ↦ add_projects children found
  | project ↦
      add_projects children (if includes found child.id then found else found ++ (child.id ∷ []))
]

abbrev children_of : Option Folder → List ChildRef
children_of none = []
children_of (some f) = f.children

unfoldable pub collect_projects_from : Dict Folder → List Text → List Text → List Text
collect_projects_from folders [] found = found
collect_projects_from folders (id ∷ ids) found =
    collect_projects_from folders ids (add_projects (children_of (get id folders)) found)

unfoldable pub collect_projects_in_folders : Dict Folder → List Text → List Text
unfolding collect_projects_from
collect_projects_in_folders folders ids = collect_projects_from folders ids []
