-- ===== src/Pipeline/Stored.antt =====
-- persistenceParsers.ts, clone.ts: how the folders of a state are written, and read back
-- from a value of type `unknown`. What is not of the form is `null` in the source, `none` here.
use bbmcp.Prelude.{◌≡◌, refl, List, [], ◌∷◌, Option, none, some, if◌then◌else◌, arith}
use bbmcp.Prelude.Text.{Text, text, ◌==◌}
use bbmcp.Pipeline.Json.{
  Json, null, string, array, object, Items, nil, cons, Fields, end, field, member,
}
use bbmcp.Pipeline.State.{ChildKind, folder, project, ChildRef, Folder}

abbrev as_string : Json → Option Text
as_string (string s) = some s
as_string _ = none

abbrev as_fields : Json → Option Fields
as_fields (object fields) = some fields
as_fields _ = none

-- `value.map(read).filter(Boolean)`, empty where there is no array.
unfoldable pub each_read : (Json → Option ChildRef) → Items → List ChildRef
each_read read nil = []
each_read read (cons v vs) =
    let rest = each_read read vs in elim (read v) [ none ↦ rest | some entry ↦ entry ∷ rest ]

abbrev pub read_children : (Json → Option ChildRef) → Json → List ChildRef
read_children read (array items) = each_read read items
read_children read _ = []

abbrev child_kind_of : Text → Option ChildKind
child_kind_of s =
    if s == text "folder" then some folder else if s == text "project" then some project else none

abbrev child_ref_of : Option Text → Option Text → Option ChildRef
child_ref_of (some kind) (some id) = elim (child_kind_of kind) [
  | none ↦ none
  | some k ↦ some (record { kind = k; id = id })
]
child_ref_of _ _ = none

unfoldable pub as_tree_child_ref : Json → Option ChildRef
unfolding member
as_tree_child_ref value = elim (as_fields value) [
  | none ↦ none
  | some fields ↦
      child_ref_of (as_string (member (text "kind") fields)) (as_string (member (text "id") fields))
]

abbrev folder_of : Option Text → Option Text → Option Text → List ChildRef → Option Folder
folder_of (some id) (some name) parent children =
    some (record { folder_id = id; name = name; parent_folder_id = parent; children = children })
folder_of _ _ parent children = none

unfoldable pub as_folder : Json → Option Folder
unfolding member as_tree_child_ref each_read
as_folder value = elim (as_fields value) [
  | none ↦ none
  | some fields ↦
      folder_of (as_string (member (text "folderId") fields))
        (as_string (member (text "name") fields))
        (as_string (member (text "parentFolderId") fields))
        (read_children as_tree_child_ref (member (text "children") fields))
]

-- The objects that `cloneTreeChildRef` and `cloneFolder` make for `serializeState`.
abbrev kind_text : ChildKind → Text
kind_text folder = text "folder"
kind_text project = text "project"

unfoldable pub write_child_ref : ChildRef → Json
write_child_ref entry =
    object (
      field (text "kind") (string (kind_text entry.kind)) (field (text "id") (string entry.id) end))

unfoldable pub write_children : List ChildRef → Items
unfolding write_child_ref
write_children [] = nil
write_children (entry ∷ entries) = cons (write_child_ref entry) (write_children entries)

abbrev or_null : Option Text → Json
or_null none = null
or_null (some s) = string s

unfoldable pub write_folder : Folder → Json
unfolding write_children
write_folder f = object (
    field (text "folderId") (string f.folder_id) (
      field (text "name") (string f.name) (
        field (text "parentFolderId") (or_null f.parent_folder_id)
          (field (text "children") (array (write_children f.children)) end))))

as_tree_child_ref-write :
    (entry : ChildRef) → as_tree_child_ref (write_child_ref entry) ≡ some entry
unfolding as_tree_child_ref write_child_ref member ◌==◌
as_tree_child_ref-write entry = go entry.kind refl
  where
    go : (k : ChildKind) → entry.kind ≡ k → as_tree_child_ref (write_child_ref entry) ≡ some entry
    go folder e = ground arith
    go project e = ground arith

each_read-write :
    (entries : List ChildRef) → each_read as_tree_child_ref (write_children entries) ≡ entries
unfolding each_read write_children
each_read-write [] = refl
each_read-write (entry ∷ entries) =
    rw (each_read, as_tree_child_ref-write entry, each_read-write entries) refl

-- A folder that is written into the stored state is read back as it was, with all its children in
-- their order.
pub as_folder-write_folder : (f : Folder) → as_folder (write_folder f) ≡ some f
unfolding as_folder write_folder member ◌==◌
as_folder-write_folder f = go f.parent_folder_id refl
  where
    go : (parent : Option Text) → f.parent_folder_id ≡ parent → as_folder (write_folder f) ≡ some f
    go none e = rw (as_folder, e, each_read-write f.children) (ground arith)
    go (some id) e = rw (as_folder, e, each_read-write f.children) (ground arith)
