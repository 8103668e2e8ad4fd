-- ===== src/Pipeline/Projects/Editing/Moving.antt =====
-- projectRepository.ts: `moveProject` within the parent of the project.
use bbmcp.Prelude.{
  ◌≡◌, refl, ap, ◌∙◌, List, ◌∷◌, ◌++◌, true, Option, none, some, arith, Option-cases, length, take,
  drop, inl, inr,
}
use bbmcp.Prelude.Text.{Text, ==_refl}
use bbmcp.Prelude.Dict.{get, has, get-set_self}
use bbmcp.Prelude.Number.{Number}
use bbmcp.Pipeline.Model.{ok}
use bbmcp.Pipeline.State.{non_empty, project, ChildRef, Project, State}
use bbmcp.Pipeline.Events.{append_project_snapshot_event}
use bbmcp.Pipeline.Tree.{
  Places, normalize_parent_folder_id, normalize_index, find_container_children,
  put_container_children, insert_child_ref, resolve_reorder_insert_index, detach_from_parent,
  ensure_target_folder_exists, remove_child_ref,
}
use bbmcp.Pipeline.Tree.Reorder.{
  occurrences, without, insert_child_ref-resolve_reorder_insert_index,
}
use bbmcp.Pipeline.Projects.{store_project}
use bbmcp.Pipeline.Projects.Editing.{
  places, with_places, same_parent, adjusted_index, attach_moved, move_found, move_project,
}

find-put :
    (at : Places) (parent : Option Text) (xs ys : List ChildRef)
    → find_container_children at parent ≡ ok xs
    → find_container_children (put_container_children at parent ys) parent ≡ ok ys
unfolding find_container_children put_container_children
find-put (folders, root) parent xs ys e = elim (Option-cases (non_empty parent)) [
  | inl top ↦ ground arith
  | inr (id, named) ↦ elim (Option-cases (get id folders)) [
    | inl absent ↦ absurd (ground arith)
    | inr (f, found) ↦ ground (arith, get-set_self id (record f { children = ys }) folders)
  ]
]

ensure-find :
    (at : Places) (parent : Option Text) (xs : List ChildRef)
    → find_container_children at parent ≡ ok xs
    → ensure_target_folder_exists at.0 parent ≡ ok tt
unfolding find_container_children ensure_target_folder_exists has
ensure-find (folders, root) parent xs e = elim (Option-cases (non_empty parent)) [
  | inl top ↦ ground arith
  | inr (id, named) ↦ elim (Option-cases (get id folders)) [
    | inl absent ↦ absurd (ground arith)
    | inr (f, found) ↦ ground arith
  ]
]

same_parent_refl : (parent : Option Text) → same_parent parent parent ≡ true
same_parent_refl none = refl
same_parent_refl (some id) = ==_refl id

abbrev pub project_ref : Project → ChildRef
project_ref p = record { kind = project; id = p.project_id }

module _ (id : Text) (p : Project) (s : State) (xs : List ChildRef) where
  adjusted_index-find :
      (index : Option Number)
      → find_container_children (places s) p.parent_folder_id ≡ ok xs
      → adjusted_index p p.parent_folder_id index (places s)
        ≡ ok (resolve_reorder_insert_index xs project p.project_id index)
  unfolding adjusted_index
  adjusted_index-find index e = rw (same_parent_refl p.parent_folder_id, e) refl

  detach_from_parent-find :
      (kept : List ChildRef)
      → find_container_children (places s) p.parent_folder_id ≡ ok xs
      → remove_child_ref project p.project_id xs ≡ some kept
      → detach_from_parent project p.project_id p.parent_folder_id (places s)
        ≡ ok (put_container_children (places s) p.parent_folder_id kept)
  unfolding detach_from_parent
  detach_from_parent-find kept e r = rw (detach_from_parent, e, r) refl

  attach_moved-find :
      (index : Option Number)
      → find_container_children (places s) p.parent_folder_id ≡ ok xs
      → find_container_children
          (places (attach_moved id p p.parent_folder_id index s).1)
          p.parent_folder_id
        ≡ ok (insert_child_ref xs (project_ref p) index)
  unfolding attach_moved store_project append_project_snapshot_event
  attach_moved-find index e =
      rw (attach_moved, e)
        (find-put (places s) p.parent_folder_id xs (insert_child_ref xs (project_ref p) index) e)

  -- The project is taken out of its parent and put back.
  move_found-attach :
      (kept : List ChildRef) (index : Option Number)
      → find_container_children (places s) p.parent_folder_id ≡ ok xs
      → remove_child_ref project p.project_id xs ≡ some kept
      → move_found id p p.parent_folder_id index s
        ≡ attach_moved id p p.parent_folder_id
            (resolve_reorder_insert_index xs project p.project_id index)
            (with_places s (put_container_children (places s) p.parent_folder_id kept))
  unfolding move_found
  move_found-attach kept index e removed =
      rw
        (
          move_found,
          ensure-find (places s) p.parent_folder_id xs e,
          adjusted_index-find index e,
          detach_from_parent-find kept e removed,
        )
        refl

  move_project-found :
      (parent : Option Text) (index : Option Number)
      → get id s.projects ≡ some p
      → normalize_parent_folder_id parent ≡ p.parent_folder_id
      → move_project id parent index s ≡ move_found id p p.parent_folder_id index s
  unfolding move_project
  move_project-found parent index found stays = rw (move_project, found, stays) refl

-- `moveProject` to the parent that the project has, where it stands once among that parent's
-- children: it comes to stand between those before the index and those from the index on, which
-- keep their order, and the index is one of the list as it was before; without an index the
-- project comes last.
pub move_project-find_container_children :
    (id : Text) (parent : Option Text) (index : Option Number) (p : Project) (s : State)
    (xs : List ChildRef)
    → get id s.projects ≡ some p
    → normalize_parent_folder_id parent ≡ p.parent_folder_id
    → find_container_children (places s) p.parent_folder_id ≡ ok xs
    → occurrences project p.project_id xs ≡ 1
    → find_container_children (places (move_project id parent index s).1) p.parent_folder_id
      ≡ ok (
          without project p.project_id (take (normalize_index index (length xs)) xs)
          ++ project_ref p
            ∷ without project p.project_id (drop (normalize_index index (length xs)) xs))
move_project-find_container_children id parent index p s xs found stays e once =
    let (kept, removed, parts) =
      insert_child_ref-resolve_reorder_insert_index project p.project_id (project_ref p) xs index
        once in
    let detached = put_container_children (places s) p.parent_folder_id kept in
    let there = find-put (places s) p.parent_folder_id xs kept e in
    rw
      (
        move_project-found id p s xs parent index found stays,
        move_found-attach id p s xs kept index e removed,
      )
      (attach_moved-find id p (with_places s detached) kept
          (resolve_reorder_insert_index xs project p.project_id index) there
        ∙ ap ok parts)
