-- ===== src/Pipeline/Projects/Folders/Moving.antt =====
-- projectRepository.ts: `moveFolder` leaves the folders a acyclic.
use bbmcp.Prelude.{
  ℕ, ◌≡◌, refl, inl, inr, true, false, Option, none, some, arith, Bool-cases, Option-cases,
}
use bbmcp.Prelude.Text.{Text}
use bbmcp.Prelude.Dict.{Dict, get}
use bbmcp.Prelude.Number.{Number}
use bbmcp.Pipeline.Model.{ok}
use bbmcp.Pipeline.State.{folder, Folder, State, non_empty}
use bbmcp.Pipeline.State.Throwing.{Result-cases}
use bbmcp.Pipeline.Tree.{
  Places, find_container_children, put_container_children, insert_child_ref, detach_from_parent,
  normalize_parent_folder_id, ensure_target_folder_exists, ensure_folder_depth_limit,
}
use bbmcp.Pipeline.Tree.Walks.{get_subtree_folder_height}
use bbmcp.Pipeline.Tree.Edges.{Below, itself, under}
use bbmcp.Pipeline.Tree.Descent.{is_folder_descendant-IsAnswer}
use bbmcp.Pipeline.Projects.Editing.{places}
use bbmcp.Pipeline.Projects.Folders.{
  is_parent, is_below, adjusted_folder_index, set_parent, attach_moved_folder, relocate_folder,
  move_measured_folder, move_checked_folder, move_found_folder, move_folder,
}
use bbmcp.Pipeline.Projects.Folders.Acyclic.{
  IsAcyclic, NoneNew, Thins, Thins-same, Thins-Edge, Changes-set, IsAcyclic-Thins,
}
use bbmcp.Pipeline.Projects.Folders.Keeps.{detach_from_parent-Thins}
use bbmcp.Pipeline.Projects.Folders.Attaching.{
  Leaves, Acyclic, entry_of, non_empty-some, insert_folder-IsAcyclic,
}

set_parent-Thins :
    (id : Text) (parent : Option Text) (folders : Dict Folder)
    → Thins folders (set_parent id parent folders)
set_parent-Thins id parent folders = elim (Option-cases (get id folders)) [
  | inl absent ↦ rw (set_parent, absent) (Thins-same folders)
  | inr (f, found) ↦
      rw (set_parent, found)
        (Changes-set folders NoneNew id f (record f { parent_folder_id = parent }) found refl
          (λ b c. inl c))
]

-- What is below a folder in a thinner table was so before.
pub Below-Thins :
    (folders folders' : Dict Folder) (p : Text)
    → IsAcyclic folders
    → Thins folders folders'
    → (a : Text) → Below folders' p a
    → Below folders p a
Below-Thins folders folders' p h k a itself = itself
Below-Thins folders folders' p h k a (under edge below) =
    under (Thins-Edge folders folders' h k a _ edge) (Below-Thins folders folders' p h k _ below)

-- The guard of `moveFolder` keeps the new parent out of the folder's own subtree.
is_below-not_Below :
    (folders : Dict Folder) (id : Text) (parent : Option Text) (p : Text)
    → IsAcyclic folders
    → is_below folders id parent ≡ ok false
    → non_empty parent ≡ some p
    → ¬ Below folders p id
is_below-not_Below folders id none p h e inside = absurd cc
is_below-not_Below folders id (some q) p h e inside =
    let (same, filled) = non_empty-some (some q) p inside in
    let key : q ≡ p = ground arith in
    is_folder_descendant-IsAnswer folders p h.unnamed filled id false (rw key at e)

attach_moved_folder-IsAcyclic :
    (key id : Text) (parent : Option Text) (index : Option Number) (at moved : Places)
    → IsAcyclic at.0
    → ((p : Text) → non_empty parent ≡ some p → ¬ Below at.0 p id)
    → attach_moved_folder key id parent index at ≡ ok moved
    → IsAcyclic moved.0
unfolding attach_moved_folder
attach_moved_folder-IsAcyclic key id parent index at moved h apart e =
    elim (Result-cases (find_container_children at parent)) [
      | inl (e', thrown) ↦ absurd (ground arith)
      | inr (children, inside) ↦
          let put =
            put_container_children at parent (insert_child_ref children (entry_of id) index) in
          let same : moved.0 ≡ set_parent key parent put.0 = ground arith in
          rw same (
            IsAcyclic-Thins put.0 (set_parent key parent put.0)
              (insert_folder-IsAcyclic at parent children id index h inside apart)
              (set_parent-Thins key parent put.0))
    ]

module _ (s : State) (h : Acyclic s) where
  relocate_folder-IsAcyclic :
      (key : Text) (f : Folder) (parent : Option Text) (index : Option Number)
      → ((p : Text) → non_empty parent ≡ some p → ¬ Below s.folders p f.folder_id)
      → Acyclic (relocate_folder key f parent index s).1
  unfolding relocate_folder
  relocate_folder-IsAcyclic key f parent index apart =
      elim (Result-cases (detach_from_parent folder f.folder_id f.parent_folder_id (places s))) [
        | inl (e, thrown) ↦ rw (relocate_folder, thrown) h
        | inr (detached, out) ↦
            let thin =
              detach_from_parent-Thins folder f.folder_id f.parent_folder_id (places s) detached
                out in
            let h' = IsAcyclic-Thins s.folders detached.0 h thin in
            elim (Result-cases (attach_moved_folder key f.folder_id parent index detached)) [
              | inl (e, thrown) ↦ rw (relocate_folder, out, thrown) h'
              | inr (moved, put) ↦
                  rw (relocate_folder, out, put)
                    (attach_moved_folder-IsAcyclic key f.folder_id parent index detached moved h'
                      (λ p inside below.
                        apart p inside
                          (Below-Thins s.folders detached.0 p h thin f.folder_id below))
                      put)
            ]
      ]

  move_checked_folder-IsAcyclic :
      (rounds : ℕ) (key : Text) (f : Folder) (parent : Option Text) (index : Option Number)
      → ((p : Text) → non_empty parent ≡ some p → ¬ Below s.folders p f.folder_id)
      → Leaves Acyclic (move_checked_folder rounds key f parent index s)
  unfolding move_checked_folder move_measured_folder
  move_checked_folder-IsAcyclic rounds key f parent index apart =
      elim (Option-cases (get_subtree_folder_height rounds s.folders f.folder_id)) [
        | inl over ↦ rw (move_checked_folder, over) tt
        | inr (height, measured) ↦
            elim (Result-cases (ensure_folder_depth_limit s.folders parent height)) [
              | inl (e, thrown) ↦ rw (move_checked_folder, measured, move_measured_folder, thrown) h
              | inr (u, shallow) ↦
                  elim (Result-cases (adjusted_folder_index f parent index (places s))) [
                    | inl (e, thrown) ↦
                        rw (move_checked_folder, measured, move_measured_folder, shallow, thrown) h
                    | inr (index', adjusted) ↦
                        rw (move_checked_folder, measured, move_measured_folder, shallow, adjusted)
                          (relocate_folder-IsAcyclic key f parent index' apart)
                  ]
            ]
      ]

  move_found_folder-IsAcyclic :
      (rounds : ℕ) (key : Text) (f : Folder) (parent : Option Text) (index : Option Number)
      → Leaves Acyclic (move_found_folder rounds key f parent index s)
  unfolding move_found_folder
  move_found_folder-IsAcyclic rounds key f parent index =
      elim (Bool-cases (is_parent parent f.folder_id)) [
        | inl self ↦ rw (move_found_folder, self) h
        | inr other ↦ elim (Result-cases (ensure_target_folder_exists s.folders parent)) [
          | inl (e, thrown) ↦ rw (move_found_folder, other, thrown) h
          | inr (u, there) ↦ elim (Result-cases (is_below s.folders f.folder_id parent)) [
            | inl (e, thrown) ↦ rw (move_found_folder, other, there, thrown) h
            | inr (true, inside) ↦ rw (move_found_folder, other, there, inside) h
            | inr (false, outside) ↦
                rw (move_found_folder, other, there, outside)
                  (move_checked_folder-IsAcyclic rounds key f parent index
                    (λ p put. is_below-not_Below s.folders f.folder_id parent p h outside put))
          ]
        ]
      ]

  pub move_folder-IsAcyclic :
      (rounds : ℕ) (id : Text) (parent : Option Text) (index : Option Number)
      → Leaves Acyclic (move_folder rounds id parent index s)
  unfolding move_folder
  move_folder-IsAcyclic rounds id parent index = elim (Option-cases (get id s.folders)) [
    | inl absent ↦ rw (move_folder, absent) h
    | inr (f, found) ↦
        rw (move_folder, found)
          (move_found_folder-IsAcyclic rounds id f (normalize_parent_folder_id parent) index)
  ]
