-- ===== src/Pipeline/Projects/Folders/Unlinking.antt =====
-- projectRepository.ts: `deleteFolder` leaves each folder that stays listed by its own parent alone.
use bbmcp.Prelude.{
  ℕ, ◌≡◌, ◌≤◌, refl, ◌⊎◌, inl, inr, List, [], ◌∷◌, true, false, none, some, if◌then◌else◌, ◌↔◌,
  arith, Bool-cases, Option-cases,
}
use bbmcp.Prelude.Text.{Text, is_empty, includes}
use bbmcp.Prelude.Dict.{Dict, get, delete, get-delete}
use bbmcp.Pipeline.Model.{Result, ok, throw}
use bbmcp.Pipeline.State.{folder, project, Folder, State}
use bbmcp.Pipeline.State.Throwing.{Result-cases}
use bbmcp.Pipeline.Tree.{detach_from_parent}
use bbmcp.Pipeline.Tree.Walks.{collect_folder_subtree, collect_projects_in_folders}
use bbmcp.Pipeline.Tree.Edges.{Edge, Below, itself, under}
use bbmcp.Pipeline.Tree.Collecting.{collect_folder_subtree-Collects}
use bbmcp.Pipeline.Projects.Editing.{
  places, with_places, remove_project_jobs, remove_project_internal,
}
use bbmcp.Pipeline.Projects.Folders.Removal.{
  remove_projects, delete_folders, delete_emptied, delete_folder,
}
use bbmcp.Pipeline.Projects.Folders.Acyclic.{IsAcyclic-Thins}
use bbmcp.Pipeline.Projects.Folders.Keeps.{detach_from_parent-Thins}
use bbmcp.Pipeline.Projects.Folders.Attaching.{Leaves, Acyclic}
use bbmcp.Pipeline.Projects.Folders.Links.{
  listed, has_child-listed, IsLinked, Alters, Alters-same, Shrinks, Shrinks-same, Shrinks-trans,
  IsLinked-Shrinks,
}
use bbmcp.Pipeline.Projects.Folders.Unlisting.{detach_from_parent-Shrinks, unlisted}
use bbmcp.Pipeline.Projects.Folders.Linking.{Linked}

Shrinks-all : (folders : Dict Folder) → Alters Shrinks folders folders
Shrinks-all folders = Alters-same Shrinks folders (λ a f e. Shrinks-same a f)

pub remove_project_internal-Shrinks :
    (id : Text) (s : State) → Alters Shrinks s.folders (remove_project_internal id s).1.folders
unfolding remove_project_internal remove_project_jobs
remove_project_internal-Shrinks id s = elim (Option-cases (get id s.projects)) [
  | inl absent ↦ rw (remove_project_internal, absent) (Shrinks-all s.folders)
  | inr (p, found) ↦
      elim (Result-cases (detach_from_parent project p.project_id p.parent_folder_id (places s))) [
        | inl (e, thrown) ↦ rw (remove_project_internal, found, thrown) (Shrinks-all s.folders)
        | inr (detached, out) ↦
            rw (remove_project_internal, found, out)
              (detach_from_parent-Shrinks project p.project_id p.parent_folder_id (places s)
                detached out)
      ]
]

remove_projects-Shrinks :
    (ids : List Text) (s : State) → Alters Shrinks s.folders (remove_projects ids s).1.folders
unfolding remove_projects
remove_projects-Shrinks [] s = Shrinks-all s.folders
remove_projects-Shrinks (id ∷ ids) s =
    let s' = (remove_project_internal id s).1 in
    let first = remove_project_internal-Shrinks id s in
    elim (Result-cases (remove_project_internal id s).0) [
      | inl (e, thrown) ↦ rw (remove_projects, thrown) first
      | inr (u, removed) ↦
          rw (remove_projects, removed)
            (Shrinks-trans s.folders s'.folders _ first (remove_projects-Shrinks ids s'))
    ]

get-delete_folders :
    (ids : List Text) (folders : Dict Folder) (x : Text)
    → get x (delete_folders ids folders) ≡ (if includes ids x then none else get x folders)
unfolding delete_folders includes
get-delete_folders [] folders x = refl
get-delete_folders (id ∷ ids) folders x =
    ground (arith, get-delete_folders ids (delete id folders) x, get-delete id x folders)

-- The last step of a way down.
last_step :
    (folders : Dict Folder) (b a : Text)
    → Below folders b a
    → (b ≡ a) ⊎ ((c : Text) × Below folders c a × Edge folders c b)
last_step folders b a itself = inl refl
last_step folders b a (under {b = x} edge below) = elim (last_step folders b x below) [
  | inl here ↦ inr (a, itself, rw here edge)
  | inr (c, lower, edge') ↦ inr (c, under edge lower, edge')
]

filled :
    (folders : Dict Folder) (a : Text) (f : Folder)
    → get [] folders ≡ none
    → get a folders ≡ some f
    → is_empty a ≡ false
filled folders [] f unnamed found = cc
filled folders (c ∷ a) f unnamed found = refl

-- A subtree goes whose top none lists: what stays lists nothing of it.
module _ (folders folders' : Dict Folder) (h : IsLinked folders) (unnamed : get [] folders ≡ none)
    (id : Text) (free : (a : Text) (f : Folder) → get a folders ≡ some f → listed id f.children ≡ 0)
    (ids : List Text)
    (only : (x : Text) → (includes ids x ≡ true) ↔ ((is_empty x ≡ false) × Below folders x id))
    (k : Alters Shrinks folders folders') where
  lists_no_deleted :
      (a b : Text) (f : Folder)
      → get a folders ≡ some f
      → 1 ≤ listed b f.children
      → includes ids a ≡ false
      → includes ids b ≡ true
      → ⊥
  lists_no_deleted a b f found c kept gone =
      let (full, below) = (only b).0 gone in
      let (g, child, up) = h.linked a b f found c in
      elim (last_step folders b id below) [
        | inl here ↦
            let c' : 1 ≤ listed id f.children = rw here at c in
            let none_of = free a f found in absurd (omega arith)
        | inr (a', lower, (f', found', edge)) ↦
            let (g', child', up') = h.linked a' b f' found' (has_child-listed b f'.children edge) in
            let one : a' ≡ a = cc in
            let low : Below folders a id = rw one at lower in
            let inside = (only a).1 (filled folders a f unnamed found, low) in cc
      ]

  delete_folders-IsLinked : IsLinked (delete_folders ids folders')
  delete_folders-IsLinked =
      let h' = IsLinked-Shrinks folders folders' h k in
      record {
        linked = λ a b f e c.
            let was = get-delete_folders ids folders' a in
            elim (Bool-cases (includes ids a)) [
              | inl gone ↦ let nothing = rw gone at was in cc
              | inr kept ↦
                  let was' : get a (delete_folders ids folders') ≡ get a folders' =
                    rw kept at was in
                  let found : get a folders' ≡ some f = cc in
                  let (g, there, up) = h'.linked a b f found c in
                  let still = get-delete_folders ids folders' b in
                  elim (Bool-cases (includes ids b)) [
                    | inl lost ↦
                        let (f0, found0, (par, le)) = k.back a f found in
                        let more = le b in
                        absurd (lists_no_deleted a b f0 found0 (omega arith) kept lost)
                    | inr stays ↦
                        let still' : get b (delete_folders ids folders') ≡ get b folders' =
                          rw stays at still in
                        (g, cc, up)
                  ]
            ];
        once = λ a b f e.
            let was = get-delete_folders ids folders' a in
            elim (Bool-cases (includes ids a)) [
              | inl gone ↦ let nothing = rw gone at was in cc
              | inr kept ↦
                  let was' : get a (delete_folders ids folders') ≡ get a folders' =
                    rw kept at was in
                  h'.once a b f (cc)
            ];
      }

delete_emptied-Linked :
    (ids : List Text) (r : Result (Unit {0}) × State)
    → Linked r.1
    → IsLinked (delete_folders ids r.1.folders)
    → Linked (delete_emptied ids r).1
delete_emptied-Linked ids (throw e, s) h k = h
delete_emptied-Linked ids (ok u, s) h k = k

module _ (s : State) (h : Acyclic s) (k : Linked s) where
  pub delete_folder-Linked : (rounds : ℕ) (id : Text) → Leaves Linked (delete_folder rounds id s)
  unfolding delete_folder
  delete_folder-Linked rounds id = elim (Option-cases (get id s.folders)) [
    | inl absent ↦ rw (delete_folder, absent) k
    | inr (f, found) ↦
        elim (Result-cases (detach_from_parent folder f.folder_id f.parent_folder_id (places s))) [
          | inl (e, thrown) ↦ rw (delete_folder, found, thrown) k
          | inr (detached, out) ↦
              let out' : detach_from_parent folder id f.parent_folder_id (places s) ≡ ok detached =
                rw (h.named id f found) at out in
              let k1 = IsLinked-Shrinks s.folders detached.0 k (
                detach_from_parent-Shrinks folder id f.parent_folder_id (places s) detached out') in
              let h1 =
                IsAcyclic-Thins s.folders detached.0 h (
                  detach_from_parent-Thins folder id f.parent_folder_id (places s) detached out') in
              let s1 = with_places s detached in
              elim (Option-cases (collect_folder_subtree rounds detached.0 id)) [
                | inl over ↦ rw (delete_folder, found, out, over) tt
                | inr (ids, collected) ↦
                    let projects = collect_projects_in_folders detached.0 ids in
                    let shrunk = remove_projects-Shrinks projects s1 in
                    rw (delete_folder, found, out, collected)
                      (delete_emptied-Linked ids (remove_projects projects s1)
                        (IsLinked-Shrinks detached.0 _ k1 shrunk)
                        (delete_folders-IsLinked detached.0 (remove_projects projects s1).1.folders
                          k1 h1.unnamed id
                          (unlisted (places s) detached k h.unnamed id f found out') ids
                          (collect_folder_subtree-Collects detached.0 h1.unnamed rounds id ids
                            collected)
                          shrunk))
              ]
        ]
  ]
