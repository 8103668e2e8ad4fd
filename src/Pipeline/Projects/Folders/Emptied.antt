-- ===== src/Pipeline/Projects/Folders/Emptied.antt =====
-- projectRepository.ts: what is left after `deleteFolder`.
use bbmcp.Prelude.{
  ℕ, ◌≡◌, refl, ◌∙◌, inl, inr, List, [], ◌∷◌, true, false, some, if◌then◌else◌, arith, Bool-cases,
  Option-cases,
}
use bbmcp.Prelude.Text.{Text, is_empty, includes}
use bbmcp.Prelude.Dict.{Dict, get, has, delete, get-delete}
use bbmcp.Pipeline.Model.{ok}
use bbmcp.Pipeline.State.{ChildKind, folder, project, Folder, State}
use bbmcp.Pipeline.State.Throwing.{Result-cases}
use bbmcp.Pipeline.Tree.{detach_from_parent}
use bbmcp.Pipeline.Tree.Walks.{collect_folder_subtree, collect_projects_in_folders}
use bbmcp.Pipeline.Tree.Edges.{Below}
use bbmcp.Pipeline.Tree.Collecting.{collect_folder_subtree-Collects}
use bbmcp.Pipeline.Projects.Editing.{
  places, with_places, remove_project_internal, remove_project_jobs,
}
use bbmcp.Pipeline.Projects.Folders.Removal.{
  remove_projects, delete_folders, delete_emptied, delete_folder,
}
use bbmcp.Pipeline.Projects.Folders.Acyclic.{Thins, IsAcyclic-Thins}
use bbmcp.Pipeline.Projects.Folders.Keeps.{detach_from_parent-Thins}
use bbmcp.Pipeline.Projects.Folders.Attaching.{Acyclic}
use bbmcp.Pipeline.Projects.Folders.Moving.{Below-Thins}
use bbmcp.Pipeline.Projects.Folders.Retains.{Retains, detach_from_parent-Retains, Below-Retains}

-- The identifiers under which there is a folder.
abbrev pub SameKeys : Dict Folder → Dict Folder → Type 0
SameKeys folders folders' = (x : Text) → has x folders' ≡ has x folders

Retains-SameKeys :
    (kind : ChildKind) (id : Text) (folders folders' : Dict Folder)
    → Retains kind id folders folders'
    → Thins folders folders'
    → SameKeys folders folders'
unfolding has
Retains-SameKeys kind id folders folders' kept thin x = elim (Option-cases (get x folders)) [
  | inr (f, found) ↦ let (f', found', children) = kept x f found in rw (found, found') refl
  | inl absent ↦ elim (Option-cases (get x folders')) [
    | inl absent' ↦ rw (absent, absent') refl
    | inr (f', found') ↦ let (f, found, same, old) = thin x f' found' in absurd cc
  ]
]

remove_project_internal-SameKeys :
    (id : Text) (s : State) → SameKeys s.folders (remove_project_internal id s).1.folders
unfolding remove_project_internal remove_project_jobs
remove_project_internal-SameKeys id s x = elim (Option-cases (get id s.projects)) [
  | inl absent ↦ rw (remove_project_internal, absent) refl
  | inr (p, found) ↦
      elim (Result-cases (detach_from_parent project p.project_id p.parent_folder_id (places s))) [
        | inl (e, thrown) ↦ rw (remove_project_internal, found, thrown) refl
        | inr (detached, out) ↦
            rw (remove_project_internal, found, out)
              (Retains-SameKeys project p.project_id s.folders detached.0
                (detach_from_parent-Retains project p.project_id p.parent_folder_id (places s)
                  detached out)
                (detach_from_parent-Thins project p.project_id p.parent_folder_id (places s)
                  detached out)
                x)
      ]
]

remove_projects-SameKeys :
    (ids : List Text) (s : State) → SameKeys s.folders (remove_projects ids s).1.folders
unfolding remove_projects
remove_projects-SameKeys [] s x = refl
remove_projects-SameKeys (id ∷ ids) s x =
    let s' = (remove_project_internal id s).1 in
    let first = remove_project_internal-SameKeys id s x in
    elim (Result-cases (remove_project_internal id s).0) [
      | inl (e, thrown) ↦ rw (remove_projects, thrown) first
      | inr (u, removed) ↦ rw (remove_projects, removed) (remove_projects-SameKeys ids s' x ∙ first)
    ]

has-delete_folders :
    (ids : List Text) (folders : Dict Folder) (x : Text)
    → has x (delete_folders ids folders) ≡ (if includes ids x then false else has x folders)
unfolding delete_folders includes has
has-delete_folders [] folders x = refl
has-delete_folders (id ∷ ids) folders x =
    ground (arith, has-delete_folders ids (delete id folders) x, get-delete id x folders)

-- What a `deleteFolder` that answers `true` leaves of the folders.
abbrev pub Emptied : State → Text → State → Type 0
Emptied s id t =
    ((x : Text) → Below s.folders x id → has x t.folders ≡ false)
    × ((x : Text) → ¬ Below s.folders x id → has x t.folders ≡ has x s.folders)

module _ (s : State) (h : Acyclic s) where
  Emptied-left :
      (id : Text) (folders : Dict Folder) (ids : List Text) (t : State)
      → Thins s.folders folders
      → Retains folder id s.folders folders
      → ((x : Text) → (includes ids x ≡ true) → (is_empty x ≡ false) × Below folders x id)
      → ((x : Text) → is_empty x ≡ false → Below folders x id → includes ids x ≡ true)
      → ((x : Text) → has x t.folders ≡ (if includes ids x then false else has x folders))
      → Emptied s id t
  unfolding has
  Emptied-left id folders ids t thin kept sound complete left = (
    λ x below. inside x (Below-Retains s.folders id folders h.ends kept x below),
    λ x apart. outside x (λ below. apart (Below-Thins s.folders folders x h thin id below)),
  )
    where
      keys : SameKeys s.folders folders
      keys = Retains-SameKeys folder id s.folders folders kept thin

      inside : (x : Text) → Below folders x id → has x t.folders ≡ false
      inside [] below = elim (Bool-cases (includes ids [])) [
        | inl in_list ↦ left [] ∙ (rw in_list refl)
        | inr not_in ↦
            let none_there : has [] s.folders ≡ false = rw h.unnamed refl in
            left [] ∙ (rw not_in (keys [] ∙ none_there))
      ]
      inside (c ∷ x) below =
          let in_list = complete (c ∷ x) refl below in left (c ∷ x) ∙ (rw in_list refl)

      outside : (x : Text) → ¬ Below folders x id → has x t.folders ≡ has x s.folders
      outside x apart = elim (Bool-cases (includes ids x)) [
        | inl in_list ↦ let (filled, below) = sound x in_list in absurd (apart below)
        | inr not_in ↦ left x ∙ (rw not_in (keys x))
      ]

  -- Where the folders are acyclic and `deleteFolder` answers `true`, there is no folder left under
  -- the identifiers of the folder and of those below it by way of children, and under all others
  -- there is one as before.
  pub delete_folder-Emptied :
      (rounds : ℕ) (id : Text) (t : State)
      → delete_folder rounds id s ≡ some (ok true, t)
      → Emptied s id t
  unfolding delete_folder
  delete_folder-Emptied rounds id t e = elim (Option-cases (get id s.folders)) [
    | inl absent ↦ absurd (ground arith)
    | inr (f, found) ↦
        elim (Result-cases (detach_from_parent folder f.folder_id f.parent_folder_id (places s))) [
          | inl (e', thrown) ↦ absurd (ground arith)
          | inr (detached, out) ↦
              elim (Option-cases (collect_folder_subtree rounds detached.0 id)) [
                | inl over ↦ absurd (ground arith)
                | inr (ids, collected) ↦
                    let s1 = with_places s detached in
                    let projects = collect_projects_in_folders detached.0 ids in
                    let thin =
                      detach_from_parent-Thins folder f.folder_id f.parent_folder_id (places s)
                        detached out in
                    let kept =
                      detach_from_parent-Retains folder f.folder_id f.parent_folder_id (places s)
                        detached out in
                    let answered : delete_emptied ids (remove_projects projects s1) ≡ (ok true, t) =
                      ground arith in
                    let only =
                      collect_folder_subtree-Collects detached.0
                        (IsAcyclic-Thins s.folders detached.0 h thin).unnamed rounds id ids
                        collected in
                    Emptied-left id detached.0 ids t thin (rw (h.named id f found) at kept)
                      (λ x. (only x).0) (λ x filled below. (only x).1 (filled, below))
                      (λ x. left ids projects s1 t answered x)
              ]
        ]
  ]
    where
      left :
          (ids projects : List Text) (s1 t : State)
          → delete_emptied ids (remove_projects projects s1) ≡ (ok true, t)
          → (x : Text) → has x t.folders ≡ (if includes ids x then false else has x s1.folders)
      left ids projects s1 t e x = elim (Result-cases (remove_projects projects s1).0) [
        | inl (e', thrown) ↦ absurd (ground arith)
        | inr (u, removed) ↦
            let s2 = (remove_projects projects s1).1 in
            let same : t.folders ≡ delete_folders ids s2.folders = ground arith in
            rw same (
              has-delete_folders ids s2.folders x
              ∙ (rw (remove_projects-SameKeys projects s1 x) refl))
      ]
