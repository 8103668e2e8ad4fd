-- ===== src/Pipeline/Projects/Folders/Unlisting.antt =====
-- projectTreeOps.ts: a child is taken out of its parent, and what that does to the links of a table.
use bbmcp.Prelude.{
  ℕ, zero, suc, ◌≡◌, ◌≤◌, refl, inl, inr, List, [], ◌∷◌, false, Option, none, some, arith,
  Bool-cases, Option-cases,
}
use bbmcp.Prelude.Text.{Text, ◌==◌, eq_of_==}
use bbmcp.Prelude.Dict.{Dict, get, set, get-set, get-set_self, get-set_other}
use bbmcp.Pipeline.Model.{ok}
use bbmcp.Pipeline.State.{ChildKind, folder, ChildRef, Folder, non_empty}
use bbmcp.Pipeline.State.Throwing.{Result-cases}
use bbmcp.Pipeline.Tree.{
  Places, is_ref, find_container_children, put_container_children, remove_child_ref,
  detach_from_any, detach_from_parent,
}
use bbmcp.Pipeline.Projects.Folders.Links.{
  listed, IsLinked, Alters, Alters-same, Shrinks, Shrinks-same,
}

listed-remove :
    (kind : ChildKind) (id b : Text) (children kept : List ChildRef)
    → remove_child_ref kind id children ≡ some kept
    → listed b kept ≤ listed b children
unfolding remove_child_ref
listed-remove kind id b [] kept e = absurd cc
listed-remove kind id b (x ∷ xs) kept e = elim (Bool-cases (is_ref kind id x)) [
  | inl hit ↦ let same : kept ≡ xs = ground arith in rw same (ground arith)
  | inr miss ↦ elim (Option-cases (remove_child_ref kind id xs)) [
    | inl absent ↦ absurd (ground arith)
    | inr (rest, e') ↦
        let same : kept ≡ x ∷ rest = ground arith in
        let k = listed-remove kind id b xs rest e' in rw same (omega arith)
  ]
]

-- What is taken out is listed once less, and what is not there is not listed.
listed-removed :
    (id : Text) (children kept : List ChildRef)
    → remove_child_ref folder id children ≡ some kept
    → suc (listed id kept) ≡ listed id children
unfolding remove_child_ref
listed-removed id [] kept e = absurd cc
listed-removed id (x ∷ xs) kept e = elim (Bool-cases (is_ref folder id x)) [
  | inl hit ↦ let same : kept ≡ xs = ground arith in rw same (ground arith)
  | inr miss ↦ elim (Option-cases (remove_child_ref folder id xs)) [
    | inl absent ↦ absurd (ground arith)
    | inr (rest, e') ↦
        let same : kept ≡ x ∷ rest = ground arith in
        let k = listed-removed id xs rest e' in rw (same, miss) (omega arith)
  ]
]

listed-absent :
    (id : Text) (children : List ChildRef)
    → remove_child_ref folder id children ≡ none
    → listed id children ≡ 0
unfolding remove_child_ref
listed-absent id [] e = refl
listed-absent id (x ∷ xs) e = elim (Bool-cases (is_ref folder id x)) [
  | inl hit ↦ absurd (ground arith)
  | inr miss ↦ elim (Option-cases (remove_child_ref folder id xs)) [
    | inl absent ↦ let k = listed-absent id xs absent in rw miss (omega arith)
    | inr (rest, e') ↦ absurd (ground arith)
  ]
]

-- One folder of a table gives way to another.
pub set-Alters :
    (R : Text → Folder → Folder → Type 0) (folders : Dict Folder) (id : Text) (f f' : Folder)
    → get id folders ≡ some f
    → R id f f'
    → ((a : Text) (g : Folder) → (id == a) ≡ false → R a g g)
    → Alters R folders (set id f' folders)
set-Alters R folders id f f' found r rest = record {
  back = λ a g e. elim (Bool-cases (id == a)) [
    | inl hit ↦
        let key : id ≡ a = eq_of_== id a hit in
        let one : g ≡ f' = ground (arith, get-set id a f' folders) in rw (← key, one) (f, found, r)
    | inr miss ↦ (g, ground (arith, get-set_other id a f' folders miss), rest a g miss)
  ];
  on = λ a g e. elim (Bool-cases (id == a)) [
    | inl hit ↦ (f', rw (get-set id a f' folders, hit) refl)
    | inr miss ↦ (g, rw (get-set_other id a f' folders miss) e)
  ];
}

pub put-Alters :
    (R : Text → Folder → Folder → Type 0) (at : Places) (parent : Option Text)
    (children changed : List ChildRef)
    → find_container_children at parent ≡ ok children
    → ((a : Text) (f : Folder)
        → non_empty parent ≡ some a
        → f.children ≡ children
        → R a f (record f { children = changed }))
    → ((a : Text) (f : Folder) → R a f f)
    → Alters R at.0 (put_container_children at parent changed).0
unfolding find_container_children put_container_children
put-Alters R (folders, root) parent children changed e r rest =
    elim (Option-cases (non_empty parent)) [
      | inl top ↦ rw (put_container_children, top) (Alters-same R folders (λ a f g. rest a f))
      | inr (id, inside) ↦ elim (Option-cases (get id folders)) [
        | inl absent ↦ absurd (ground arith)
        | inr (f, found) ↦
            let same : f.children ≡ children = ground arith in
            rw (put_container_children, inside, found)
              (set-Alters R folders id f (record f { children = changed }) found
                (r id f inside same) (λ a g miss. rest a g))
      ]
    ]

detach_from_any-Shrinks :
    (kind : ChildKind) (id : Text) (folders folders' : Dict Folder)
    → detach_from_any kind id folders ≡ some folders'
    → Alters Shrinks folders folders'
unfolding detach_from_any get
detach_from_any-Shrinks kind id [] folders' e = absurd cc
detach_from_any-Shrinks kind id ((key, f) ∷ folders) folders' e =
    elim (Option-cases (remove_child_ref kind id f.children)) [
      | inr (kept, removed) ↦
          let same : folders' ≡ (key, record f { children = kept }) ∷ folders = ground arith in
          rw same (record {
            back = λ j g found. elim (Bool-cases (key == j)) [
              | inl hit ↦
                  let one : g ≡ record f { children = kept } = ground arith in
                  rw (hit, one)
                    (f, refl, (refl, λ b. listed-remove kind id b f.children kept removed))
              | inr miss ↦ (g, ground arith, Shrinks-same j g)
            ];
            on = λ j g found. elim (Bool-cases (key == j)) [
              | inl hit ↦ (record f { children = kept }, rw hit refl)
              | inr miss ↦ (g, ground arith)
            ];
          })
      | inl absent ↦ elim (Option-cases (detach_from_any kind id folders)) [
        | inl nowhere ↦ absurd (ground arith)
        | inr (rest, e') ↦
            let same : folders' ≡ (key, f) ∷ rest = ground arith in
            let ih = detach_from_any-Shrinks kind id folders rest e' in
            rw same (record {
              back = λ j g found. elim (Bool-cases (key == j)) [
                | inl hit ↦
                    let one : g ≡ f = ground arith in (f, rw hit refl, rw one (Shrinks-same j f))
                | inr miss ↦
                    let (f0, found0, r) = ih.back j g (ground arith) in (f0, rw miss found0, r)
              ];
              on = λ j g found. elim (Bool-cases (key == j)) [
                | inl hit ↦ (f, rw hit refl)
                | inr miss ↦ let (f0, found0) = ih.on j g (ground arith) in (f0, rw miss found0)
              ];
            })
      ]
    ]

pub detach_from_parent-Shrinks :
    (kind : ChildKind) (id : Text) (parent : Option Text) (at detached : Places)
    → detach_from_parent kind id parent at ≡ ok detached
    → Alters Shrinks at.0 detached.0
unfolding detach_from_parent
detach_from_parent-Shrinks kind id parent (folders, root) detached e =
    elim (Result-cases (find_container_children (folders, root) parent)) [
      | inl (e', thrown) ↦ absurd (ground arith)
      | inr (children, inside) ↦ elim (Option-cases (remove_child_ref kind id children)) [
        | inr (kept, removed) ↦
            let same : detached ≡ put_container_children (folders, root) parent kept =
              ground arith in
            rw same (
              put-Alters Shrinks (folders, root) parent children kept inside
                (λ a f at_parent old.
                  (refl, λ b. rw old (listed-remove kind id b children kept removed)))
                Shrinks-same)
        | inl absent ↦ elim (Option-cases (detach_from_any kind id folders)) [
          | inr (folders', e') ↦
              let same : detached.0 ≡ folders' = ground arith in
              rw same (detach_from_any-Shrinks kind id folders folders' e')
          | inl nowhere ↦
              let same : detached.0 ≡ folders = ground arith in
              rw same (Alters-same Shrinks folders (λ a f g. Shrinks-same a f))
        ]
      ]
    ]

module _ (at detached : Places) (h : IsLinked at.0) (unnamed : get [] at.0 ≡ none) (id : Text) where
  -- Taken out of its own parent, a folder is listed there no more.
  unlisted_there :
      (a : Text) (g g' : Folder)
      → get a at.0 ≡ some g
      → detach_from_parent folder id (some a) at ≡ ok detached
      → get a detached.0 ≡ some g'
      → listed id g'.children ≡ 0
  unfolding detach_from_parent find_container_children put_container_children
  unlisted_there [] g g' found out found' = cc
  unlisted_there (c ∷ a) g g' found out found' =
      elim (Option-cases (remove_child_ref folder id g.children)) [
        | inr (kept, removed) ↦
            let same : detached.0 ≡ set (c ∷ a) (record g { children = kept }) at.0 =
              ground arith in
            let stored : get (c ∷ a) detached.0 ≡ some (record g { children = kept }) =
              rw same (get-set_self (c ∷ a) (record g { children = kept }) at.0) in
            let one : g' ≡ record g { children = kept } = ground arith in
            let few = h.once (c ∷ a) id g found in
            let fewer = listed-removed id g.children kept removed in rw one (omega arith)
        | inl absent ↦
            let shrunk = detach_from_parent-Shrinks folder id (some (c ∷ a)) at detached out in
            let (g0, found0, (par, le)) = shrunk.back (c ∷ a) g' found' in
            let same : g0 ≡ g = ground arith in
            let few : listed id g'.children ≤ listed id g.children = rw (← same) (le id) in
            let none_there = listed-absent id g.children absent in omega arith
      ]

  -- With its parent as recorded, it is listed nowhere.
  pub unlisted :
      (f : Folder)
      → get id at.0 ≡ some f
      → detach_from_parent folder id f.parent_folder_id at ≡ ok detached
      → (a : Text) (g : Folder) → get a detached.0 ≡ some g
      → listed id g.children ≡ 0
  unlisted f found out a g there = go (listed id g.children) refl
    where
      go : (n : ℕ) → listed id g.children ≡ n → listed id g.children ≡ 0
      go zero e = e
      go (suc n) e =
          let shrunk = detach_from_parent-Shrinks folder id f.parent_folder_id at detached out in
          let (g0, found0, (par, le)) = shrunk.back a g there in
          let fewer = le id in
          let (f0, again, up) = h.linked a id g0 found0 (omega arith) in
          let same : f0 ≡ f = ground arith in
          let parent : f.parent_folder_id ≡ some a = rw (← same) up in
          unlisted_there a g0 g found0 (rw parent at out) there
