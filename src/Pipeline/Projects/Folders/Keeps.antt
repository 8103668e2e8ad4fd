-- ===== src/Pipeline/Projects/Folders/Keeps.antt =====
-- projectTreeOps.ts: what the steps of the operations do to a table of folders.
use bbmcp.Prelude.{
  ℕ, zero, suc, ◌≡◌, refl, ◌⊎◌, inl, inr, List, [], ◌∷◌, true, Option, some, arith, Bool-cases,
  Option-cases,
}
use bbmcp.Prelude.Text.{Text, ◌==◌}
use bbmcp.Prelude.Dict.{Dict, get}
use bbmcp.Prelude.Number.{Number}
use bbmcp.Pipeline.Model.{ok}
use bbmcp.Pipeline.State.{ChildKind, folder, project, ChildRef, Folder, non_empty}
use bbmcp.Pipeline.State.Throwing.{Result-cases}
use bbmcp.Pipeline.Tree.{
  Places, is_ref, find_container_children, put_container_children, remove_child_ref, insert_at,
  insert_child_ref, detach_from_any, detach_from_parent,
}
use bbmcp.Pipeline.Tree.Edges.{has_child}
use bbmcp.Pipeline.Projects.Folders.Acyclic.{
  NoneNew, Changes, Thins, Thins-same, Changes-mono, Changes-set,
}

has_child-remove :
    (kind : ChildKind) (id b : Text) (children kept : List ChildRef)
    → remove_child_ref kind id children ≡ some kept
    → has_child b kept ≡ true
    → has_child b children ≡ true
unfolding remove_child_ref
has_child-remove kind id b [] kept e h = cc
has_child-remove kind id b (x ∷ xs) kept e h = elim (Bool-cases (is_ref kind id x)) [
  | inl hit ↦
      let same : kept ≡ xs = ground arith in
      let inside : has_child b xs ≡ true = rw same at h in rw inside (ground arith)
  | inr miss ↦ elim (Option-cases (remove_child_ref kind id xs)) [
    | inl absent ↦ absurd (ground arith)
    | inr (rest, e') ↦
        let same : kept ≡ x ∷ rest = ground arith in
        let inside : has_child b (x ∷ rest) ≡ true = rw same at h in
        elim (Bool-cases (is_ref folder b x)) [
          | inl here ↦ rw here refl
          | inr later ↦
              let k = has_child-remove kind id b xs rest e' (ground arith) in rw k (ground arith)
        ]
  ]
]

has_child-insert_at :
    (b : Text) (n : ℕ) (entry : ChildRef) (children : List ChildRef)
    → has_child b (insert_at n entry children) ≡ true
    → (has_child b children ≡ true) ⊎ (is_ref folder b entry ≡ true)
unfolding insert_at
has_child-insert_at b zero entry children h = elim (Bool-cases (is_ref folder b entry)) [
  | inl new ↦ inr new
  | inr old ↦ inl (ground arith)
]
has_child-insert_at b (suc n) entry [] h = inr (ground arith)
has_child-insert_at b (suc n) entry (x ∷ xs) h = elim (Bool-cases (is_ref folder b x)) [
  | inl here ↦ inl (rw here refl)
  | inr later ↦ elim (has_child-insert_at b n entry xs (ground arith)) [
    | inl old ↦ inl (rw old (ground arith))
    | inr new ↦ inr new
  ]
]

-- The container's children give way to others, that it had or that are new.
put-Changes :
    (at : Places) (New : Text → Text → Type 0) (parent : Option Text)
    (children changed : List ChildRef)
    → find_container_children at parent ≡ ok children
    → ((a b : Text)
        → non_empty parent ≡ some a
        → has_child b changed ≡ true
        → (has_child b children ≡ true) ⊎ New a b)
    → Changes at.0 New (put_container_children at parent changed).0
unfolding find_container_children put_container_children
put-Changes (folders, root) New parent children changed e h =
    elim (Option-cases (non_empty parent)) [
      | inl top ↦ rw (put_container_children, top) (λ id f found. (f, found, refl, λ b c. inl c))
      | inr (id, inside) ↦ elim (Option-cases (get id folders)) [
        | inl absent ↦ absurd (ground arith)
        | inr (f, found) ↦
            let same : f.children ≡ children = ground arith in
            rw (put_container_children, inside, found)
              (Changes-set folders New id f (record f { children = changed }) found refl
                (λ b c. rw same (h id b inside c)))
      ]
    ]

pub insert-Changes :
    (at : Places) (parent : Option Text) (children : List ChildRef) (entry : ChildRef)
    (index : Option Number)
    → find_container_children at parent ≡ ok children
    → Changes at.0
        (λ a b. (non_empty parent ≡ some a) × (is_ref folder b entry ≡ true))
        (put_container_children at parent (insert_child_ref children entry index)).0
unfolding insert_child_ref
insert-Changes at parent children entry index e =
    put-Changes at (λ a b. (non_empty parent ≡ some a) × (is_ref folder b entry ≡ true)) parent
      children (insert_child_ref children entry index) e
      (λ a b inside c. elim (has_child-insert_at b _ entry children c) [
        | inl old ↦ inl old
        | inr new ↦ inr (inside, new)
      ])

-- A project is no folder's folder.
pub insert_project-Thins :
    (at : Places) (parent : Option Text) (children : List ChildRef) (id : Text)
    (index : Option Number)
    → find_container_children at parent ≡ ok children
    → Thins at.0
        (put_container_children at parent
          (insert_child_ref children (record { kind = project; id = id }) index)).0
insert_project-Thins at parent children id index e =
    Changes-mono at.0 _ NoneNew _ (λ a b (inside, new). absurd cc)
      (insert-Changes at parent children (record { kind = project; id = id }) index e)

detach_from_any-Thins :
    (kind : ChildKind) (id : Text) (folders folders' : Dict Folder)
    → detach_from_any kind id folders ≡ some folders'
    → Thins folders folders'
unfolding detach_from_any get
detach_from_any-Thins kind id [] folders' e = absurd cc
detach_from_any-Thins kind id ((key, f) ∷ folders) folders' e =
    elim (Option-cases (remove_child_ref kind id f.children)) [
      | inr (kept, removed) ↦
          let same : folders' ≡ (key, record f { children = kept }) ∷ folders = ground arith in
          rw same (λ j g found. elim (Bool-cases (key == j)) [
            | inl hit ↦
                let one : g ≡ record f { children = kept } = ground arith in
                rw (hit, one)
                  (f, refl, refl, λ b c. inl (has_child-remove kind id b f.children kept removed c))
            | inr miss ↦ (g, ground arith, refl, λ b c. inl c)
          ])
      | inl absent ↦ elim (Option-cases (detach_from_any kind id folders)) [
        | inl nowhere ↦ absurd (ground arith)
        | inr (rest, e') ↦
            let same : folders' ≡ (key, f) ∷ rest = ground arith in
            rw same (λ j g found. elim (Bool-cases (key == j)) [
              | inl hit ↦
                  let one : g ≡ f = ground arith in
                  (f, rw hit refl, rw one refl, λ b c. inl (rw (← one) c))
              | inr miss ↦
                  let (f0, found0, same0, old0) =
                    detach_from_any-Thins kind id folders rest e' j g (ground arith) in
                  (f0, rw miss found0, same0, old0)
            ])
      ]
    ]

pub detach_from_parent-Thins :
    (kind : ChildKind) (id : Text) (parent : Option Text) (at detached : Places)
    → detach_from_parent kind id parent at ≡ ok detached
    → Thins at.0 detached.0
unfolding detach_from_parent
detach_from_parent-Thins kind id parent (folders, root) detached e =
    elim (Result-cases (find_container_children (folders, root) parent)) [
      | inl (e', thrown) ↦ absurd (ground arith)
      | inr (children, inside) ↦ elim (Option-cases (remove_child_ref kind id children)) [
        | inr (kept, removed) ↦
            let same : detached ≡ put_container_children (folders, root) parent kept =
              ground arith in
            rw same (
              put-Changes (folders, root) NoneNew parent children kept inside
                (λ a b c h. inl (has_child-remove kind id b children kept removed h)))
        | inl absent ↦ elim (Option-cases (detach_from_any kind id folders)) [
          | inr (folders', e') ↦
              let same : detached.0 ≡ folders' = ground arith in
              rw same (detach_from_any-Thins kind id folders folders' e')
          | inl nowhere ↦
              let same : detached.0 ≡ folders = ground arith in rw same (Thins-same folders)
        ]
      ]
    ]
