-- ===== src/Pipeline/Projects/Folders/Retains.antt =====
-- projectTreeOps.ts: what a table of folders retains where a child is taken out of its parent.
use bbmcp.Prelude.{
  ◌≡◌, refl, inl, inr, List, [], ◌∷◌, true, false, Option, some, arith, Bool-cases, Option-cases,
}
use bbmcp.Prelude.Text.{Text, ◌==◌, eq_of_==}
use bbmcp.Prelude.Dict.{Dict, get, get-set_self, get-set_other}
use bbmcp.Pipeline.Model.{ok}
use bbmcp.Pipeline.State.{ChildKind, folder, project, ChildRef, Folder, non_empty}
use bbmcp.Pipeline.State.Throwing.{Result-cases}
use bbmcp.Pipeline.Tree.{
  Places, same_kind, is_ref, find_container_children, put_container_children, remove_child_ref,
  detach_from_any, detach_from_parent,
}
use bbmcp.Pipeline.Tree.Edges.{has_child, Edge, Below, itself, under, IsGrounded, grounded}

-- The kind and the identifier are not those of this folder.
abbrev pub IsOther : ChildKind → Text → Text → Type 0
IsOther kind id b = (same_kind folder kind ≡ true) → (b == id) ≡ false

module _ (kind : ChildKind) (id : Text) where
  -- Each folder stays, with its children but for the one.
  abbrev pub Retains : Dict Folder → Dict Folder → Type 0
  Retains folders folders' =
      (a : Text) (f : Folder)
      → get a folders ≡ some f
      → (f' : Folder) × (get a folders' ≡ some f')
        × ((b : Text)
            → IsOther kind id b
            → has_child b f.children ≡ true
            → has_child b f'.children ≡ true)

  pub Retains-same : (folders : Dict Folder) → Retains folders folders
  Retains-same folders a f e = (f, e, λ b other h. h)

  -- What is taken out is no other folder.
  has_child-kept :
      (b : Text) (children kept : List ChildRef)
      → IsOther kind id b
      → remove_child_ref kind id children ≡ some kept
      → has_child b children ≡ true
      → has_child b kept ≡ true
  unfolding remove_child_ref
  has_child-kept b [] kept other e h = cc
  has_child-kept b (x ∷ xs) kept other e h = elim (Bool-cases (is_ref kind id x)) [
    | inl hit ↦
        let same : kept ≡ xs = ground arith in
        elim (Bool-cases (is_ref folder b x)) [
          | inl here ↦ absurd (not_both x hit here)
          | inr later ↦ rw same (ground arith)
        ]
    | inr miss ↦ elim (Option-cases (remove_child_ref kind id xs)) [
      | inl absent ↦ absurd (ground arith)
      | inr (rest, e') ↦
          let same : kept ≡ x ∷ rest = ground arith in
          elim (Bool-cases (is_ref folder b x)) [
            | inl here ↦ rw (same, here) refl
            | inr later ↦
                let k = has_child-kept b xs rest other e' (ground arith) in rw (same, later) k
          ]
    ]
  ]
    where
      kinds :
          (j k : ChildKind)
          → same_kind j k ≡ true
          → same_kind j folder ≡ true
          → same_kind folder k ≡ true
      kinds folder k h i = h
      kinds project k h i = cc

      not_both : (x : ChildRef) → is_ref kind id x ≡ true → is_ref folder b x ≡ true → ⊥
      not_both x hit here =
          let k = kinds x.kind kind (ground arith) (ground arith) in
          let same : x.id ≡ b = eq_of_== x.id b (ground arith) in
          let miss = other k in
          let hit' : (x.id == id) ≡ true = ground arith in
          let again : (b == id) ≡ true = rw same at hit' in cc

  put_kept-Retains :
      (at : Places) (parent : Option Text) (children kept : List ChildRef)
      → find_container_children at parent ≡ ok children
      → remove_child_ref kind id children ≡ some kept
      → Retains at.0 (put_container_children at parent kept).0
  unfolding find_container_children put_container_children
  put_kept-Retains (folders, root) parent children kept e removed =
      elim (Option-cases (non_empty parent)) [
        | inl top ↦ rw (put_container_children, top) (Retains-same folders)
        | inr (key, inside) ↦ elim (Option-cases (get key folders)) [
          | inl absent ↦ absurd (ground arith)
          | inr (g, found) ↦
              let same : g.children ≡ children = ground arith in
              rw (put_container_children, inside, found)
                (λ a f e'. elim (Bool-cases (key == a)) [
                  | inl hit ↦
                      let one : key ≡ a = eq_of_== key a hit in
                      let both : g ≡ f = ground arith in
                      rw (← one) (
                        record g { children = kept },
                        get-set_self key _ folders,
                        λ b other h.
                            let h' : has_child b children ≡ true = rw (← both, same) at h in
                            has_child-kept b children kept other removed h',
                      )
                  | inr miss ↦ (f, rw (get-set_other key a _ folders miss) e', λ b other h. h)
                ])
        ]
      ]

  detach_from_any-Retains :
      (folders folders' : Dict Folder)
      → detach_from_any kind id folders ≡ some folders'
      → Retains folders folders'
  unfolding detach_from_any get
  detach_from_any-Retains [] folders' e = absurd cc
  detach_from_any-Retains ((key, g) ∷ folders) folders' e =
      elim (Option-cases (remove_child_ref kind id g.children)) [
        | inr (kept, removed) ↦
            let same : folders' ≡ (key, record g { children = kept }) ∷ folders = ground arith in
            rw same (λ a f found. elim (Bool-cases (key == a)) [
              | inl hit ↦
                  let one : g ≡ f = ground arith in
                  rw (hit, ← one)
                    (
                      record g { children = kept },
                      refl,
                      λ b other h. has_child-kept b g.children kept other removed h,
                    )
              | inr miss ↦ (f, ground arith, λ b other h. h)
            ])
        | inl absent ↦ elim (Option-cases (detach_from_any kind id folders)) [
          | inl nowhere ↦ absurd (ground arith)
          | inr (rest, e') ↦
              let same : folders' ≡ (key, g) ∷ rest = ground arith in
              rw same (λ a f found. elim (Bool-cases (key == a)) [
                | inl hit ↦ (f, ground arith, λ b other h. h)
                | inr miss ↦
                    let (f', found', kept) =
                      detach_from_any-Retains folders rest e' a f (ground arith) in
                    (f', rw miss found', kept)
              ])
        ]
      ]

  pub detach_from_parent-Retains :
      (parent : Option Text) (at detached : Places)
      → detach_from_parent kind id parent at ≡ ok detached
      → Retains at.0 detached.0
  unfolding detach_from_parent
  detach_from_parent-Retains parent (folders, root) detached e =
      elim (Result-cases (find_container_children (folders, root) parent)) [
        | inl (e', thrown) ↦ absurd (ground arith)
        | inr (children, inside) ↦ elim (Option-cases (remove_child_ref kind id children)) [
          | inr (kept, removed) ↦
              let same : detached ≡ put_container_children (folders, root) parent kept =
                ground arith in
              rw same (put_kept-Retains (folders, root) parent children kept inside removed)
          | inl absent ↦ elim (Option-cases (detach_from_any kind id folders)) [
            | inr (folders', e') ↦
                let same : detached.0 ≡ folders' = ground arith in
                rw same (detach_from_any-Retains folders folders' e')
            | inl nowhere ↦
                let same : detached.0 ≡ folders = ground arith in rw same (Retains-same folders)
          ]
        ]
      ]

module _ (folders : Dict Folder) where
  pub Below-trans : (b c a : Text) → Below folders b a → Below folders c b → Below folders c a
  Below-trans b c _ itself k = k
  Below-trans b c a (under {b = d} edge h) k = under edge (Below-trans b c d h k)

  -- Where each way down ends, no folder is below its own child.
  pub no_cycle : (a b : Text) → IsGrounded folders a → Edge folders a b → Below folders a b → ⊥
  no_cycle a b (grounded k) edge itself = no_cycle a a (k a edge) edge itself
  no_cycle a b (grounded k) edge (under {b = d} edge' below) =
      no_cycle b d (k b edge) edge' (Below-trans a b d below (under edge itself))

  -- A folder's subtree stays as it is where the folder is taken out of its parent.
  pub Below-Retains :
      (id : Text) (folders' : Dict Folder)
      → ((a : Text) → IsGrounded folders a)
      → Retains folder id folders folders'
      → (x : Text) → Below folders x id
      → Below folders' x id
  Below-Retains id folders' ends h x below = go id itself below
    where
      go : (a : Text) → Below folders a id → Below folders x a → Below folders' x a
      go a above itself = itself
      go a above (under {b = b} (f, found, child) rest) =
          let (f', found', kept) = h a f found in
          let edge : Edge folders a b = (f, found, child) in
          under
            (
              f',
              found',
              kept b
                  (λ t. elim (Bool-cases (b == id)) [
                    | inl hit ↦ absurd (no_cycle a b (ends a) edge (rw (eq_of_== b id hit) above))
                    | inr miss ↦ miss
                  ])
                  child,
            )
            (go b (Below-trans a b id above (under edge itself)) rest)
