-- ===== src/Pipeline/Tree/Descent.antt =====
-- projectTreeOps.ts: `isFolderDescendant` tells whether a folder is below another.
use bbmcp.Prelude.{
  ℕ, zero, suc, ◌≡◌, refl, ◌⊎◌, inl, inr, List, [], ◌∷◌, Bool, true, false, none, some, arith,
  Bool-cases, Option-cases,
}
use bbmcp.Prelude.Text.{Text, ◌==◌, eq_of_==, ==_refl, is_empty, includes}
use bbmcp.Prelude.Dict.{Dict, get}
use bbmcp.Pipeline.Model.{ok}
use bbmcp.Pipeline.State.{Folder}
use bbmcp.Pipeline.Tree.Walks.{
  push_folders, Popped, emptied, reached, popped, pop_folder, descend, max_traversal_guard,
  is_folder_descendant,
}
use bbmcp.Pipeline.Tree.Edges.{has_child, Below, itself, under, includes-push_folders}

module _ (folders : Dict Folder) (candidate : Text) (unnamed : get [] folders ≡ none)
    (wanted : is_empty candidate ≡ false) where
  -- What the loop passes over: no folder, and not the one looked for.
  abbrev IsPassed : Text → Type 0
  IsPassed x = (get x folders ≡ none) × ((x == candidate) ≡ false)

  abbrev Pops : List Text → Popped → Type 0
  Pops stack emptied = (x : Text) → includes stack x ≡ true → IsPassed x
  Pops stack reached = includes stack candidate ≡ true
  Pops stack (popped f rest) =
      (id : Text) × (get id folders ≡ some f)
      × (includes stack id ≡ true)
      × ((id == candidate) ≡ false)
      × ((x : Text) → includes rest x ≡ true → includes stack x ≡ true)
      × ((x : Text) → includes stack x ≡ true → (x ≡ id) ⊎ ((includes rest x ≡ true) ⊎ IsPassed x))

  -- An entry that is passed over stands before the others.
  Pops-passed :
      (id : Text) (stack : List Text) (p : Popped)
      → IsPassed id
      → Pops stack p
      → Pops (id ∷ stack) p
  unfolding includes
  Pops-passed id stack emptied pass h = λ x e. elim (Bool-cases (id == x)) [
    | inl hit ↦ rw (← eq_of_== id x hit) pass
    | inr miss ↦ h x (ground arith)
  ]
  Pops-passed id stack reached pass h = ground arith
  Pops-passed id stack (popped f rest) pass (key, found, inside, other, more, less) = (
    key,
    found,
    ground arith,
    other,
    λ x e. let within = more x e in ground arith,
    λ x e. elim (Bool-cases (id == x)) [
      | inl hit ↦ inr (inr (rw (← eq_of_== id x hit) pass))
      | inr miss ↦ less x (ground arith)
    ],
  )

  no_folder : (id : Text) → is_empty id ≡ true → IsPassed id
  unfolding ◌==◌
  no_folder [] e = (unnamed, not_wanted candidate wanted)
    where
      not_wanted : (c : Text) → is_empty c ≡ false → ([] == c) ≡ false
      not_wanted [] h = cc
      not_wanted (x ∷ c) h = refl
  no_folder (x ∷ id) e = cc

  pop_folder-Pops : (stack : List Text) → Pops stack (pop_folder folders candidate stack)
  unfolding pop_folder includes
  pop_folder-Pops [] = λ x e. cc
  pop_folder-Pops (id ∷ stack) = elim (Bool-cases (is_empty id)) [
    | inl blank ↦ rw blank (Pops-passed id stack _ (no_folder id blank) (pop_folder-Pops stack))
    | inr filled ↦ elim (Bool-cases (id == candidate)) [
      | inl hit ↦ rw (filled, hit) (ground arith)
      | inr miss ↦ elim (Option-cases (get id folders)) [
        | inl absent ↦
            rw (filled, miss, absent)
              (Pops-passed id stack _ (absent, miss) (pop_folder-Pops stack))
        | inr (f, found) ↦
            rw (filled, miss, found)
              (
                id,
                found,
                rw (==_refl id) refl,
                miss,
                λ x e. ground arith,
                λ x e. elim (Bool-cases (id == x)) [
                  | inl same ↦ inl (rw (eq_of_== id x same) refl)
                  | inr other ↦ inr (inl (ground arith))
                ],
              )
      ]
    ]
  ]

  abbrev Descends : List Text → Bool → Type 0
  Descends stack true = (x : Text) × (includes stack x ≡ true) × Below folders candidate x
  Descends stack false = (x : Text) → includes stack x ≡ true → ¬ Below folders candidate x

  passed-not_Below : (x : Text) → IsPassed x → ¬ Below folders candidate x
  passed-not_Below x (absent, other) itself = let same = ==_refl candidate in cc
  passed-not_Below x (absent, other) (under (f, found, child) b) = cc

  -- What is found from the stack after a folder has given way to its children.
  Descends-popped :
      (stack rest : List Text) (f : Folder) (b : Bool)
      → Pops stack (popped f rest)
      → Descends (push_folders f.children rest) b
      → Descends stack b
  Descends-popped stack rest f true (id, found, inside, other, more, less) (x, on, below) =
      elim (Bool-cases (has_child x f.children)) [
        | inl child ↦ (id, inside, under (f, found, child) below)
        | inr no_child ↦
            let pushed = includes-push_folders x f.children rest in
            let kept : includes rest x ≡ true = ground arith in (x, more x kept, below)
      ]
  Descends-popped stack rest f false (id, found, inside, other, more, less) h = λ x on below.
      elim (less x on) [
        | inl same ↦ at_folder (rw (← same) below)
        | inr (inl kept) ↦
            let pushed = includes-push_folders x f.children rest in h x (ground arith) below
        | inr (inr pass) ↦ passed-not_Below x pass below
      ]
    where
      through : (a : Text) → a ≡ id → Below folders candidate a → ⊥
      through a same itself = let key = ==_refl candidate in cc
      through a same (under {b = b} (g, found', child) below) =
          let one : g ≡ f = ground arith in
          let child' : has_child b f.children ≡ true = rw (← one) child in
          let pushed = includes-push_folders b f.children rest in h b (ground arith) below

      at_folder : Below folders candidate id → ⊥
      at_folder below = through id refl below

  descend-Descends :
      (rounds : ℕ) (stack : List Text) (b : Bool)
      → descend folders candidate rounds stack ≡ ok b
      → Descends stack b
  unfolding descend
  descend-Descends zero stack b e =
      go (pop_folder folders candidate stack) refl (pop_folder-Pops stack)
    where
      go : (p : Popped) → pop_folder folders candidate stack ≡ p → Pops stack p → Descends stack b
      go emptied k h =
          let same : b ≡ false = ground arith in rw same (λ x on. passed-not_Below x (h x on))
      go reached k h = let same : b ≡ true = ground arith in rw same (candidate, h, itself)
      go (popped f rest) k h = absurd (ground arith)
  descend-Descends (suc rounds) stack b e =
      go (pop_folder folders candidate stack) refl (pop_folder-Pops stack)
        (λ rest h. descend-Descends rounds rest b h)
    where
      go :
          (p : Popped)
          → pop_folder folders candidate stack ≡ p
          → Pops stack p
          → ((rest : List Text) → descend folders candidate rounds rest ≡ ok b → Descends rest b)
          → Descends stack b
      go emptied k h next =
          let same : b ≡ false = ground arith in rw same (λ x on. passed-not_Below x (h x on))
      go reached k h next = let same : b ≡ true = ground arith in rw same (candidate, h, itself)
      go (popped f rest) k h next =
          Descends-popped stack rest f b h (next (push_folders f.children rest) (ground arith))

  abbrev pub IsAnswer : Text → Bool → Type 0
  IsAnswer id true = Below folders candidate id
  IsAnswer id false = ¬ Below folders candidate id

  -- Where no folder has an empty identifier, and the one looked for is not empty: when
  -- `isFolderDescendant` answers `true`, the folder looked for is the given one or below it by way
  -- of children; when it answers `false`, it is neither.
  pub is_folder_descendant-IsAnswer :
      (id : Text) (b : Bool) → is_folder_descendant folders id candidate ≡ ok b → IsAnswer id b
  unfolding is_folder_descendant includes
  is_folder_descendant-IsAnswer id true e =
      let (x, on, below) = descend-Descends max_traversal_guard (id ∷ []) true e in
      let same : id ≡ x = eq_of_== id x (ground arith) in rw same below
  is_folder_descendant-IsAnswer id false e =
      descend-Descends max_traversal_guard (id ∷ []) false e id (rw (==_refl id) refl)
