-- ===== src/Pipeline/Tree/Collecting.antt =====
-- projectTreeOps.ts: what `collectFolderSubtree` collects.
use bbmcp.Prelude.{
  ℕ, zero, suc, ◌≤◌, ◌≡◌, refl, ◌↔◌, inl, inr, List, [], ◌∷◌, true, false, none, some, arith,
  Bool-cases, Option-cases,
}
use bbmcp.Prelude.Text.{Text, ◌==◌, eq_of_==, ==_refl, is_empty, includes}
use bbmcp.Prelude.Dict.{Dict, get}
use bbmcp.Pipeline.State.{Folder}
use bbmcp.Pipeline.Tree.Walks.{push_folders, collect_from, collect_folder_subtree}
use bbmcp.Pipeline.Tree.Edges.{has_child, Below, itself, under, IsGrounded, includes-push_folders}
use bbmcp.Pipeline.Tree.Ending.{collect_from-Ends}

module _ (folders : Dict Folder) where
  -- Something on the stack has the folder below it.
  abbrev Found : List Text → Text → Type 0
  Found stack x = (y : Text) × (includes stack y ≡ true) × Below folders x y

  Found-later : (id : Text) (stack : List Text) (x : Text) → Found stack x → Found (id ∷ stack) x
  unfolding includes
  Found-later id stack x (y, on, below) = (y, ground arith, below)

  Found-push :
      (id : Text) (f : Folder) (stack : List Text) (x : Text)
      → get id folders ≡ some f
      → Found (push_folders f.children stack) x
      → Found (id ∷ stack) x
  unfolding includes
  Found-push id f stack x found (y, on, below) =
      let pushed = includes-push_folders y f.children stack in
      elim (Bool-cases (has_child y f.children)) [
        | inl child ↦ (id, rw (==_refl id) refl, under (f, found, child) below)
        | inr other ↦ (y, ground arith, below)
      ]

  abbrev Collects : List Text → List Text → Text → Type 0
  Collects stack l x = (includes l x ≡ true) ↔ ((is_empty x ≡ false) × Found stack x)

  Below-absent : (id x : Text) → get id folders ≡ none → Below folders x id → x ≡ id
  Below-absent id x absent itself = refl
  Below-absent id x absent (under (f, found, child) below) = cc

  Collects-blank :
      (id : Text) (stack l : List Text) (x : Text)
      → get [] folders ≡ none
      → is_empty id ≡ true
      → Collects stack l x
      → Collects (id ∷ stack) l x
  unfolding includes
  Collects-blank (c ∷ id) stack l x unnamed blank h = cc
  Collects-blank [] stack l x unnamed blank (sound, complete) = (
    λ on. let (filled, found) = sound on in (filled, Found-later [] stack x found),
    λ (filled, (y, on, below)). elim (Bool-cases ([] == y)) [
      | inl hit ↦ let top = Below-absent [] x unnamed (rw (eq_of_== [] y hit) below) in cc
      | inr miss ↦ complete (filled, (y, ground arith, below))
    ],
  )

  Collects-absent :
      (id : Text) (stack l : List Text) (x : Text)
      → is_empty id ≡ false
      → get id folders ≡ none
      → Collects stack l x
      → Collects (id ∷ stack) (id ∷ l) x
  unfolding includes
  Collects-absent id stack l x filled absent (sound, complete) = (there, back)
    where
      there : (includes (id ∷ l) x ≡ true) → (is_empty x ≡ false) × Found (id ∷ stack) x
      there on = elim (Bool-cases (id == x)) [
        | inl hit ↦
            let same : id ≡ x = eq_of_== id x hit in
            rw (← same) (filled, (id, rw (==_refl id) refl, itself))
        | inr miss ↦
            let (full, found) = sound (ground arith) in (full, Found-later id stack x found)
      ]

      back : (is_empty x ≡ false) × Found (id ∷ stack) x → includes (id ∷ l) x ≡ true
      back (full, (y, on, below)) = elim (Bool-cases (id == y)) [
        | inl hit ↦
            let same : id ≡ y = eq_of_== id y hit in
            let top : x ≡ id = Below-absent id x absent (rw same below) in rw (top, ==_refl id) refl
        | inr miss ↦ let k = complete (full, (y, ground arith, below)) in rw k (ground arith)
      ]

  Collects-folder :
      (id : Text) (f : Folder) (stack l : List Text) (x : Text)
      → is_empty id ≡ false
      → get id folders ≡ some f
      → Collects (push_folders f.children stack) l x
      → Collects (id ∷ stack) (id ∷ l) x
  unfolding includes
  Collects-folder id f stack l x filled found (sound, complete) = (there, back)
    where
      there : (includes (id ∷ l) x ≡ true) → (is_empty x ≡ false) × Found (id ∷ stack) x
      there on = elim (Bool-cases (id == x)) [
        | inl hit ↦
            let same : id ≡ x = eq_of_== id x hit in
            rw (← same) (filled, (id, rw (==_refl id) refl, itself))
        | inr miss ↦ let (full, k) = sound (ground arith) in (full, Found-push id f stack x found k)
      ]

      from_id :
          (y : Text) → y ≡ id → is_empty x ≡ false → Below folders x y → includes (id ∷ l) x ≡ true
      from_id y same full itself = rw (← same, ==_refl y) refl
      from_id y same full (under {b = b} (g, found', child) below) =
          let one : g ≡ f = ground arith in
          let child' : has_child b f.children ≡ true = rw (← one) child in
          let pushed = includes-push_folders b f.children stack in
          let k = complete (full, (b, ground arith, below)) in rw k (ground arith)

      back : (is_empty x ≡ false) × Found (id ∷ stack) x → includes (id ∷ l) x ≡ true
      back (full, (y, on, below)) = elim (Bool-cases (id == y)) [
        | inl hit ↦ from_id y (rw (eq_of_== id y hit) refl) full below
        | inr miss ↦
            let pushed = includes-push_folders y f.children stack in
            let k = complete (full, (y, ground arith, below)) in rw k (ground arith)
      ]

  module _ (unnamed : get [] folders ≡ none) (x : Text) where
    collect_from-Collects :
        (m : ℕ) (stack l : List Text) → collect_from folders m stack ≡ some l → Collects stack l x
    unfolding collect_from includes
    collect_from-Collects zero [] l e =
        let none_left : l ≡ [] = ground arith in
        rw none_left (λ on. absurd cc, λ (full, (y, on, below)). absurd cc)
    collect_from-Collects (suc m) [] l e =
        let none_left : l ≡ [] = ground arith in
        rw none_left (λ on. absurd cc, λ (full, (y, on, below)). absurd cc)
    collect_from-Collects zero (id ∷ stack) l e = cc
    collect_from-Collects (suc m) (id ∷ stack) l e = elim (Bool-cases (is_empty id)) [
      | inl blank ↦
          Collects-blank id stack l x unnamed blank
            (collect_from-Collects m stack l (rw (collect_from, blank) at e))
      | inr filled ↦ elim (Option-cases (get id folders)) [
        | inl absent ↦ elim (Option-cases (collect_from folders m stack)) [
          | inl stuck ↦ absurd (ground arith)
          | inr (rest, k) ↦
              let same : l ≡ id ∷ rest = ground arith in
              rw same (
                Collects-absent id stack rest x filled absent
                  (collect_from-Collects m stack rest k))
        ]
        | inr (f, found) ↦
            elim (Option-cases (collect_from folders m (push_folders f.children stack))) [
              | inl stuck ↦ absurd (ground arith)
              | inr (rest, k) ↦
                  let same : l ≡ id ∷ rest = ground arith in
                  rw same (
                    Collects-folder id f stack rest x filled found
                      (collect_from-Collects m (push_folders f.children stack) rest k))
            ]
      ]
    ]

  pub collect_folder_subtree-Collects :
      get [] folders ≡ none
      → (m : ℕ) (id : Text) (l : List Text) → collect_folder_subtree m folders id ≡ some l
      → (x : Text) → (includes l x ≡ true) ↔ ((is_empty x ≡ false) × Below folders x id)
  unfolding collect_folder_subtree includes
  collect_folder_subtree-Collects unnamed m id l e x =
      let (sound, complete) = collect_from-Collects unnamed x m (id ∷ []) l e in
      (
        λ on.
            let (full, (z, here, below)) = sound on in
            (full, rw (eq_of_== id z (ground arith)) below),
        λ (full, below). complete (full, (id, rw (==_refl id) refl, below)),
      )

  -- Where no folder has an empty identifier and each way down from a folder ends, the loop of
  -- `collectFolderSubtree` ends: from some number of rounds on it gives one and the same list,
  -- in which stand the folder and those below it, but for empty identifiers, and nothing else.
  pub collect_folder_subtree-Ends :
      (id : Text)
      → get [] folders ≡ none
      → IsGrounded folders id
      → (n : ℕ) × (l : List Text) × ((m : ℕ) → n ≤ m → collect_folder_subtree m folders id ≡ some l)
        × ((x : Text) → (includes l x ≡ true) ↔ ((is_empty x ≡ false) × Below folders x id))
  unfolding collect_folder_subtree collect_from includes
  collect_folder_subtree-Ends id unnamed h =
      let (n, l, ends) = collect_from-Ends folders id [] h (0, [], at_once) in
      (n, l, ends, λ x. collect_folder_subtree-Collects unnamed n id l (ends n (omega arith)) x)
    where
      at_once : (m : ℕ) → 0 ≤ m → collect_from folders m [] ≡ some []
      at_once zero le = refl
      at_once (suc m) le = refl
