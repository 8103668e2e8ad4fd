-- ===== src/Pipeline/Tree/Reorder.antt =====
-- projectTreeOps.ts: an entry is moved within the children of its parent.
use bbmcp.Prelude.{
  ℕ, zero, suc, ◌+◌, ◌-◌, ◌≡◌, ◌≤◌, ◌<◌, refl, sym, ap, inl, inr, List, [], ◌∷◌, ◌++◌, true, false,
  not, Option, none, some, if◌then◌else◌, arith, ltb, Bool-cases, length, take, drop, keep_if,
}
use bbmcp.Prelude.Text.{Text}
use bbmcp.Prelude.Number.{
  Number, nan, infinite, finite, signed, finite_trunc, clamp_or, clamp_or_bounds,
}
use bbmcp.Pipeline.State.{ChildKind, ChildRef}
use bbmcp.Pipeline.Tree.{
  is_ref, find_index, remove_child_ref, insert_at, insert_child_ref, normalize_index, adjust,
  resolve_reorder_insert_index,
}

module _ (kind : ChildKind) (id : Text) where
  abbrev pub occurrences : List ChildRef → ℕ
  occurrences [] = 0
  occurrences (x ∷ xs) = (if is_ref kind id x then 1 else 0) + occurrences xs

  -- All entries but those of the child.
  abbrev pub without : List ChildRef → List ChildRef
  without = keep_if (λ x. not (is_ref kind id x))

  without_none : (xs : List ChildRef) → occurrences xs ≡ 0 → without xs ≡ xs
  without_none [] h = refl
  without_none (x ∷ xs) h = elim (Bool-cases (is_ref kind id x)) [
    | inl hit ↦ absurd (ground arith)
    | inr miss ↦ rw (miss, without_none xs (ground arith)) refl
  ]

  -- With one occurrence, to remove the first is to remove all.
  remove_child_ref-without :
      (xs : List ChildRef) → occurrences xs ≡ 1 → remove_child_ref kind id xs ≡ some (without xs)
  unfolding remove_child_ref
  remove_child_ref-without [] h = absurd (omega arith)
  remove_child_ref-without (x ∷ xs) h = elim (Bool-cases (is_ref kind id x)) [
    | inl hit ↦ rw (hit, without_none xs (ground arith)) refl
    | inr miss ↦ rw (miss, remove_child_ref-without xs (ground arith)) refl
  ]

  length-without : (xs : List ChildRef) → length (without xs) + occurrences xs ≡ length xs
  length-without [] = omega arith
  length-without (x ∷ xs) = ground (arith, length-without xs)

  find_index-occurs :
      (xs : List ChildRef)
      → occurrences xs ≡ 1
      → (i : ℕ) × (find_index kind id xs ≡ some i) × (i < length xs)
  unfolding find_index
  find_index-occurs [] h = absurd (omega arith)
  find_index-occurs (x ∷ xs) h = elim (Bool-cases (is_ref kind id x)) [
    | inl hit ↦ (0, rw hit refl, omega arith)
    | inr miss ↦
        let (i, found, below) = find_index-occurs xs (ground arith) in
        (suc i, rw (miss, found) refl, omega arith)
  ]

  -- In a list without the child, an insertion parts the list.
  insert_at-parts :
      (entry : ChildRef) (xs : List ChildRef) (t : ℕ)
      → occurrences xs ≡ 0
      → t ≤ length xs
      → insert_at t entry xs ≡ without (take t xs) ++ entry ∷ without (drop t xs)
  unfolding insert_at
  insert_at-parts entry xs zero h b = rw (without_none xs h) refl
  insert_at-parts entry [] (suc t) h b = absurd (omega arith)
  insert_at-parts entry (x ∷ xs) (suc t) h b = elim (Bool-cases (is_ref kind id x)) [
    | inl hit ↦ absurd (ground arith)
    | inr miss ↦ rw miss (ap (λ l. x ∷ l) (insert_at-parts entry xs t (ground arith) (omega arith)))
  ]

  insert_at-shifted :
      (entry x : ChildRef) (xs : List ChildRef) (i t : ℕ)
      → insert_at (adjust (some (suc i)) (suc t)) entry (x ∷ xs)
        ≡ x ∷ insert_at (adjust (some i) t) entry xs
  unfolding insert_at
  insert_at-shifted entry x xs i zero = ground arith
  insert_at-shifted entry x xs i (suc u) = elim (Bool-cases (ltb i (suc u))) [
    | inl ahead ↦
        let up : ltb (suc i) (suc (suc u)) ≡ true = ground arith in
        let down : suc u - 1 ≡ u = omega arith in
        let down' : suc (suc u) - 1 ≡ suc u = omega arith in rw (up, ahead, down, down') refl
    | inr behind ↦ let up : ltb (suc i) (suc (suc u)) ≡ false = ground arith in rw (up, behind) refl
  ]

  insert_at-adjust :
      (entry : ChildRef) (xs : List ChildRef) (t : ℕ)
      → occurrences xs ≡ 1
      → t ≤ length xs
      → insert_at (adjust (find_index kind id xs) t) entry (without xs)
        ≡ without (take t xs) ++ entry ∷ without (drop t xs)
  unfolding find_index insert_at
  insert_at-adjust entry [] t h b = absurd (omega arith)
  insert_at-adjust entry (x ∷ xs) zero h b = elim (Bool-cases (is_ref kind id x)) [
    | inl hit ↦ rw (hit, without_none xs (ground arith)) refl
    | inr miss ↦
        let (i, found, below) = find_index-occurs xs (ground arith) in
        let first : ltb (suc i) 0 ≡ false = ground arith in rw (miss, found, first) refl
  ]
  insert_at-adjust entry (x ∷ xs) (suc t) h b = elim (Bool-cases (is_ref kind id x)) [
    | inl hit ↦
        let front : ltb 0 (suc t) ≡ true = ground arith in
        let down : suc t - 1 ≡ t = omega arith in
        rw (hit, without_none xs (ground arith), front, down)
          (insert_at-parts entry xs t (ground arith) (omega arith))
    | inr miss ↦
        let (i, found, below) = find_index-occurs xs (ground arith) in
        let rest = rw found at (insert_at-adjust entry xs t (ground arith) (omega arith)) in
        rw (miss, found, insert_at-shifted entry x (without xs) i t) (ap (λ l. x ∷ l) rest)
  ]

  adjust-bound :
      (xs : List ChildRef) (t : ℕ)
      → occurrences xs ≡ 1
      → t ≤ length xs
      → adjust (find_index kind id xs) t ≤ length (without xs)
  adjust-bound xs t h b =
      let (i, found, below) = find_index-occurs xs h in
      let shorter : length (without xs) + 1 ≡ length xs = omega (arith, length-without xs) in
      rw found (ground arith)

  adjust-length :
      (xs : List ChildRef)
      → occurrences xs ≡ 1
      → adjust (find_index kind id xs) (length xs) ≡ length (without xs)
  adjust-length xs h =
      let (i, found, below) = find_index-occurs xs h in
      let shorter : length (without xs) + 1 ≡ length xs = omega (arith, length-without xs) in
      rw found (ground arith)

  inserted_place :
      (index : Option Number) (xs : List ChildRef)
      → occurrences xs ≡ 1
      → normalize_index (resolve_reorder_insert_index xs kind id index) (length (without xs))
        ≡ adjust (find_index kind id xs) (normalize_index index (length xs))
  unfolding normalize_index resolve_reorder_insert_index
  inserted_place none xs h = sym (adjust-length xs h)
  inserted_place (some nan) xs h = sym (adjust-length xs h)
  inserted_place (some (infinite negative)) xs h = sym (adjust-length xs h)
  inserted_place (some (finite negative whole part)) xs h =
      let z = some (signed negative whole) in
      let (low, high) = clamp_or_bounds z (length xs) 0 (length xs) (omega arith) (omega arith) in
      let fits = adjust-bound xs (clamp_or z (length xs) 0 (length xs)) h high in ground arith

-- An entry that stands once among the children of its parent and is moved among them by an index
-- of the list as it was before comes to stand between those before that index and those from that
-- index on, which keep their order; without an index it comes last.
pub insert_child_ref-resolve_reorder_insert_index :
    (kind : ChildKind) (id : Text) (entry : ChildRef) (xs : List ChildRef) (index : Option Number)
    → occurrences kind id xs ≡ 1
    → (kept : List ChildRef) × (remove_child_ref kind id xs ≡ some kept)
      × (insert_child_ref kept entry (resolve_reorder_insert_index xs kind id index)
          ≡ without kind id (take (normalize_index index (length xs)) xs)
            ++ entry ∷ without kind id (drop (normalize_index index (length xs)) xs))
unfolding insert_child_ref resolve_reorder_insert_index normalize_index
insert_child_ref-resolve_reorder_insert_index kind id entry xs index h = (
  without kind id xs,
  remove_child_ref-without kind id xs h,
  rw (inserted_place kind id index xs h) (
      insert_at-adjust kind id entry xs (normalize_index index (length xs)) h (
        (clamp_or_bounds (finite_trunc index) (length xs) 0 (length xs) (omega arith)
          (omega arith)).1)),
)
