-- ===== src/Pipeline/Tree/Ending.antt =====
-- projectTreeOps.ts: the walks that the source does not bound end in a acyclic.
use bbmcp.Prelude.{
  ℕ, zero, suc, ◌+◌, ◌≤◌, ◌≡◌, refl, inl, inr, List, [], ◌∷◌, true, false, Option, none, some, max,
  arith, Bool-cases,
}
use bbmcp.Prelude.Text.{Text, ==_refl, is_empty}
use bbmcp.Prelude.Dict.{Dict, get}
use bbmcp.Pipeline.State.{ChildKind, folder, project, ChildRef, Folder}
use bbmcp.Pipeline.Tree.Walks.{max_height, get_subtree_folder_height, push_folders, collect_from}
use bbmcp.Pipeline.Tree.Edges.{has_child, Edge, IsGrounded, grounded}

-- With some number of rounds or more, a loop gives the same.
abbrev pub Ends {ℓ} : {A : Type ℓ} → (ℕ → Option A) → Type ℓ
Ends {A = A} loop = (n : ℕ) × (a : A) × ((m : ℕ) → n ≤ m → loop m ≡ some a)

module _ (folders : Dict Folder) where
  abbrev pub CollectEnds : List Text → Type 0
  CollectEnds stack = Ends (λ m. collect_from folders m stack)

  abbrev height_at : Text → ℕ → Option ℕ
  height_at id m = get_subtree_folder_height m folders id

  -- The children that are folders are all measured.
  max_height-Ends :
      (children : List ChildRef)
      → ((b : Text) → has_child b children ≡ true → Ends (height_at b))
      → Ends (λ m. max_height (get_subtree_folder_height m folders) children)
  max_height-Ends [] h = (0, 0, λ m le. refl)
  max_height-Ends (child ∷ children) h =
      go child.kind refl (max_height-Ends children (λ b e. h b (ground arith)))
    where
      go :
          (k : ChildKind)
          → child.kind ≡ k
          → Ends (λ m. max_height (get_subtree_folder_height m folders) children)
          → Ends (λ m. max_height (get_subtree_folder_height m folders) (child ∷ children))
      go project e (n, a, rest) = (n, a, λ m le. rw e (rest m le))
      go folder e (n, a, rest) =
          let same = ==_refl child.id in
          let (n', a', first) = h child.id (ground arith) in
          (n + n', max a' a, λ m le. rw (e, first m (omega arith), rest m (omega arith)) refl)

  pub get_subtree_folder_height-Ends : (id : Text) → IsGrounded folders id → Ends (height_at id)
  unfolding get_subtree_folder_height
  get_subtree_folder_height-Ends id (grounded h) =
      go (get id folders) refl (λ b edge. get_subtree_folder_height-Ends b (h b edge))
    where
      stepped : (n a : ℕ) → ((m : ℕ) → n ≤ m → height_at id (suc m) ≡ some a) → Ends (height_at id)
      stepped n a k = (suc n, a, later)
        where
          later : (m : ℕ) → suc n ≤ m → height_at id m ≡ some a
          later zero le = absurd (omega arith)
          later (suc m) le = k m (omega arith)

      go :
          (o : Option Folder)
          → get id folders ≡ o
          → ((b : Text) → Edge folders id b → Ends (height_at b))
          → Ends (height_at id)
      go none e next = stepped 0 1 (λ m le. rw (get_subtree_folder_height, e) refl)
      go (some f) e next =
          let (n, a, k) = max_height-Ends f.children (λ b child. next b (f, e, child)) in
          stepped n (a + 1) (λ m le. rw (get_subtree_folder_height, e, k m le) refl)

  -- One entry more ends where what stands below it ends.
  Ends-step :
      (id : Text) (stack stack' : List Text) (keep : List Text → List Text)
      → ((m : ℕ) (l : List Text)
          → collect_from folders m stack' ≡ some l
          → collect_from folders (suc m) (id ∷ stack) ≡ some (keep l))
      → CollectEnds stack'
      → CollectEnds (id ∷ stack)
  Ends-step id stack stack' keep step (n, l, k) = (suc n, keep l, later)
    where
      later : (m : ℕ) → suc n ≤ m → collect_from folders m (id ∷ stack) ≡ some (keep l)
      later zero le = absurd (omega arith)
      later (suc m) le = step m l (k m (omega arith))

  push_folders-Ends :
      (children : List ChildRef) (stack : List Text)
      → ((b : Text) (rest : List Text)
          → has_child b children ≡ true
          → CollectEnds rest
          → CollectEnds (b ∷ rest))
      → CollectEnds stack
      → CollectEnds (push_folders children stack)
  push_folders-Ends [] stack h k = k
  push_folders-Ends (child ∷ children) stack h k =
      go child.kind refl
        (λ s k'. push_folders-Ends children s (λ b rest e. h b rest (ground arith)) k')
    where
      go :
          (kind : ChildKind)
          → child.kind ≡ kind
          → ((s : List Text) → CollectEnds s → CollectEnds (push_folders children s))
          → CollectEnds (push_folders (child ∷ children) stack)
      go project e next = rw e (next stack k)
      go folder e next =
          let same = ==_refl child.id in
          rw e (next (child.id ∷ stack) (h child.id stack (ground arith) k))

  pub collect_from-Ends :
      (id : Text) (stack : List Text)
      → IsGrounded folders id
      → CollectEnds stack
      → CollectEnds (id ∷ stack)
  unfolding collect_from
  collect_from-Ends id stack (grounded h) k = elim (Bool-cases (is_empty id)) [
    | inl blank ↦ Ends-step id stack stack (λ l. l) (λ m l e. rw (collect_from, blank) e) k
    | inr filled ↦
        go filled (get id folders) refl (λ b rest edge k'. collect_from-Ends b rest (h b edge) k')
  ]
    where
      go :
          is_empty id ≡ false
          → (o : Option Folder) → get id folders ≡ o
          → ((b : Text) (rest : List Text)
              → Edge folders id b
              → CollectEnds rest
              → CollectEnds (b ∷ rest))
          → CollectEnds (id ∷ stack)
      go filled none absent next =
          Ends-step id stack stack (λ l. id ∷ l)
            (λ m l e. rw (collect_from, filled, absent, e) refl) k
      go filled (some f) found next =
          Ends-step id stack (push_folders f.children stack) (λ l. id ∷ l)
            (λ m l e. rw (collect_from, filled, found, e) refl)
            (push_folders-Ends f.children stack (λ b rest e. next b rest (f, found, e)) k)
