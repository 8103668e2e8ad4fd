-- ===== src/Pipeline/Projects/Views/Ending.antt =====
-- projectRepository.ts: `getProjectTree` ends in a acyclic.
use bbmcp.Prelude.{
  ℕ, zero, suc, ◌+◌, ◌≤◌, ◌≡◌, refl, List, [], ◌∷◌, true, Option, some, arith, Option-cases, inl,
  inr,
}
use bbmcp.Prelude.Text.{Text, ==_refl}
use bbmcp.Prelude.Dict.{get}
use bbmcp.Pipeline.State.{ChildKind, folder, project, ChildRef, Folder, State}
use bbmcp.Pipeline.Tree.Edges.{has_child, IsGrounded, grounded}
use bbmcp.Pipeline.Tree.Ending.{Ends}
use bbmcp.Pipeline.Projects.Folders.Attaching.{Acyclic}
use bbmcp.Pipeline.Projects.Views.{
  TreeNodes, no_nodes, folder_before, project_before, build_each, build_tree_nodes, normalize_query,
  get_project_tree,
}

module _ (lower : Text → Text) (s : State) (query : Text) where
  abbrev below_at : ℕ → List ChildRef → ℕ → Option TreeNodes
  below_at m = build_tree_nodes lower s query m

  abbrev EachEnds : ℕ → List ChildRef → Type 0
  EachEnds depth children = Ends (λ m. build_each lower s query (below_at m) depth children)

  build_each-Ends :
      (depth : ℕ) (children : List ChildRef)
      → ((b : Text) (f : Folder)
          → has_child b children ≡ true
          → get b s.folders ≡ some f
          → Ends (λ m. below_at m f.children (depth + 1)))
      → EachEnds depth children
  unfolding build_each
  build_each-Ends depth [] h = (0, no_nodes, λ m le. refl)
  build_each-Ends depth (child ∷ children) h =
      go child.kind refl (build_each-Ends depth children (λ b f e k. h b f (ground arith) k))
    where
      go :
          (k : ChildKind)
          → child.kind ≡ k
          → EachEnds depth children
          → EachEnds depth (child ∷ children)
      go project kind (n, nodes, rest) = (
        n,
        project_before lower s query (get child.id s.projects) depth nodes,
        λ m le. rw (build_each, rest m le, kind) refl,
      )
      go folder kind (n, nodes, rest) = elim (Option-cases (get child.id s.folders)) [
        | inl absent ↦ (n, nodes, λ m le. rw (build_each, rest m le, kind, absent) refl)
        | inr (f, found) ↦
            let same = ==_refl child.id in
            let (n', inner, first) = h child.id f (ground arith) found in
            (
              n + n',
              folder_before lower s query f depth inner nodes,
              λ m le.
                  rw (build_each, rest m (omega arith), kind, found, first m (omega arith)) refl,
            )
      ]

  one_more :
      (depth : ℕ) (children : List ChildRef)
      → EachEnds depth children
      → Ends (λ m. below_at m children depth)
  unfolding build_tree_nodes
  one_more depth children (n, nodes, ends) = (suc n, nodes, later)
    where
      later : (m : ℕ) → suc n ≤ m → below_at m children depth ≡ some nodes
      later zero le = absurd (omega arith)
      later (suc m) le = ends m (omega arith)

  build_below-Ends :
      (id : Text) (f : Folder)
      → IsGrounded s.folders id
      → get id s.folders ≡ some f
      → (depth : ℕ) → Ends (λ m. below_at m f.children depth)
  build_below-Ends id f (grounded h) found depth = one_more depth f.children (
      build_each-Ends depth f.children
        (λ b g child found'. build_below-Ends b g (h b (f, found, child)) found' (depth + 1)))

-- Where the folders are acyclic `getProjectTree` ends, for every query: from some number of rounds
-- of its recursion on it gives one and the same tree.
pub get_project_tree-Ends :
    (lower : Text → Text) (query : Option Text) (s : State)
    → Acyclic s
    → Ends (λ rounds. get_project_tree lower rounds query s)
unfolding get_project_tree
get_project_tree-Ends lower query s h =
    let q = normalize_query lower query in
    one_more lower s q 1 s.root_children (
      build_each-Ends lower s q 1 s.root_children
        (λ b f child found. build_below-Ends lower s q b f (h.ends b) found 2))
