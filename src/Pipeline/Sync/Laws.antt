-- ===== src/Pipeline/Sync/Laws.antt =====
-- projectSnapshotSync.ts: the loop over the stack against a recursion.
use bbmcp.Prelude.{ℕ, zero, suc, ◌+◌, ◌≡◌, ◌≤◌, List, [], ◌∷◌, arith}
use bbmcp.Pipeline.Model.{NodeKind, bone, cube, HierarchyNode, node, HierarchyNodes, leaf, branch}
use bbmcp.Pipeline.State.{Stats}
use bbmcp.Pipeline.Sync.{
  count_node, push_all, count_stack, size_node, size_nodes, derive_hierarchy_stats,
}

abbrev pub is_bone : NodeKind → ℕ
is_bone bone = 1
is_bone cube = 0

abbrev pub is_cube : NodeKind → ℕ
is_cube bone = 0
is_cube cube = 1

-- The nodes of one kind in a forest, by recursion on the forest.
unfoldable mutual
  pub tally_node : (NodeKind → ℕ) → HierarchyNode → ℕ
  tally_node weight (node id name kind children) = weight kind + tally weight children

  pub tally : (NodeKind → ℕ) → HierarchyNodes → ℕ
  tally weight leaf = 0
  tally weight (branch n ns) = tally_node weight n + tally weight ns

abbrev tally_stack : (NodeKind → ℕ) → List HierarchyNode → ℕ
tally_stack weight [] = 0
tally_stack weight (n ∷ stack) = tally_node weight n + tally_stack weight stack

abbrev size_stack : List HierarchyNode → ℕ
size_stack [] = 0
size_stack (n ∷ stack) = size_node n + size_stack stack

tally-push_all :
    (weight : NodeKind → ℕ) (ns : HierarchyNodes) (stack : List HierarchyNode)
    → tally_stack weight (push_all ns stack) ≡ tally weight ns + tally_stack weight stack
unfolding tally
tally-push_all weight leaf stack = omega arith
tally-push_all weight (branch n ns) stack = omega (arith, tally-push_all weight ns (n ∷ stack))

size-push_all :
    (ns : HierarchyNodes) (stack : List HierarchyNode)
    → size_stack (push_all ns stack) ≡ size_nodes ns + size_stack stack
unfolding size_nodes
size-push_all leaf stack = omega arith
size-push_all (branch n ns) stack = omega (arith, size-push_all ns (n ∷ stack))

-- With a round for each node on the stack, the loop adds the tallies of the stack.
count_stack-tally :
    (fuel : ℕ) (stack : List HierarchyNode) (s : Stats)
    → size_stack stack ≤ fuel
    → ((count_stack fuel stack s).bones ≡ s.bones + tally_stack is_bone stack)
      × ((count_stack fuel stack s).cubes ≡ s.cubes + tally_stack is_cube stack)
unfolding count_stack size_nodes tally
count_stack-tally zero [] s h = (omega arith, omega arith)
count_stack-tally zero (node id name kind children ∷ stack) s h = absurd (omega arith)
count_stack-tally (suc fuel) [] s h = (omega arith, omega arith)
count_stack-tally (suc fuel) (node id name bone children ∷ stack) s h = omega (
  arith,
  size-push_all children stack,
  tally-push_all is_bone children stack,
  tally-push_all is_cube children stack,
  count_stack-tally fuel (push_all children stack) (count_node bone s)
      (omega (arith, size-push_all children stack)),
)
count_stack-tally (suc fuel) (node id name cube children ∷ stack) s h = omega (
  arith,
  size-push_all children stack,
  tally-push_all is_bone children stack,
  tally-push_all is_cube children stack,
  count_stack-tally fuel (push_all children stack) (count_node cube s)
      (omega (arith, size-push_all children stack)),
)

-- The statistics of a project are the numbers of its bones and of its cubes: the loop over the
-- stack visits every node of the hierarchy once, and its rounds are enough.
pub derive_hierarchy_stats-tally :
    (ns : HierarchyNodes)
    → ((derive_hierarchy_stats ns).bones ≡ tally is_bone ns)
      × ((derive_hierarchy_stats ns).cubes ≡ tally is_cube ns)
unfolding derive_hierarchy_stats
derive_hierarchy_stats-tally ns = omega (
  arith,
  size-push_all ns [],
  tally-push_all is_bone ns [],
  tally-push_all is_cube ns [],
  count_stack-tally (size_nodes ns) (push_all ns []) (record { bones = 0; cubes = 0 })
      (omega (arith, size-push_all ns [])),
)
