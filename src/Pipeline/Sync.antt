-- ===== src/Pipeline/Sync.antt =====
-- packages/native-pipeline/src/projectSnapshotSync.ts: what a snapshot derives from its hierarchy
-- and textures.
pub mod Laws
pub mod Cleaning
use bbmcp.Prelude.{
  ℕ, zero, suc, ◌+◌, List, [], ◌∷◌, ◌++◌, Bool, true, false, ◌&&◌, ◌||◌, not, if◌then◌else◌, ltb,
  keep_if, take, length,
}
use bbmcp.Prelude.Text.{Text, text, ◌==◌}
use bbmcp.Pipeline.Model.{
  NodeKind, bone, cube, HierarchyNode, node, HierarchyNodes, leaf, branch, TextureAtlas,
}
use bbmcp.Pipeline.State.{Stats, Project}

-- `text.startsWith(prefix)`.
abbrev starts_with : Text → Text → Bool
starts_with prefix s = take (length prefix) s == prefix

unfoldable pub is_legacy_mock_texture : TextureAtlas → Bool
is_legacy_mock_texture t =
    t.texture_id == text "atlas-main"
    && t.name == text "Main Atlas"
    && starts_with (text "data:image/svg+xml;base64,") t.image_data_url

abbrev pub count_node : NodeKind → Stats → Stats
count_node bone s = record s { bones = s.bones + 1 }
count_node cube s = record s { cubes = s.cubes + 1 }

-- `stack.push(...nodes)`; the top of the stack is the head of the list.
abbrev pub push_all : HierarchyNodes → List HierarchyNode → List HierarchyNode
push_all leaf stack = stack
push_all (branch n ns) stack = push_all ns (n ∷ stack)

-- The loop of `deriveHierarchyStats`.
unfoldable pub count_stack : ℕ → List HierarchyNode → Stats → Stats
count_stack zero stack s = s
count_stack (suc fuel) [] s = s
count_stack (suc fuel) (node id name kind children ∷ stack) s =
    count_stack fuel (push_all children stack) (count_node kind s)

unfoldable mutual
  pub size_node : HierarchyNode → ℕ
  size_node (node id name kind children) = suc (size_nodes children)

  pub size_nodes : HierarchyNodes → ℕ
  size_nodes leaf = 0
  size_nodes (branch n ns) = size_node n + size_nodes ns

-- One round for each node of the forest.
unfoldable pub derive_hierarchy_stats : HierarchyNodes → Stats
unfolding count_stack size_nodes
derive_hierarchy_stats nodes =
    count_stack (size_nodes nodes) (push_all nodes []) (record { bones = 0; cubes = 0 })

abbrev keep_sources {ℓ κ} : {A : Type ℓ} {B : Type κ} → List A → List B → List B
keep_sources [] sources = []
keep_sources (t ∷ ts) sources = sources

-- Where nothing changes the source leaves the snapshot alone, which is the same value.
unfoldable pub synchronize_project_snapshot : Project → Project
unfolding is_legacy_mock_texture derive_hierarchy_stats
synchronize_project_snapshot p =
    let next_stats = derive_hierarchy_stats p.hierarchy in
    let next_textures = keep_if (λ t. not (is_legacy_mock_texture t)) p.textures in
    record p {
      stats = next_stats;
      has_geometry = ltb 0 next_stats.bones || ltb 0 next_stats.cubes;
      textures = next_textures;
      texture_sources = keep_sources next_textures p.texture_sources;
    }
