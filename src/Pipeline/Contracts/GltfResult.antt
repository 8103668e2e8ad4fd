-- ===== src/Pipeline/Contracts/GltfResult.antt =====
-- nativeJobContracts.ts: `normalizeGltfConvertResult`.
use bbmcp.Prelude.{ℕ, zero, suc, false, if◌then◌else◌}
use bbmcp.Prelude.Text.{text, ◌==◌}
use bbmcp.Prelude.Number.{finite}
use bbmcp.Pipeline.Model.{
  NodeKind, bone, cube, HierarchyNode, node, HierarchyNodes, leaf, branch, FaceDirection, north,
  east, south, west, up, down, Animation, TextureFaceSource, AtlasFace, UvEdge, TextureAtlas,
  Result, ok, throw, ◌>>=◌, ◌>>◌, require, job_contract,
}
use bbmcp.Pipeline.Json.{
  Json, undefined, null, bool, number, string, array, object, Items, nil, cons, Fields, end, field,
  member, as_object, as_bool, as_text, as_non_empty, as_finite, as_non_negative, as_integer,
  as_positive, optional, array_of,
}
use bbmcp.Pipeline.Contracts.{GltfStatus, converted, noop, GeometryDelta, GltfConvertResult}
use bbmcp.Pipeline.Contracts.Payload.{gltf_convert_name}

unfoldable pub as_direction : Json → Result FaceDirection
unfolding as_text
as_direction v = do
  s ← as_text v
  if s == text "north"
      then ok north
      else if s == text "south"
      then ok south
      else if s == text "east"
      then ok east
      else if s == text "west"
      then ok west
      else if s == text "up"
      then ok up
      else if s == text "down"
      then ok down
      else throw job_contract

unfoldable pub as_rotation_quarter : Json → Result ℕ
as_rotation_quarter (number (finite _ zero zero)) = ok 0
as_rotation_quarter (number (finite false (suc zero) zero)) = ok 1
as_rotation_quarter (number (finite false (suc (suc zero)) zero)) = ok 2
as_rotation_quarter (number (finite false (suc (suc (suc zero))) zero)) = ok 3
as_rotation_quarter _ = throw job_contract

unfoldable pub as_node_kind : Json → Result NodeKind
unfolding as_text
as_node_kind v = do
  s ← as_text v
  if s == text "bone" then ok bone else if s == text "cube" then ok cube else throw job_contract

abbrev read_node : Result HierarchyNodes → Fields → Result HierarchyNode
read_node parsed fields = do
  id ← as_non_empty (member (text "id") fields)
  name ← as_non_empty (member (text "name") fields)
  kind ← as_node_kind (member (text "kind") fields)
  children ← parsed
  ok (node id name kind children)

-- `parseHierarchyNode`, over a node, over an array of nodes, and over the field `children`.
unfoldable mutual
  pub parse_hierarchy_node : Json → Result HierarchyNode
  parse_hierarchy_node (object fields) = read_node (parse_children fields) fields
  parse_hierarchy_node undefined = throw job_contract
  parse_hierarchy_node null = throw job_contract
  parse_hierarchy_node (bool b) = throw job_contract
  parse_hierarchy_node (number n) = throw job_contract
  parse_hierarchy_node (string s) = throw job_contract
  parse_hierarchy_node (array xs) = throw job_contract

  pub parse_hierarchy_nodes : Items → Result HierarchyNodes
  parse_hierarchy_nodes nil = ok leaf
  parse_hierarchy_nodes (cons v vs) =
      let head = parse_hierarchy_node v in
      let tail = parse_hierarchy_nodes vs in head >>= λ n. tail >>= λ ns. ok (branch n ns)

  pub parse_hierarchy : Json → Result HierarchyNodes
  parse_hierarchy (array xs) = parse_hierarchy_nodes xs
  parse_hierarchy undefined = throw job_contract
  parse_hierarchy null = throw job_contract
  parse_hierarchy (bool b) = throw job_contract
  parse_hierarchy (number n) = throw job_contract
  parse_hierarchy (string s) = throw job_contract
  parse_hierarchy (object fields) = throw job_contract

  pub parse_children : Fields → Result HierarchyNodes
  parse_children end = throw job_contract
  parse_children (field k v fs) =
      let here = parse_hierarchy v in
      let later = parse_children fs in if k == text "children" then here else later

unfoldable pub read_animation : Json → Result Animation
read_animation v = do
  entry ← as_object v
  id ← as_non_empty (member (text "id") entry)
  name ← as_non_empty (member (text "name") entry)
  duration ← as_non_negative (member (text "length") entry)
  loop ← as_bool (member (text "loop") entry)
  ok (record { id = id; name = name; duration = duration; loop = loop })

unfoldable pub read_texture_source : Json → Result TextureFaceSource
read_texture_source v = do
  entry ← as_object v
  face_id ← as_non_empty (member (text "faceId") entry)
  cube_id ← as_non_empty (member (text "cubeId") entry)
  cube_name ← as_non_empty (member (text "cubeName") entry)
  direction ← as_direction (member (text "direction") entry)
  color_hex ← as_non_empty (member (text "colorHex") entry)
  rotation_quarter ← as_rotation_quarter (member (text "rotationQuarter") entry)
  ok (record {
    face_id = face_id;
    cube_id = cube_id;
    cube_name = cube_name;
    direction = direction;
    color_hex = color_hex;
    rotation_quarter = rotation_quarter;
  })

unfoldable pub read_atlas_face : Json → Result AtlasFace
read_atlas_face v = do
  face ← as_object v
  face_id ← as_non_empty (member (text "faceId") face)
  cube_id ← as_non_empty (member (text "cubeId") face)
  cube_name ← as_non_empty (member (text "cubeName") face)
  direction ← as_direction (member (text "direction") face)
  rotation_quarter ← as_rotation_quarter (member (text "rotationQuarter") face)
  u_min ← as_finite (member (text "uMin") face)
  v_min ← as_finite (member (text "vMin") face)
  u_max ← as_finite (member (text "uMax") face)
  v_max ← as_finite (member (text "vMax") face)
  ok (record {
    face_id = face_id;
    cube_id = cube_id;
    cube_name = cube_name;
    direction = direction;
    rotation_quarter = rotation_quarter;
    u_min = u_min;
    v_min = v_min;
    u_max = u_max;
    v_max = v_max;
  })

unfoldable pub read_uv_edge : Json → Result UvEdge
read_uv_edge v = do
  edge ← as_object v
  x1 ← as_finite (member (text "x1") edge)
  y1 ← as_finite (member (text "y1") edge)
  x2 ← as_finite (member (text "x2") edge)
  y2 ← as_finite (member (text "y2") edge)
  ok (record { x1 = x1; y1 = y1; x2 = x2; y2 = y2 })

unfoldable pub read_texture : Json → Result TextureAtlas
read_texture v = do
  entry ← as_object v
  texture_id ← as_non_empty (member (text "textureId") entry)
  name ← as_non_empty (member (text "name") entry)
  width ← as_non_negative (member (text "width") entry)
  height ← as_non_negative (member (text "height") entry)
  face_count ← as_non_negative (member (text "faceCount") entry)
  image_data_url ← as_non_empty (member (text "imageDataUrl") entry)
  faces ← array_of read_atlas_face (member (text "faces") entry)
  uv_edges ← array_of read_uv_edge (member (text "uvEdges") entry)
  ok (record {
    texture_id = texture_id;
    name = name;
    width = width;
    height = height;
    face_count = face_count;
    image_data_url = image_data_url;
    faces = faces;
    uv_edges = uv_edges;
  })

unfoldable pub as_gltf_status : Json → Result GltfStatus
unfolding as_text
as_gltf_status v = do
  s ← as_text v
  if s == text "converted"
      then ok converted
      else if s == text "noop"
      then ok noop
      else if s == text "failed"
      then ok GltfStatus.failed
      else throw job_contract

unfoldable pub read_geometry_delta : Json → Result GeometryDelta
read_geometry_delta v = do
  delta ← as_object v
  bones ← optional as_integer (member (text "bones") delta)
  cubes ← optional as_integer (member (text "cubes") delta)
  ok (record { bones = bones; cubes = cubes })

unfoldable pub normalize_gltf_convert_result : Fields → Result GltfConvertResult
normalize_gltf_convert_result result = do
  kind ← as_text (member (text "kind") result)
  require (kind == gltf_convert_name) job_contract
  processed_by ← optional as_non_empty (member (text "processedBy") result)
  attempt_count ← optional as_positive (member (text "attemptCount") result)
  finished_at ← optional as_non_empty (member (text "finishedAt") result)
  status ← optional as_gltf_status (member (text "status") result)
  has_geometry ← optional as_bool (member (text "hasGeometry") result)
  geometry_delta ← optional read_geometry_delta (member (text "geometryDelta") result)
  hierarchy ← optional parse_hierarchy (member (text "hierarchy") result)
  animations ← optional (array_of read_animation) (member (text "animations") result)
  texture_sources ← optional (array_of read_texture_source) (member (text "textureSources") result)
  textures ← optional (array_of read_texture) (member (text "textures") result)
  diagnostics ← optional (array_of as_text) (member (text "diagnostics") result)
  output ← optional as_object (member (text "output") result)
  ok (record {
    processed_by = processed_by;
    attempt_count = attempt_count;
    finished_at = finished_at;
    status = status;
    has_geometry = has_geometry;
    geometry_delta = geometry_delta;
    hierarchy = hierarchy;
    animations = animations;
    texture_sources = texture_sources;
    textures = textures;
    diagnostics = diagnostics;
    output = output;
  })
