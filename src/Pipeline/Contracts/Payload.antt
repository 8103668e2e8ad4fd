-- ===== src/Pipeline/Contracts/Payload.antt =====
-- nativeJobContracts.ts: the kind and the payload of a job that is submitted.
use bbmcp.Prelude.{ℕ, Bool, List, [], ◌∷◌, Option, none, some, if◌then◌else◌}
use bbmcp.Prelude.Text.{Text, text, trim, ◌==◌}
use bbmcp.Pipeline.Model.{Result, ok, throw, ◌>>=◌, ◌>>◌, require, job_contract}
use bbmcp.Pipeline.Json.{
  Json, undefined, member, only_keys, as_object, as_bool, as_non_empty, as_positive, optional,
  array_of,
}
use bbmcp.Pipeline.Contracts.{
  JobKind, gltf_convert, texture_preflight, GltfConvertPayload, TexturePreflightPayload, JobBody,
  gltf, preflight,
}

abbrev pub gltf_convert_name : Text
gltf_convert_name = text "gltf.convert"

abbrev pub texture_preflight_name : Text
texture_preflight_name = text "texture.preflight"

unfoldable pub normalize_supported_native_job_kind : Json → Result JobKind
unfolding as_non_empty
normalize_supported_native_job_kind v = do
  value ← as_non_empty v
  let normalized = trim value
  if normalized == gltf_convert_name
      then ok gltf_convert
      else if normalized == texture_preflight_name
      then ok texture_preflight
      else throw job_contract

abbrev gltf_payload_keys : List Text
gltf_payload_keys = text "codecId" ∷ text "optimize" ∷ []

-- `Object.keys(normalized).length > 0 ? normalized : undefined`.
abbrev non_empty_gltf : Option Text → Option Bool → Option GltfConvertPayload
non_empty_gltf none none = none
non_empty_gltf codec_id optimize = some (record { codec_id = codec_id; optimize = optimize })

unfoldable pub normalize_gltf_convert_payload : Json → Result (Option GltfConvertPayload)
normalize_gltf_convert_payload undefined = ok none
normalize_gltf_convert_payload payload = do
  fields ← as_object payload
  require (only_keys gltf_payload_keys fields) job_contract
  codec_id ← optional as_non_empty (member (text "codecId") fields)
  optimize ← optional as_bool (member (text "optimize") fields)
  ok (non_empty_gltf codec_id optimize)

abbrev preflight_payload_keys : List Text
preflight_payload_keys = text "textureIds" ∷ text "maxDimension" ∷ text "allowNonPowerOfTwo" ∷ []

abbrev non_empty_preflight :
    Option (List Text) → Option ℕ → Option Bool → Option TexturePreflightPayload
non_empty_preflight none none none = none
non_empty_preflight texture_ids max_dimension allow = some (record {
  texture_ids = texture_ids;
  max_dimension = max_dimension;
  allow_non_power_of_two = allow;
})

unfoldable pub normalize_texture_preflight_payload : Json → Result (Option TexturePreflightPayload)
normalize_texture_preflight_payload undefined = ok none
normalize_texture_preflight_payload payload = do
  fields ← as_object payload
  require (only_keys preflight_payload_keys fields) job_contract
  texture_ids ← optional (array_of as_non_empty) (member (text "textureIds") fields)
  max_dimension ← optional as_positive (member (text "maxDimension") fields)
  allow ← optional as_bool (member (text "allowNonPowerOfTwo") fields)
  ok (non_empty_preflight texture_ids max_dimension allow)

-- The payload of a new job, behind its kind; there is no result yet.
unfoldable pub normalize_native_job_payload : JobKind → Json → Result JobBody
unfolding normalize_gltf_convert_payload normalize_texture_preflight_payload
normalize_native_job_payload gltf_convert payload = do
  normalized ← normalize_gltf_convert_payload payload
  ok (gltf normalized none)
normalize_native_job_payload texture_preflight payload = do
  normalized ← normalize_texture_preflight_payload payload
  ok (preflight normalized none)
