-- ===== src/Pipeline/Contracts.antt =====
-- packages/native-pipeline/src/nativeJobContracts.ts: the kinds of jobs, and the forms of their
-- payloads and results. The children check values of type `unknown` against these forms.
pub mod Payload
pub mod GltfResult
pub mod PreflightResult
use bbmcp.Prelude.{ℕ, List, Bool, Option}
use bbmcp.Prelude.Text.{Text}
use bbmcp.Prelude.Number.{ℤ}
use bbmcp.Pipeline.Model.{HierarchyNodes, Animation, TextureFaceSource, TextureAtlas}
use bbmcp.Pipeline.Json.{Fields}

pub data JobKind : Type 0 where
  gltf_convert texture_preflight : JobKind

pub record GltfConvertPayload : Type 0 where
  pub codec_id : Option Text
  pub optimize : Option Bool

pub record TexturePreflightPayload : Type 0 where
  pub texture_ids : Option (List Text)
  pub max_dimension : Option ℕ
  pub allow_non_power_of_two : Option Bool

pub data GltfStatus : Type 0 where
  converted noop failed : GltfStatus

pub record GeometryDelta : Type 0 where
  pub bones : Option ℤ
  pub cubes : Option ℤ

pub record GltfConvertResult : Type 0 where
  pub processed_by : Option Text
  pub attempt_count : Option ℕ
  pub finished_at : Option Text
  pub status : Option GltfStatus
  pub has_geometry : Option Bool
  pub geometry_delta : Option GeometryDelta
  pub hierarchy : Option HierarchyNodes
  pub animations : Option (List Animation)
  pub texture_sources : Option (List TextureFaceSource)
  pub textures : Option (List TextureAtlas)
  pub diagnostics : Option (List Text)
  pub output : Option Fields

pub data PreflightStatus : Type 0 where
  passed failed : PreflightStatus

pub record PreflightSummary : Type 0 where
  pub checked : ℕ
  pub oversized : ℕ
  pub non_power_of_two : ℕ

pub record TexturePreflightResult : Type 0 where
  pub processed_by : Option Text
  pub attempt_count : Option ℕ
  pub finished_at : Option Text
  pub status : Option PreflightStatus
  pub diagnostics : Option (List Text)
  pub summary : Option PreflightSummary
  pub output : Option Fields

-- The part of a job that depends on its kind: the kind itself, a payload and a result.
pub data JobBody : Type 0 where
  gltf : Option GltfConvertPayload → Option GltfConvertResult → JobBody
  preflight : Option TexturePreflightPayload → Option TexturePreflightResult → JobBody
