-- ===== src/Pipeline/Contracts/PreflightResult.antt =====
-- nativeJobContracts.ts: `normalizeTexturePreflightResult`, and `normalizeNativeJobResult`, which
-- sets the result of a job by the job's kind.
use bbmcp.Prelude.{none, some, if◌then◌else◌}
use bbmcp.Prelude.Text.{text, ◌==◌}
use bbmcp.Pipeline.Model.{Result, ok, throw, ◌>>=◌, ◌>>◌, require, job_contract}
use bbmcp.Pipeline.Json.{
  Json, undefined, Fields, member, as_object, as_text, as_non_empty, as_count, as_positive,
  optional, array_of,
}
use bbmcp.Pipeline.Contracts.{
  JobBody, gltf, preflight, PreflightStatus, passed, PreflightSummary, TexturePreflightResult,
}
use bbmcp.Pipeline.Contracts.Payload.{texture_preflight_name}
use bbmcp.Pipeline.Contracts.GltfResult.{normalize_gltf_convert_result}

unfoldable pub as_preflight_status : Json → Result PreflightStatus
unfolding as_text
as_preflight_status v = do
  s ← as_text v
  if s == text "passed"
      then ok passed
      else if s == text "failed"
      then ok PreflightStatus.failed
      else throw job_contract

unfoldable pub normalize_texture_preflight_summary : Json → Result PreflightSummary
normalize_texture_preflight_summary v = do
  summary ← as_object v
  checked ← as_count (member (text "checked") summary)
  oversized ← as_count (member (text "oversized") summary)
  non_power_of_two ← as_count (member (text "nonPowerOfTwo") summary)
  ok (record { checked = checked; oversized = oversized; non_power_of_two = non_power_of_two })

unfoldable pub normalize_texture_preflight_result : Fields → Result TexturePreflightResult
normalize_texture_preflight_result result = do
  kind ← as_text (member (text "kind") result)
  require (kind == texture_preflight_name) job_contract
  processed_by ← optional as_non_empty (member (text "processedBy") result)
  attempt_count ← optional as_positive (member (text "attemptCount") result)
  finished_at ← optional as_non_empty (member (text "finishedAt") result)
  status ← optional as_preflight_status (member (text "status") result)
  diagnostics ← optional (array_of as_text) (member (text "diagnostics") result)
  summary ← optional normalize_texture_preflight_summary (member (text "summary") result)
  output ← optional as_object (member (text "output") result)
  ok (record {
    processed_by = processed_by;
    attempt_count = attempt_count;
    finished_at = finished_at;
    status = status;
    diagnostics = diagnostics;
    summary = summary;
    output = output;
  })

-- The job's kind and payload stay as they are; a result that is `undefined` is stored as such.
unfoldable pub normalize_native_job_result : JobBody → Json → Result JobBody
normalize_native_job_result (gltf payload old) undefined = ok (gltf payload none)
normalize_native_job_result (gltf payload old) v = do
  fields ← as_object v
  result ← normalize_gltf_convert_result fields
  ok (gltf payload (some result))
normalize_native_job_result (preflight payload old) undefined = ok (preflight payload none)
normalize_native_job_result (preflight payload old) v = do
  fields ← as_object v
  result ← normalize_texture_preflight_result fields
  ok (preflight payload (some result))
