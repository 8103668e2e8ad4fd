-- ===== src/Pipeline/Jobs/Submit.antt =====
-- jobRepository.ts: `submitJob`.
use bbmcp.Prelude.{ℕ, false, Option, none, some}
use bbmcp.Prelude.Text.{Text}
use bbmcp.Prelude.Dict.{set}
use bbmcp.Prelude.Number.{Number}
use bbmcp.Pipeline.Model.{stamp, Result, ok, throw}
use bbmcp.Pipeline.Json.{Json}
use bbmcp.Pipeline.Contracts.{JobBody}
use bbmcp.Pipeline.Contracts.Payload.{
  normalize_supported_native_job_kind, normalize_native_job_payload,
}
use bbmcp.Pipeline.State.{queued, Job, Project, State, clone_job, allocate_native_job_id}
use bbmcp.Pipeline.Jobs.{max_attempts_limit, clamp_integer, enqueue_unique}
use bbmcp.Pipeline.Projects.{ensure_project, store_project}

pub record SubmitInput : Type 0 where
  pub project_id : Text
  pub workspace_id : Option Text
  pub kind : Json
  pub payload : Json
  pub max_attempts : Option Number
  pub lease_ms : Option Number

unfoldable pub new_job : ℕ → SubmitInput → Text → Text → JobBody → Job
new_job now input id project_id body = record {
  id = id;
  project_id = project_id;
  status = queued;
  attempt_count = 0;
  max_attempts = clamp_integer input.max_attempts 3 1 max_attempts_limit;
  lease_ms = clamp_integer input.lease_ms 30_000 5_000 300_000;
  created_at = stamp now;
  started_at = none;
  lease_expires_at = none;
  next_retry_at = none;
  completed_at = none;
  worker_id = none;
  error = none;
  dead_letter = false;
  body = body;
}

-- The job is stored and queued, and the project object that was resolved shows it.
unfoldable pub store_new_job : Text → Project → Job → State → State
store_new_job project_key p j s =
    store_project project_key
      (record p { active_job = some (record { id = j.id; status = queued }) })
      (record s { jobs = set j.id j s.jobs; queued_job_ids = enqueue_unique s.queued_job_ids j.id })

-- An identifier is used up also where the payload is refused.
unfoldable pub submit_resolved : ℕ → SubmitInput → Project → State → Result Job × State
unfolding new_job store_new_job
submit_resolved now input p s = elim (normalize_supported_native_job_kind input.kind) [
  | throw e ↦ (throw e, s)
  | ok kind ↦
      let (id, s') = allocate_native_job_id s in
      elim (normalize_native_job_payload kind input.payload) [
        | throw e ↦ (throw e, s')
        | ok body ↦ (
          ok (clone_job (new_job now input id p.project_id body)),
          store_new_job input.project_id p (new_job now input id p.project_id body) s',
        )
      ]
]

-- `submitJob` with the store's `ensureProject`.
unfoldable pub submit_job : ℕ → SubmitInput → State → Result Job × State
unfolding submit_resolved ensure_project
submit_job now input s =
    let (resolved, s') = ensure_project input.project_id input.workspace_id s in
    elim resolved [ throw e ↦ (throw e, s') | ok p ↦ submit_resolved now input p s' ]
