-- ===== src/Pipeline/Jobs/Finish.antt =====
-- jobRepository.ts: `completeJob` and `failJob`.
use bbmcp.Prelude.{ℕ, ◌+◌, Bool, true, false, Option, none, some, if◌then◌else◌, ltb}
use bbmcp.Prelude.Text.{Text}
use bbmcp.Prelude.Dict.{get, set}
use bbmcp.Pipeline.Model.{stamp, Result, ok, throw}
use bbmcp.Pipeline.Json.{Json}
use bbmcp.Pipeline.Contracts.{JobBody, gltf, preflight}
use bbmcp.Pipeline.Contracts.PreflightResult.{normalize_native_job_result}
use bbmcp.Pipeline.State.{queued, completed, failed, Job, Project, State, clone_job}
use bbmcp.Pipeline.Sync.{synchronize_project_snapshot}
use bbmcp.Pipeline.Jobs.{enqueue_unique, compute_retry_backoff_ms, show_job}

abbrev or_keep {ℓ} : {A : Type ℓ} → Option A → A → A
or_keep none old = old
or_keep (some new) old = new

unfoldable pub apply_completed_job_projection : JobBody → Project → Project
apply_completed_job_projection (preflight payload result) p = p
apply_completed_job_projection (gltf payload none) p = synchronize_project_snapshot p
apply_completed_job_projection (gltf payload (some r)) p = synchronize_project_snapshot (record p {
  hierarchy = or_keep r.hierarchy p.hierarchy;
  animations = or_keep r.animations p.animations;
  texture_sources = or_keep r.texture_sources p.texture_sources;
  textures = or_keep r.textures p.textures;
})

unfoldable pub complete : ℕ → JobBody → Job → Job
complete now body j = record j {
  status = completed;
  body = body;
  completed_at = some (stamp now);
  next_retry_at = none;
  lease_expires_at = none;
  dead_letter = false;
}

unfoldable pub complete_found : ℕ → Text → JobBody → Job → State → State
unfolding complete
complete_found now id body j s =
    show_job (complete now body j) completed
      (λ p. apply_completed_job_projection body (record p { revision = p.revision + 1 }))
      (record s { jobs = set id (complete now body j) s.jobs })

unfoldable pub complete_job : ℕ → Text → Json → State → Result (Option Job) × State
unfolding complete_found
complete_job now id result s = elim (get id s.jobs) [
  | none ↦ (ok none, s)
  | some j ↦ elim (normalize_native_job_result j.body result) [
    | throw e ↦ (throw e, s)
    | ok body ↦ (ok (some (clone_job (complete now body j))), complete_found now id body j s)
  ]
]

-- With attempts left the job goes back to the queue; the last failure is final.
unfoldable pub retry_later : ℕ → Text → Job → Job
retry_later now message j = record j {
  status = queued;
  error = some message;
  next_retry_at = some (stamp (now + compute_retry_backoff_ms j.attempt_count));
  completed_at = none;
  lease_expires_at = none;
  worker_id = none;
  started_at = none;
}

unfoldable pub bury : ℕ → Text → Job → Job
bury now message j = record j {
  status = failed;
  error = some message;
  completed_at = some (stamp now);
  lease_expires_at = none;
  next_retry_at = none;
  dead_letter = true;
}

abbrev pub has_attempts_left : Job → Bool
has_attempts_left j = ltb j.attempt_count j.max_attempts

-- The readings of the clock are for the completion and for the retry.
unfoldable pub fail_found : ℕ → ℕ → Text → Text → Job → State → Job × State
unfolding retry_later bury
fail_found completed_at retry_from id message j s =
    if has_attempts_left j
    then (
      retry_later retry_from message j,
      show_job (retry_later retry_from message j) queued
          (λ p. record p { revision = p.revision + 1 })
          (record s {
            jobs = set id (retry_later retry_from message j) s.jobs;
            queued_job_ids = enqueue_unique s.queued_job_ids j.id;
          }),
    )
    else (
      bury completed_at message j,
      show_job (bury completed_at message j) failed (λ p. record p { revision = p.revision + 1 })
          (record s { jobs = set id (bury completed_at message j) s.jobs }),
    )

unfoldable pub fail_job : ℕ → ℕ → Text → Text → State → Option Job × State
unfolding fail_found
fail_job completed_at retry_from id message s = elim (get id s.jobs) [
  | none ↦ (none, s)
  | some j ↦
      let (j', s') = fail_found completed_at retry_from id message j s in (some (clone_job j'), s')
]
