-- ===== src/Tests/Jobs.antt =====
-- The job queue of the workspace with one job.
use bbmcp.Prelude.{ℕ, ◌≡◌, ◌≤◌, ◌+◌, ◌*◌, min, refl, true, [], ◌∷◌, some}
use bbmcp.Prelude.Text.{text, ◌==◌, includes}
use bbmcp.Prelude.Dict.{get}
use bbmcp.Pipeline.Json.{undefined}
use bbmcp.Pipeline.State.{Job, job_id, empty_state, decimal, digits, pad_start_6}
use bbmcp.Pipeline.State.Ids.{job_id-injective}
use bbmcp.Pipeline.Jobs.{
  claim_next_job, recover_expired_running_jobs, recover_jobs, recover_queue, has_expired_lease,
  is_ahead, compute_retry_backoff_ms, claim_rounds, claim_round, try_job, enqueue_unique,
}
use bbmcp.Pipeline.Jobs.Consistent.{Consistent}
use bbmcp.Pipeline.Jobs.Reachable.{
  submits, claims, completes, fails, deletes, call_queues, call_queues-Consistent,
}
use bbmcp.Pipeline.Jobs.Running.{claim_next_job-keeps_running}
use bbmcp.Pipeline.Jobs.Handing.{Handed, claim_next_job-Handed, claim_next_job-none}
use bbmcp.Pipeline.Jobs.Retry.{FailedJob, fail_job-FailedJob, compute_retry_backoff_ms_doubles}
use bbmcp.Pipeline.Jobs.Finish.{fail_job}
use bbmcp.Pipeline.Jobs.Submit.{submit_job}
use bbmcp.Pipeline.Jobs.Submitting.{Submitted, submit_job-Submitted}
use bbmcp.Pipeline.Jobs.Limit.{claim_next_job-past_limit}
use bbmcp.Tests.Data.{
  workspace, submission, claim_at, waiting_job, running_job, with_job, one_job-IsConsistent,
}

pub running-Consistent : Consistent (with_job running_job [])
unfolding job_id decimal digits pad_start_6 includes
running-Consistent = one_job-IsConsistent running_job [] refl (λ h. h) tt tt

waiting-Consistent : Consistent (with_job waiting_job (text "job-000001" ∷ []))
unfolding job_id decimal digits pad_start_6 includes ◌==◌
waiting-Consistent =
    one_job-IsConsistent waiting_job (text "job-000001" ∷ []) refl (λ h. refl) (refl, tt) (refl, tt)

claim_next_job-keeps_running_example :
    get
      (text "job-000001")
      (claim_next_job (claim_at 20_000) (text "worker-2") (with_job running_job [])).1.jobs
    ≡ some running_job
unfolding get ◌==◌ has_expired_lease
claim_next_job-keeps_running_example =
    claim_next_job-keeps_running (claim_at 20_000) (text "worker-2") (with_job running_job [])
      (text "job-000001") running_job running-Consistent refl refl refl

call_queues-Consistent_example : Consistent (
    call_queues
      (submits 0 submission
        ∷ claims (claim_at 10) (text "worker-1")
        ∷ fails 20 20 (text "job-000001") (text "crash")
        ∷ completes 30 (text "job-000002") undefined
        ∷ deletes (text "chair")
        ∷ [])
      (empty_state workspace))
call_queues-Consistent_example = call_queues-Consistent workspace (
    submits 0 submission
    ∷ claims (claim_at 10) (text "worker-1")
    ∷ fails 20 20 (text "job-000001") (text "crash")
    ∷ completes 30 (text "job-000002") undefined
    ∷ deletes (text "chair")
    ∷ [])

claim_next_job-Handed_example :
    Handed
      (claim_at 2000)
      (text "worker-1")
      (recover_expired_running_jobs 2000 (with_job waiting_job (text "job-000001" ∷ []))).jobs
      (claim_next_job
        (claim_at 2000)
        (text "worker-1")
        (with_job waiting_job (text "job-000001" ∷ [])))
claim_next_job-Handed_example =
    claim_next_job-Handed (claim_at 2000) (text "worker-1")
      (with_job waiting_job (text "job-000001" ∷ [])) waiting-Consistent

claim_next_job-none_example :
    (i : ℕ) × (is_ahead ((claim_at 1000).retry_at i) waiting_job.next_retry_at ≡ true)
unfolding get ◌==◌ has_expired_lease claim_next_job recover_expired_running_jobs recover_jobs
    recover_queue claim_rounds claim_round try_job enqueue_unique includes
claim_next_job-none_example =
    claim_next_job-none (claim_at 1000) (text "worker-1")
      (with_job waiting_job (text "job-000001" ∷ [])) (text "job-000001") waiting_job
      waiting-Consistent refl refl refl

fail_job-FailedJob_example :
    FailedJob 400 450
      (text "job-000001")
      (text "crash")
      running_job
      (with_job running_job [])
      (fail_job 400 450 (text "job-000001") (text "crash") (with_job running_job [])).0
      (fail_job 400 450 (text "job-000001") (text "crash") (with_job running_job [])).1
unfolding get ◌==◌
fail_job-FailedJob_example =
    fail_job-FailedJob 400 450 (text "job-000001") (text "crash") running_job
      (with_job running_job []) running-Consistent refl

claim_next_job-past_limit_example :
    (handed : Job) × ((claim_next_job
        (claim_at 40_000)
        (text "worker-2")
        (with_job running_job [])).0
      ≡ some handed)
    × (handed.id ≡ text "job-000001")
    × (handed.attempt_count ≡ handed.max_attempts + 1)
unfolding has_expired_lease
claim_next_job-past_limit_example =
    claim_next_job-past_limit (claim_at 40_000) (text "worker-2") (with_job running_job [])
      running_job refl refl refl refl refl refl

compute_retry_backoff_ms_doubles_example :
    (compute_retry_backoff_ms 0 ≡ 250)
    × (compute_retry_backoff_ms 1 ≡ 250)
    × (250 ≤ compute_retry_backoff_ms 2)
    × (compute_retry_backoff_ms 2 ≤ 5_000)
    × (compute_retry_backoff_ms 4 ≡ min 5_000 (2 * compute_retry_backoff_ms 3))
compute_retry_backoff_ms_doubles_example = compute_retry_backoff_ms_doubles 2

job_id-injective_example : ◌≡◌ {A = ℕ} 7 7
job_id-injective_example = job_id-injective 7 7 refl

submit_job-Submitted_example :
    Submitted 500 submission
      (with_job running_job [])
      (submit_job 500 submission (with_job running_job []))
submit_job-Submitted_example =
    submit_job-Submitted 500 submission (with_job running_job []) running-Consistent
