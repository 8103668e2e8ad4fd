-- ===== src/Pipeline/Jobs/Limit.antt =====
-- jobRepository.ts: the limit on attempts and the recovery of expired leases.
use bbmcp.Prelude.{◌+◌, ◌≡◌, refl, true, false, [], ◌∷◌, none, some, arith}
use bbmcp.Prelude.Text.{Text, ==_refl, is_empty, includes}
use bbmcp.Prelude.Dict.{get}
use bbmcp.Pipeline.State.{Job, State, clone_job}
use bbmcp.Pipeline.Jobs.{
  has_expired_lease, requeue, recover_jobs, recover_queue, enqueue_unique,
  recover_expired_running_jobs, ClaimTimes, start_job, start_claim, try_job, claim_round,
  claim_rounds, claim_next_job,
}

-- A job that has used up its attempts and whose worker has let its lease run out, the only job of
-- its workspace, with an identifier that is not empty and no retry time, its queue empty, is
-- handed out again by the next `claim`: the limit on attempts is not looked at, and the job comes
-- back with one attempt more than the limit allows.
pub claim_next_job-past_limit :
    (times : ClaimTimes) (worker_id : Text) (s : State) (j : Job)
    → s.jobs ≡ (j.id, j) ∷ []
    → s.queued_job_ids ≡ []
    → is_empty j.id ≡ false
    → has_expired_lease times.recovered_at j ≡ true
    → j.next_retry_at ≡ none
    → j.attempt_count ≡ j.max_attempts
    → (handed : Job) × ((claim_next_job times worker_id s).0 ≡ some handed)
      × (handed.id ≡ j.id)
      × (handed.attempt_count ≡ handed.max_attempts + 1)
unfolding claim_next_job recover_expired_running_jobs recover_jobs recover_queue enqueue_unique
    requeue get includes claim_rounds claim_round try_job start_claim start_job clone_job
claim_next_job-past_limit times worker_id s j jobs queue named old retry used = (
  clone_job (start_job times worker_id (requeue j)),
  ground (arith, ==_refl j.id),
  refl,
  omega arith,
)
