-- ===== src/Pipeline/Jobs/Retry.antt =====
-- jobRepository.ts: `failJob` and its retries.
use native.Mathlib.Nat.{pow-suc}
use bbmcp.Prelude.{
  ℕ, zero, suc, ◌+◌, ◌-◌, ◌*◌, ◌^◌, min, ◌≡◌, ◌≤◌, ◌<◌, refl, ◌⊎◌, inl, inr, true, false, ◌||◌,
  List, Option, none, some, arith, Bool-cases,
}
use bbmcp.Prelude.Text.{Text, ◌==◌, includes}
use bbmcp.Prelude.Dict.{get, set, get-set_self, get-set_other}
use bbmcp.Pipeline.Model.{stamp}
use bbmcp.Pipeline.State.{JobStatus, queued, failed, Job, Project, State, clone_job, non_empty}
use bbmcp.Pipeline.Jobs.Queue.{includes-enqueue_unique}
use bbmcp.Pipeline.Jobs.Consistent.{Consistent, show_job-jobs, show_job-queue}
use bbmcp.Pipeline.Jobs.Finish.{retry_later, bury, has_attempts_left, fail_found, fail_job}
use bbmcp.Pipeline.Jobs.{compute_retry_backoff_ms, max_retry_backoff_ms, show_job}

power_pos : (n : ℕ) → 1 ≤ 2 ^ n
power_pos zero = omega arith
power_pos (suc n) = omega (arith, pow-suc 2 n, power_pos n)

-- The first retry waits a quarter of a second, as does one without an attempt; each further one
-- waits twice as long as the one before it, but never more than five seconds, and none waits less
-- than a quarter of a second.
pub compute_retry_backoff_ms_doubles :
    (n : ℕ)
    → (compute_retry_backoff_ms 0 ≡ 250)
      × (compute_retry_backoff_ms 1 ≡ 250)
      × (250 ≤ compute_retry_backoff_ms n)
      × (compute_retry_backoff_ms n ≤ max_retry_backoff_ms)
      × (compute_retry_backoff_ms (suc (suc n))
          ≡ min max_retry_backoff_ms (2 * compute_retry_backoff_ms (suc n)))
unfolding compute_retry_backoff_ms
compute_retry_backoff_ms_doubles n =
    (refl, refl, omega (arith, power_pos (n - 1)), omega arith, doubled)
  where
    doubled :
        compute_retry_backoff_ms (suc (suc n))
        ≡ min max_retry_backoff_ms (2 * compute_retry_backoff_ms (suc n))
    doubled =
        let upper : suc (suc n) - 1 ≡ suc n = omega arith in
        let lower : suc n - 1 ≡ n = omega arith in rw (upper, lower, pow-suc 2 n) (omega arith)

-- What the failure leaves of a job in any case.
pub record IsSame (j after : Job) : Type 0 where
  pub identifier : after.id ≡ j.id
  pub target : after.project_id ≡ j.project_id
  pub counted : after.attempt_count ≡ j.attempt_count
  pub limit : after.max_attempts ≡ j.max_attempts
  pub lease_length : after.lease_ms ≡ j.lease_ms
  pub created : after.created_at ≡ j.created_at
  pub body : after.body ≡ j.body

-- The job is to run again, without a worker, and not before its backoff is over.
pub record Waits (retry_from : ℕ) (message : Text) (j after : Job) : Type 0 where
  pub waiting : after.status ≡ queued
  pub reason : after.error ≡ some message
  pub retry :
      after.next_retry_at ≡ some (stamp (retry_from + compute_retry_backoff_ms j.attempt_count))
  pub no_worker : after.worker_id ≡ none
  pub no_start : after.started_at ≡ none
  pub no_lease : after.lease_expires_at ≡ none
  pub not_complete : after.completed_at ≡ none
  pub dead : after.dead_letter ≡ j.dead_letter
  pub same : IsSame j after

-- The job has failed for good and is marked as a dead letter.
pub record IsBuried (completed_at : ℕ) (message : Text) (j after : Job) : Type 0 where
  pub over : after.status ≡ failed
  pub reason : after.error ≡ some message
  pub complete : after.completed_at ≡ some (stamp completed_at)
  pub no_lease : after.lease_expires_at ≡ none
  pub no_retry : after.next_retry_at ≡ none
  pub dead : after.dead_letter ≡ true
  pub worker : after.worker_id ≡ j.worker_id
  pub start : after.started_at ≡ j.started_at
  pub same : IsSame j after

retry_later-Waits :
    (retry_from : ℕ) (message : Text) (j : Job)
    → Waits retry_from message j (retry_later retry_from message j)
unfolding retry_later
retry_later-Waits retry_from message j = ground arith

bury-IsBuried :
    (completed_at : ℕ) (message : Text) (j : Job)
    → IsBuried completed_at message j (bury completed_at message j)
unfolding bury
bury-IsBuried completed_at message j = ground arith

-- What has become of a job that failed, and what is answered: with attempts left it waits in the
-- queue for the end of its backoff; without, it is failed for good, and the queue stays. The answer
-- is the stored job, but for empty texts. All other jobs stay.
pub record FailedJob (completed_at retry_from : ℕ) (id message : Text) (j : Job) (s : State)
    (answer : Option Job) (t : State) : Type 0 where
  pub after : Job
  pub stored : get id t.jobs ≡ some after
  pub answered :
      answer
      ≡ some (record after { worker_id = non_empty after.worker_id; error = non_empty after.error })
  pub others : (k : Text) → (id == k) ≡ false → get k t.jobs ≡ get k s.jobs
  pub outcome :
      ((j.attempt_count < j.max_attempts)
        × Waits retry_from message j after
        × ((k : Text) → includes t.queued_job_ids k ≡ (includes s.queued_job_ids k || id == k)))
      ⊎ ((j.max_attempts ≤ j.attempt_count)
          × IsBuried completed_at message j after
          × (t.queued_job_ids ≡ s.queued_job_ids))

module _ (completed_at retry_from : ℕ) (id message : Text) (j : Job) (s : State)
    (key : j.id ≡ id) where
  -- A job that has been stored under `id` and is shown by its project.
  stored_FailedJob :
      (after : Job) (status : JobStatus) (change : Project → Project) (queue : List Text)
      → let t =
          show_job after status change
            (record s { jobs = set id after s.jobs; queued_job_ids = queue }) in
        (((j.attempt_count < j.max_attempts)
            × Waits retry_from message j after
            × ((k : Text) → includes queue k ≡ (includes s.queued_job_ids k || id == k)))
          ⊎ ((j.max_attempts ≤ j.attempt_count)
              × IsBuried completed_at message j after
              × (queue ≡ s.queued_job_ids)))
        → FailedJob completed_at retry_from id message j s (some (clone_job after)) t
  unfolding clone_job
  stored_FailedJob after status change queue outcome =
      let t = record s { jobs = set id after s.jobs; queued_job_ids = queue } in
      record {
        after = after;
        stored = rw (show_job-jobs after status change t) (get-set_self id after s.jobs);
        answered = refl;
        others = λ k other.
            rw (show_job-jobs after status change t) (get-set_other id k after s.jobs other);
        outcome = rw (show_job-queue after status change t) outcome;
      }

  fail_found-FailedJob :
      let r = fail_found completed_at retry_from id message j s in
      FailedJob completed_at retry_from id message j s (some (clone_job r.0)) r.1
  unfolding fail_found
  fail_found-FailedJob = elim (Bool-cases (has_attempts_left j)) [
    | inl more ↦ rw more (
        stored_FailedJob (retry_later retry_from message j) queued _ _ (
          inl (
            ground arith,
            retry_later-Waits retry_from message j,
            λ k. rw (includes-enqueue_unique s.queued_job_ids j.id k, key) refl,
          )))
    | inr last ↦ rw last (
        stored_FailedJob (bury completed_at message j) failed _ s.queued_job_ids
          (inr (ground arith, bury-IsBuried completed_at message j, refl)))
  ]

-- `failJob` on a job of a consistent table: with attempts left the job is stored as queued, without
-- a worker or a lease, its retry a backoff after the reading of the clock, and stands in the queue;
-- without, it is stored as failed for good, a dead letter, and the queue stays as it was. Either
-- way it keeps its attempts and what it is about, the answer is what is stored but for empty texts,
-- and all other jobs stay.
pub fail_job-FailedJob :
    (completed_at retry_from : ℕ) (id message : Text) (j : Job) (s : State)
    → Consistent s
    → get id s.jobs ≡ some j
    → FailedJob completed_at retry_from id message j s
        (fail_job completed_at retry_from id message s).0
        (fail_job completed_at retry_from id message s).1
unfolding fail_job
fail_job-FailedJob completed_at retry_from id message j s c e =
    rw (e, fail_job)
      (fail_found-FailedJob completed_at retry_from id message j s ((c.named id j e).0))
