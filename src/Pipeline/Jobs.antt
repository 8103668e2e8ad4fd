-- ===== src/Pipeline/Jobs.antt =====
-- packages/native-pipeline/src/jobRepository.ts. Each reading of the clock is an argument.
pub mod Queue
pub mod Consistent
pub mod Claiming
pub mod Rounds
pub mod Handing
pub mod Finish
pub mod Kinds
pub mod Submit
pub mod Running
pub mod Retry
pub mod Listing
pub mod Limit
pub mod Ending
pub mod Adding
pub mod Submitting
pub mod Reachable
use bbmcp.Prelude.{
  ℕ, zero, suc, ◌+◌, ◌-◌, ◌*◌, ◌^◌, min, List, [], ◌∷◌, ◌++◌, Bool, true, false, ◌&&◌, Option, none,
  some, if◌then◌else◌, ltb, leb, length,
}
use bbmcp.Prelude.Text.{Text, ◌==◌, is_empty, includes}
use bbmcp.Prelude.Dict.{Dict, get, set}
use bbmcp.Prelude.Number.{Number, finite_trunc, clamp_or}
use bbmcp.Pipeline.Model.{HierarchyNodes, Timestamp, stamp, parse_date, Result, ok, throw}
use bbmcp.Pipeline.Json.{Json}
use bbmcp.Pipeline.Contracts.{JobBody, gltf, preflight, GltfConvertResult}
use bbmcp.Pipeline.Contracts.Payload.{
  normalize_supported_native_job_kind, normalize_native_job_payload,
}
use bbmcp.Pipeline.Contracts.PreflightResult.{normalize_native_job_result}
use bbmcp.Pipeline.State.{
  JobStatus, queued, running, completed, failed, Job, Project, State, clone_job,
  allocate_native_job_id,
}
use bbmcp.Pipeline.Sync.{synchronize_project_snapshot}
use bbmcp.Pipeline.Projects.{ensure_project, store_project}

abbrev pub max_attempts_limit : ℕ
max_attempts_limit = 10

abbrev pub max_retry_backoff_ms : ℕ
max_retry_backoff_ms = 5_000

-- `clampInteger`, of a number or nothing.
abbrev pub clamp_integer : Option Number → ℕ → ℕ → ℕ → ℕ
clamp_integer value fallback low high = clamp_or (finite_trunc value) fallback low high

unfoldable pub enqueue_unique : List Text → Text → List Text
enqueue_unique queue job_id = if includes queue job_id then queue else queue ++ job_id ∷ []

unfoldable pub compute_retry_backoff_ms : ℕ → ℕ
compute_retry_backoff_ms attempt_count = min max_retry_backoff_ms (250 * 2 ^ (attempt_count - 1))

abbrev pub is_running : JobStatus → Bool
is_running running = true
is_running _ = false

abbrev pub is_queued : JobStatus → Bool
is_queued queued = true
is_queued _ = false

-- A lease with a time that can be read, not after `now`.
abbrev pub is_past : ℕ → Option Timestamp → Bool
is_past now none = false
is_past now (some lease) = elim (parse_date lease) [ none ↦ false | some t ↦ leb t now ]

unfoldable pub has_expired_lease : ℕ → Job → Bool
has_expired_lease now j = is_running j.status && is_past now j.lease_expires_at

unfoldable pub requeue : Job → Job
requeue j = record j {
  status = queued;
  worker_id = none;
  started_at = none;
  lease_expires_at = none;
}

-- The loop of `recoverExpiredRunningJobs`: what it makes of the jobs, and of the queue.
unfoldable pub recover_jobs : ℕ → Dict Job → Dict Job
recover_jobs now [] = []
recover_jobs now ((k, j) ∷ jobs) =
    (k, if has_expired_lease now j then requeue j else j) ∷ recover_jobs now jobs

unfoldable pub recover_queue : ℕ → Dict Job → List Text → List Text
recover_queue now [] queue = queue
recover_queue now ((k, j) ∷ jobs) queue =
    recover_queue now jobs (if has_expired_lease now j then enqueue_unique queue j.id else queue)

unfoldable pub recover_expired_running_jobs : ℕ → State → State
recover_expired_running_jobs now s = record s {
  jobs = recover_jobs now s.jobs;
  queued_job_ids = recover_queue now s.jobs s.queued_job_ids;
}

-- The project of a job shows the job's status; the revision goes up by `steps`.
pub show_found : Job → JobStatus → (Project → Project) → Option Project → State → State
show_found j status change none s = s
show_found j status change (some p) s =
    store_project j.project_id
      (record (change p) { active_job = some (record { id = j.id; status = status }) }) s

unfoldable pub show_job : Job → JobStatus → (Project → Project) → State → State
unfolding show_found
show_job j status change s = show_found j status change (get j.project_id s.projects) s

-- The readings of the clock in one call of `claim`: for the leases, for each round's retry time,
-- for the start and for the new lease.
pub record ClaimTimes : Type 0 where
  pub recovered_at : ℕ
  pub retry_at : ℕ → ℕ
  pub started_at : ℕ
  pub leased_at : ℕ

pub data Round : Type 0 where
  stop skip : State → Round
  claim : Job → State → Round

-- A retry time that can be read, after `now`.
abbrev pub is_ahead : ℕ → Option Timestamp → Bool
is_ahead now none = false
is_ahead now (some retry) = elim (parse_date retry) [ none ↦ false | some t ↦ ltb now t ]

module _ (times : ClaimTimes) (worker_id : Text) where
  unfoldable pub start_job : Job → Job
  start_job j = record j {
    status = running;
    worker_id = some worker_id;
    started_at = some (stamp times.started_at);
    attempt_count = j.attempt_count + 1;
    lease_expires_at = some (stamp (times.leased_at + j.lease_ms));
    next_retry_at = none;
    error = none;
    completed_at = none;
    dead_letter = false;
  }

  unfoldable pub start_claim : Text → Job → State → Round
  unfolding start_job
  start_claim id j s =
      claim (clone_job (start_job j))
        (show_job (start_job j) running (λ p. p) (record s { jobs = set id (start_job j) s.jobs }))

  unfoldable pub try_job : ℕ → Text → Option Job → State → Round
  unfolding start_claim
  try_job now id none s = skip s
  try_job now id (some j) s =
      if is_queued j.status
      then if is_ahead now j.next_retry_at
        then skip (record s { queued_job_ids = enqueue_unique s.queued_job_ids j.id })
        else start_claim id j s
      else skip s

  -- One round of the loop: the first identifier leaves the queue.
  unfoldable pub claim_round : ℕ → List Text → State → Round
  unfolding try_job
  claim_round now [] s = stop s
  claim_round now (id ∷ rest) s =
      let s' = record s { queued_job_ids = rest } in
      if is_empty id then stop s' else try_job now id (get id s.jobs) s'

  -- Rounds left, and the number of the next one.
  unfoldable pub claim_rounds : ℕ → ℕ → State → Option Job × State
  unfolding claim_round
  claim_rounds zero index s = (none, s)
  claim_rounds (suc n) index s = elim (claim_round (times.retry_at index) s.queued_job_ids s) [
    | stop s' ↦ (none, s')
    | skip s' ↦ claim_rounds n (index + 1) s'
    | claim j s' ↦ (some j, s')
  ]

  unfoldable pub claim_next_job : State → Option Job × State
  unfolding claim_rounds recover_expired_running_jobs
  claim_next_job s =
      let s' = recover_expired_running_jobs times.recovered_at s in
      claim_rounds (length s'.queued_job_ids) 0 s'

-- `getJob`.
unfoldable pub get_job : State → Text → Option Job
get_job s id = elim (get id s.jobs) [ none ↦ none | some j ↦ some (clone_job j) ]
