-- ===== src/Tests/Data.antt =====
-- A workspace with one project, one lock and one job.
use bbmcp.Prelude.{
  ℕ, ◌≡◌, refl, true, false, List, [], ◌∷◌, Option, none, some, arith, Bool-cases, inl, inr,
}
use bbmcp.Prelude.Text.{Text, text, ◌==◌, eq_of_==, includes, Once}
use bbmcp.Prelude.Dict.{get}
use bbmcp.Prelude.Number.{whole_number}
use bbmcp.Pipeline.Model.{stamp, leaf}
use bbmcp.Pipeline.Json.{undefined, string}
use bbmcp.Pipeline.Contracts.{gltf}
use bbmcp.Pipeline.State.{queued, running, Lock, Project, Job, State, empty_state, job_id}
use bbmcp.Pipeline.Locks.{LockInput, LockTimes}
use bbmcp.Pipeline.Jobs.{ClaimTimes, is_queued}
use bbmcp.Pipeline.Jobs.Submit.{SubmitInput}
use bbmcp.Pipeline.Jobs.Queue.{IsFilled}
use bbmcp.Pipeline.Jobs.Consistent.{IsConsistent}

abbrev pub workspace : Text
workspace = text "w"

abbrev pub chair : Text
chair = text "chair"

abbrev pub alice_lock : Lock
alice_lock = record {
  owner_agent_id = text "alice";
  owner_session_id = none;
  token = text "t1";
  acquired_at = stamp 0;
  heartbeat_at = stamp 0;
  expires_at = stamp 30_000;
}

abbrev pub chair_project : Option Lock → Project
chair_project lock = record {
  project_id = chair;
  workspace_id = some workspace;
  name = chair;
  parent_folder_id = none;
  revision = 1;
  has_geometry = false;
  focus_anchor = none;
  hierarchy = leaf;
  animations = [];
  stats = record { bones = 0; cubes = 0 };
  texture_sources = [];
  textures = [];
  project_lock = lock;
  active_job = none;
}

-- The chair is locked by alice until 30000, and its snapshot shows that.
abbrev pub locked : State
locked = record (empty_state workspace) {
  projects = (chair, chair_project (some alice_lock)) ∷ [];
  project_locks = (chair, alice_lock) ∷ [];
}

abbrev pub asks : Text → LockInput
asks agent = record {
  project_id = chair;
  owner_agent_id = agent;
  owner_session_id = none;
  ttl_ms = some (whole_number 10_000);
}

abbrev pub at_time : ℕ → LockTimes
at_time t = record { swept_at = t; checked_at = t; built_at = t }

abbrev pub claim_at : ℕ → ClaimTimes
claim_at t = record { recovered_at = t; retry_at = λ i. t; started_at = t; leased_at = t }

abbrev pub submission : SubmitInput
submission = record {
  project_id = chair;
  workspace_id = some workspace;
  kind = string (text "gltf.convert");
  payload = undefined;
  max_attempts = some (whole_number 2);
  lease_ms = none;
}

-- A job that waits for its second attempt, from 1250 on.
abbrev pub waiting_job : Job
waiting_job = record {
  id = text "job-000001";
  project_id = chair;
  status = queued;
  attempt_count = 1;
  max_attempts = 2;
  lease_ms = 30_000;
  created_at = stamp 0;
  started_at = none;
  lease_expires_at = none;
  next_retry_at = some (stamp 1250);
  completed_at = none;
  worker_id = none;
  error = some (text "crash");
  dead_letter = false;
  body = gltf none none;
}

-- The job in its last attempt, with a lease until 31250.
abbrev pub running_job : Job
running_job = record waiting_job {
  status = running;
  attempt_count = 2;
  lease_expires_at = some (stamp 31_250);
  next_retry_at = none;
  worker_id = some (text "worker-1");
}

abbrev pub with_job : Job → List Text → State
with_job j queue = record (empty_state workspace) {
  projects = (chair, chair_project none) ∷ [];
  jobs = (j.id, j) ∷ [];
  queued_job_ids = queue;
  next_job_id = 2;
}

pub one_job-IsConsistent :
    (j : Job) (queue : List Text)
    → j.id ≡ job_id 1
    → (is_queued j.status ≡ true → includes queue j.id ≡ true)
    → Once queue
    → IsFilled queue
    → IsConsistent ((j.id, j) ∷ []) queue 2
unfolding get
one_job-IsConsistent j queue id ready once filled = record {
  unique = (refl, tt);
  named = λ k y e. elim (Bool-cases (j.id == k)) [
    | inl hit ↦
        let key : j.id ≡ k = eq_of_== j.id k hit in
        let same : y ≡ j = ground arith in rw (← key, same) (refl, (1, id, omega arith))
    | inr miss ↦ absurd (ground arith)
  ];
  waiting = λ k y e. elim (Bool-cases (j.id == k)) [
    | inl hit ↦
        let key : j.id ≡ k = eq_of_== j.id k hit in
        let same : y ≡ j = ground arith in rw (← key, same) ready
    | inr miss ↦ absurd (ground arith)
  ];
  once = once;
  filled = filled;
}
