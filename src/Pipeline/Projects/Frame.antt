-- ===== src/Pipeline/Projects/Frame.antt =====
-- projectRepository.ts: the jobs through `ensureProject`.
use bbmcp.Prelude.{◌≡◌, refl, Option, arith}
use bbmcp.Prelude.Text.{Text}
use bbmcp.Pipeline.State.{State}
use bbmcp.Pipeline.Events.{append_project_snapshot_event}
use bbmcp.Pipeline.Projects.{store_project, ensure_project}

-- The jobs, their queue and the counter of their numbers are those of the first state.
pub record SameJobs (s t : State) : Type 0 where
  pub jobs : t.jobs ≡ s.jobs
  pub queue : t.queued_job_ids ≡ s.queued_job_ids
  pub next : t.next_job_id ≡ s.next_job_id

pub SameJobs-refl : (s : State) → SameJobs s s
SameJobs-refl s = record { jobs = refl; queue = refl; next = refl }

pub ensure_project-SameJobs :
    (k : Text) (workspace : Option Text) (s : State) → SameJobs s (ensure_project k workspace s).1
unfolding ensure_project store_project append_project_snapshot_event
ensure_project-SameJobs k workspace s = ground arith
