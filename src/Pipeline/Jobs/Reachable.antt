-- ===== src/Pipeline/Jobs/Reachable.antt =====
-- jobRepository.ts: sequences of calls, and the invariant of the jobs through them.
use bbmcp.Prelude.{ℕ, List, [], ◌∷◌}
use bbmcp.Prelude.Text.{Text}
use bbmcp.Prelude.Dict.{get}
use bbmcp.Pipeline.Json.{Json}
use bbmcp.Pipeline.State.{State, empty_state}
use bbmcp.Pipeline.Jobs.Consistent.{Consistent}
use bbmcp.Pipeline.Jobs.Claiming.{claim_next_job-Consistent}
use bbmcp.Pipeline.Jobs.Finish.{complete_job, fail_job}
use bbmcp.Pipeline.Jobs.Submit.{SubmitInput, submit_job}
use bbmcp.Pipeline.Jobs.{ClaimTimes, claim_next_job}
use bbmcp.Pipeline.Jobs.Ending.{complete_job-Consistent, fail_job-Consistent}
use bbmcp.Pipeline.Jobs.Adding.{submit_job-Consistent}
use bbmcp.Pipeline.Projects.Editing.{delete_project}
use bbmcp.Pipeline.Projects.Editing.Deleting.{delete_project-Consistent}

-- One call that changes the jobs: those of the job queue, and `deleteProject`.
pub data JobCall : Type 0 where
  submits : ℕ → SubmitInput → JobCall
  claims : ClaimTimes → Text → JobCall
  completes : ℕ → Text → Json → JobCall
  fails : ℕ → ℕ → Text → Text → JobCall
  deletes : Text → JobCall

unfoldable pub call_queue : JobCall → State → State
call_queue (submits now input) s = (submit_job now input s).1
call_queue (claims times worker) s = (claim_next_job times worker s).1
call_queue (completes now id result) s = (complete_job now id result s).1
call_queue (fails completed_at retry_from id message) s =
    (fail_job completed_at retry_from id message s).1
call_queue (deletes project_id) s = (delete_project project_id s).1

unfoldable pub call_queues : List JobCall → State → State
call_queues [] s = s
call_queues (call ∷ calls) s = call_queues calls (call_queue call s)

call_queue-Consistent : (call : JobCall) (s : State) → Consistent s → Consistent (call_queue call s)
unfolding call_queue
call_queue-Consistent (submits now input) s c = submit_job-Consistent now input s c
call_queue-Consistent (claims times worker) s c = claim_next_job-Consistent times worker s c
call_queue-Consistent (completes now id result) s c = complete_job-Consistent now id result s c
call_queue-Consistent (fails completed_at retry_from id message) s c =
    fail_job-Consistent completed_at retry_from id message s c
call_queue-Consistent (deletes project_id) s c = delete_project-Consistent project_id s c

pub call_queues-keep :
    (calls : List JobCall) (s : State) → Consistent s → Consistent (call_queues calls s)
unfolding call_queues
call_queues-keep [] s c = c
call_queues-keep (call ∷ calls) s c =
    call_queues-keep calls (call_queue call s) (call_queue-Consistent call s c)

-- After any sequence of submissions, claims, completions, failures and deletions of projects in a
-- new workspace every job that is to run stands in the queue, none stands there twice, and every job
-- has an identifier of its own, which was given out before.
pub call_queues-Consistent :
    (workspace_id : Text) (calls : List JobCall)
    → Consistent (call_queues calls (empty_state workspace_id))
unfolding get
call_queues-Consistent workspace_id calls =
    call_queues-keep calls _
      (record { unique = tt; named = λ k j e. cc; waiting = λ k j e. cc; once = tt; filled = tt })
