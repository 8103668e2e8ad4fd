-- ===== src/Pipeline/Jobs/Adding.antt =====
-- jobRepository.ts: the invariant of the jobs through `submitJob`.
use bbmcp.Prelude.{ℕ, ◌+◌, ◌≡◌, refl, inl, inr, List, Option, arith, Bool-cases}
use bbmcp.Prelude.Text.{Text, ◌==◌, eq_of_==}
use bbmcp.Prelude.Dict.{Dict, set, get-set, set-UniqueKeys}
use bbmcp.Pipeline.Model.{ok}
use bbmcp.Pipeline.Contracts.{JobBody}
use bbmcp.Pipeline.Contracts.Payload.{
  normalize_supported_native_job_kind, normalize_native_job_payload,
}
use bbmcp.Pipeline.State.{Job, Project, State, job_id, clone_job, allocate_native_job_id}
use bbmcp.Pipeline.State.Ids.{is_empty-job_id}
use bbmcp.Pipeline.Events.{append_project_snapshot_event}
use bbmcp.Pipeline.Projects.{store_project, ensure_project}
use bbmcp.Pipeline.Projects.Frame.{ensure_project-SameJobs}
use bbmcp.Pipeline.State.Throwing.{or_throw}
use bbmcp.Pipeline.Jobs.Queue.{
  includes-enqueue_unique, enqueue_unique-Once, enqueue_unique-IsFilled,
}
use bbmcp.Pipeline.Jobs.Consistent.{IsConsistent, Consistent}
use bbmcp.Pipeline.Jobs.Submit.{SubmitInput, new_job, store_new_job, submit_resolved, submit_job}
use bbmcp.Pipeline.Jobs.{enqueue_unique}

-- A number given out and not used: the counter is ahead of every job.
skip_number-Consistent :
    (s : State) → Consistent s → Consistent (record s { next_job_id = s.next_job_id + 1 })
skip_number-Consistent s c = record {
  unique = c.unique;
  named = λ k j e.
      let (same, given) = c.named k j e in
      let (n, key, below) = given in (same, (n, key, omega arith));
  waiting = c.waiting;
  once = c.once;
  filled = c.filled;
}

add-IsConsistent :
    (jobs : Dict Job) (queue : List Text) (next : ℕ) (j : Job)
    → IsConsistent jobs queue next
    → j.id ≡ job_id next
    → IsConsistent (set j.id j jobs) (enqueue_unique queue j.id) (next + 1)
add-IsConsistent jobs queue next j c new = record {
  unique = set-UniqueKeys j.id j jobs c.unique;
  named = λ k y e. elim (Bool-cases (j.id == k)) [
    | inl hit ↦
        let key : j.id ≡ k = eq_of_== j.id k hit in
        let same : y ≡ j = ground (arith, get-set j.id k j jobs) in
        rw (← key, same) (refl, (next, new, omega arith))
    | inr miss ↦
        let (same, given) = c.named k y (ground (arith, get-set j.id k j jobs)) in
        let (n, key, below) = given in (same, (n, key, omega arith))
  ];
  waiting = λ k y e h. elim (Bool-cases (j.id == k)) [
    | inl hit ↦ ground (arith, includes-enqueue_unique queue j.id k)
    | inr miss ↦ ground (
      arith,
      c.waiting k y (ground (arith, get-set j.id k j jobs)) h,
      includes-enqueue_unique queue j.id k,
    )
  ];
  once = enqueue_unique-Once queue j.id c.once;
  filled = enqueue_unique-IsFilled queue j.id c.filled (rw new (is_empty-job_id next));
}

store_new_job-Consistent :
    (project_key : Text) (p : Project) (now : ℕ) (input : SubmitInput) (body : JobBody) (s : State)
    → Consistent s
    → Consistent (
        store_new_job project_key p
          (new_job now input (job_id s.next_job_id) p.project_id body)
          (record s { next_job_id = s.next_job_id + 1 }))
unfolding store_new_job store_project append_project_snapshot_event new_job
store_new_job-Consistent project_key p now input body s c =
    add-IsConsistent s.jobs s.queued_job_ids s.next_job_id _ c refl

submit_resolved-Consistent :
    (now : ℕ) (input : SubmitInput) (p : Project) (s : State)
    → Consistent s
    → Consistent (submit_resolved now input p s).1
unfolding submit_resolved allocate_native_job_id
submit_resolved-Consistent now input p s c =
    let s' = record s { next_job_id = s.next_job_id + 1 } in
    let id = job_id s.next_job_id in
    or_throw Consistent (normalize_supported_native_job_kind input.kind) s _ c (λ kind.
      or_throw Consistent (normalize_native_job_payload kind input.payload) s'
        (λ body. (
          ok (clone_job (new_job now input id p.project_id body)),
          store_new_job input.project_id p (new_job now input id p.project_id body) s',
        ))
        (skip_number-Consistent s c)
        (λ body. store_new_job-Consistent input.project_id p now input body s c))

ensure_project-Consistent :
    (k : Text) (workspace : Option Text) (s : State)
    → Consistent s
    → Consistent (ensure_project k workspace s).1
ensure_project-Consistent k workspace s c =
    let same = ensure_project-SameJobs k workspace s in rw (same.jobs, same.queue, same.next) c

pub submit_job-Consistent :
    (now : ℕ) (input : SubmitInput) (s : State)
    → Consistent s
    → Consistent (submit_job now input s).1
unfolding submit_job
submit_job-Consistent now input s c =
    let r = ensure_project input.project_id input.workspace_id s in
    or_throw Consistent r.0 r.1 (λ p. submit_resolved now input p r.1)
      (ensure_project-Consistent input.project_id input.workspace_id s c)
      (λ p.
        submit_resolved-Consistent now input p r.1
          (ensure_project-Consistent input.project_id input.workspace_id s c))
