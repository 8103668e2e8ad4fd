-- ===== src/Pipeline/Jobs/Consistent.antt =====
-- jobRepository.ts: the invariant of the job table and its queue, and the recovery of leases.
use bbmcp.Prelude.{
  ℕ, ◌<◌, ◌≡◌, refl, inl, inr, true, false, List, Option, none, some, arith, Bool-cases,
}
use bbmcp.Prelude.Text.{Text, ◌==◌, eq_of_==, includes, Once, is_empty}
use bbmcp.Prelude.Dict.{Dict, get, set, get-set, UniqueKeys, set-UniqueKeys, All-of_get}
use bbmcp.Pipeline.State.{JobStatus, Job, Project, State, job_id}
use bbmcp.Pipeline.State.Ids.{is_empty-job_id}
use bbmcp.Pipeline.Events.{append_project_snapshot_event}
use bbmcp.Pipeline.Projects.{store_project}
use bbmcp.Pipeline.Jobs.Queue.{
  IsFilled, recover_queue-Once, recover_queue-IsFilled, includes-recover_queue,
  includes-recover_queue_expired, recovered, recovered_entry, get-recover_jobs,
  recover_jobs-UniqueKeys,
}
use bbmcp.Pipeline.Jobs.{
  is_queued, has_expired_lease, requeue, recover_jobs, recover_queue, recover_expired_running_jobs,
  show_job, show_found,
}

-- A job stands under its own identifier, which has been given out.
abbrev pub IsNamed : ℕ → Text → Job → Type 0
IsNamed next k j = (j.id ≡ k) × ((n : ℕ) × (k ≡ job_id n) × (n < next))

-- A job that is to run stands in the queue.
abbrev pub IsWaiting : List Text → Text → Job → Type 0
IsWaiting queue k j = is_queued j.status ≡ true → includes queue k ≡ true

pub record IsConsistent (jobs : Dict Job) (queue : List Text) (next : ℕ) : Type 0 where
  pub unique : UniqueKeys jobs
  pub named : (k : Text) (j : Job) → get k jobs ≡ some j → IsNamed next k j
  pub waiting : (k : Text) (j : Job) → get k jobs ≡ some j → IsWaiting queue k j
  pub once : Once queue
  pub filled : IsFilled queue

abbrev pub Consistent : State → Type 0
Consistent s = IsConsistent s.jobs s.queued_job_ids s.next_job_id

pub is_empty-of_named : (next : ℕ) (k : Text) (j : Job) → IsNamed next k j → is_empty k ≡ false
is_empty-of_named next k j (_, given) = rw (given.1) (is_empty-job_id given.0)

recovered_source :
    (now : ℕ) (o : Option Job) (j : Job)
    → recovered_entry now o ≡ some j
    → (x : Job) × (o ≡ some x) × (j ≡ recovered now x)
recovered_source now none j e = cc
recovered_source now (some x) j e = (x, refl, ground arith)

recovered-id : (now : ℕ) (j : Job) → (recovered now j).id ≡ j.id
unfolding requeue
recovered-id now j = ground arith

recover-IsWaiting :
    (now : ℕ) (jobs : Dict Job) (queue : List Text) (next : ℕ)
    → IsConsistent jobs queue next
    → (k : Text) (x : Job) → get k jobs ≡ some x
    → IsWaiting (recover_queue now jobs queue) k (recovered now x)
recover-IsWaiting now jobs queue next c k x e h = elim (Bool-cases (has_expired_lease now x)) [
  | inl old ↦
      let (same, _) = c.named k x e in
      rw (← same) (includes-recover_queue_expired now jobs queue k x e old)
  | inr fresh ↦ includes-recover_queue now jobs queue k (c.waiting k x e (rw fresh at h))
]

-- Recovery loses no job: what it sends back is in the queue.
pub recover-Consistent :
    (now : ℕ) (s : State) → Consistent s → Consistent (recover_expired_running_jobs now s)
unfolding recover_expired_running_jobs
recover-Consistent now s c = record {
  unique = recover_jobs-UniqueKeys now s.jobs c.unique;
  named = λ k j e.
      let (x, found, same) = source k j e in
      let (id, given) = c.named k x found in (rw (same, recovered-id now x) id, given);
  waiting = λ k j e.
      let (x, found, same) = source k j e in
      rw same (recover-IsWaiting now s.jobs s.queued_job_ids s.next_job_id c k x found);
  once = recover_queue-Once now s.jobs s.queued_job_ids c.once;
  filled = recover_queue-IsFilled now s.jobs s.queued_job_ids c.filled (
      All-of_get (λ k j. is_empty j.id ≡ false) s.jobs c.unique
        (λ k j e. rw ((c.named k j e).0) (is_empty-of_named s.next_job_id k j (c.named k j e))));
}
  where
    source :
        (k : Text) (j : Job)
        → get k (recover_jobs now s.jobs) ≡ some j
        → (x : Job) × (get k s.jobs ≡ some x) × (j ≡ recovered now x)
    source k j e = recovered_source now (get k s.jobs) j (rw (get-recover_jobs now s.jobs k) at e)

-- The same table and queue with the job under one identifier written anew.
pub put-IsConsistent :
    (jobs : Dict Job) (queue queue' : List Text) (next : ℕ) (id : Text) (x j : Job)
    → IsConsistent jobs queue next
    → get id jobs ≡ some x
    → j.id ≡ x.id
    → IsWaiting queue' id j
    → ((k : Text) (y : Job) → get k jobs ≡ some y → (id == k) ≡ false → IsWaiting queue' k y)
    → Once queue'
    → IsFilled queue'
    → IsConsistent (set id j jobs) queue' next
put-IsConsistent jobs queue queue' next id x j c found same here others once filled = record {
  unique = set-UniqueKeys id j jobs c.unique;
  named = λ k y e. elim (Bool-cases (id == k)) [
    | inl hit ↦
        let (old, given) = c.named id x found in
        let new : y ≡ j = ground (arith, get-set id k j jobs) in
        let key : id ≡ k = eq_of_== id k hit in rw (← key, new, same) (old, given)
    | inr miss ↦ c.named k y (ground (arith, get-set id k j jobs))
  ];
  waiting = λ k y e. elim (Bool-cases (id == k)) [
    | inl hit ↦
        let new : y ≡ j = ground (arith, get-set id k j jobs) in
        let key : id ≡ k = eq_of_== id k hit in rw (← key, new) here
    | inr miss ↦ others k y (ground (arith, get-set id k j jobs)) miss
  ];
  once = once;
  filled = filled;
}

module _ (j : Job) (status : JobStatus) (change : Project → Project) where
  show_found-frame :
      (o : Option Project) (s : State)
      → ((show_found j status change o s).jobs ≡ s.jobs)
        × ((show_found j status change o s).queued_job_ids ≡ s.queued_job_ids)
        × ((show_found j status change o s).next_job_id ≡ s.next_job_id)
  unfolding show_found store_project append_project_snapshot_event
  show_found-frame none s = (refl, refl, refl)
  show_found-frame (some p) s = (refl, refl, refl)

  -- To show a job touches neither the table nor the queue.
  pub show_job-jobs : (s : State) → (show_job j status change s).jobs ≡ s.jobs
  unfolding show_job
  show_job-jobs s = (show_found-frame (get j.project_id s.projects) s).0

  pub show_job-queue : (s : State) → (show_job j status change s).queued_job_ids ≡ s.queued_job_ids
  unfolding show_job
  show_job-queue s = (show_found-frame (get j.project_id s.projects) s).1

  pub show_job-Consistent : (s : State) → Consistent s → Consistent (show_job j status change s)
  unfolding show_job
  show_job-Consistent s c =
      let (a, b, d) = show_found-frame (get j.project_id s.projects) s in rw (a, b, d) c
