-- ===== src/Pipeline/Jobs/Submitting.antt =====
-- jobRepository.ts: what `submitJob` answers and stores.
use bbmcp.Prelude.{
  ℕ, ◌+◌, min, max, ◌≡◌, ◌≤◌, refl, inl, inr, false, ◌||◌, Option, none, some, arith, Option-cases,
}
use bbmcp.Prelude.Text.{Text, trim, ◌==◌, includes}
use bbmcp.Prelude.Dict.{get, get-set_self, get-set_other}
use bbmcp.Prelude.Number.{ℤ, pos, negsuc, finite_trunc, clamp_or, clamp_or_bounds}
use bbmcp.Pipeline.Model.{stamp, Result, ok, throw}
use bbmcp.Pipeline.Json.{string}
use bbmcp.Pipeline.Contracts.{JobKind, JobBody}
use bbmcp.Pipeline.Contracts.Payload.{
  normalize_supported_native_job_kind, normalize_native_job_payload,
}
use bbmcp.Pipeline.State.{queued, Job, Project, State, job_id, clone_job, allocate_native_job_id}
use bbmcp.Pipeline.State.Ids.{job_id-injective}
use bbmcp.Pipeline.State.Throwing.{Result-cases}
use bbmcp.Pipeline.Events.{append_project_snapshot_event}
use bbmcp.Pipeline.Projects.{store_project, ensure_project}
use bbmcp.Pipeline.Projects.Frame.{SameJobs, ensure_project-SameJobs}
use bbmcp.Pipeline.Jobs.Kinds.{IsKind, supported_kind, payload-IsKind}
use bbmcp.Pipeline.Jobs.Queue.{includes-enqueue_unique}
use bbmcp.Pipeline.Jobs.Consistent.{Consistent}
use bbmcp.Pipeline.Jobs.Submit.{SubmitInput, new_job, store_new_job, submit_resolved, submit_job}

-- A number that is none gives the fallback, and any other is cut and held between the bounds.
abbrev pub IsHeldBetween : Option ℤ → ℕ → ℕ → ℕ → ℕ → Type 0
IsHeldBetween none fallback low high n = n ≡ fallback
IsHeldBetween (some (negsuc m)) fallback low high n = n ≡ low
IsHeldBetween (some (pos m)) fallback low high n = n ≡ max low (min m high)

clamp_or-IsHeldBetween :
    (z : Option ℤ) (fallback low high : ℕ)
    → low ≤ high
    → IsHeldBetween z fallback low high (clamp_or z fallback low high)
clamp_or-IsHeldBetween none fallback low high h = refl
clamp_or-IsHeldBetween (some (negsuc m)) fallback low high h = refl
clamp_or-IsHeldBetween (some (pos m)) fallback low high h = ground arith

-- The job is new, is about what the caller asks for, is stored and queued to be tried for the first
-- time, with its limits in their bounds; its project shows it; the others stay.
pub record IsSubmitted (now : ℕ) (input : SubmitInput) (s t : State) (j : Job) : Type 0 where
  pub numbered : j.id ≡ job_id s.next_job_id
  pub fresh : get j.id s.jobs ≡ none
  pub project : Project
  pub resolved : (ensure_project input.project_id input.workspace_id s).0 ≡ ok project
  pub target : j.project_id ≡ project.project_id
  pub kind : JobKind
  pub asked : Text
  pub given : input.kind ≡ string asked
  pub about : IsKind kind (trim asked) j.body
  pub payload : normalize_native_job_payload kind input.payload ≡ ok j.body
  pub waiting : j.status ≡ queued
  pub untried : j.attempt_count ≡ 0
  pub created : j.created_at ≡ stamp now
  pub no_worker : j.worker_id ≡ none
  pub no_start : j.started_at ≡ none
  pub no_lease : j.lease_expires_at ≡ none
  pub no_retry : j.next_retry_at ≡ none
  pub not_complete : j.completed_at ≡ none
  pub no_error : j.error ≡ none
  pub not_dead : j.dead_letter ≡ false
  pub limit : IsHeldBetween (finite_trunc input.max_attempts) 3 1 10 j.max_attempts
  pub attempts : (1 ≤ j.max_attempts) × (j.max_attempts ≤ 10)
  pub lease_length : IsHeldBetween (finite_trunc input.lease_ms) 30_000 5_000 300_000 j.lease_ms
  pub lease : (5_000 ≤ j.lease_ms) × (j.lease_ms ≤ 300_000)
  pub stored : get j.id t.jobs ≡ some j
  pub others : (k : Text) → (j.id == k) ≡ false → get k t.jobs ≡ get k s.jobs
  pub queue : (k : Text) → includes t.queued_job_ids k ≡ (includes s.queued_job_ids k || j.id == k)
  pub shown :
      get input.project_id t.projects
      ≡ some (record project { active_job = some (record { id = j.id; status = queued }) })

-- A submission that throws leaves the jobs and the queue alone.
abbrev pub Submitted : ℕ → SubmitInput → State → Result Job × State → Type 0
Submitted now input s (throw e, t) = (t.jobs ≡ s.jobs) × (t.queued_job_ids ≡ s.queued_job_ids)
Submitted now input s (ok j, t) = IsSubmitted now input s t j

-- A number that has not been given out belongs to no job of the table.
fresh-job_id : (s : State) → Consistent s → get (job_id s.next_job_id) s.jobs ≡ none
fresh-job_id s c = elim (Option-cases (get (job_id s.next_job_id) s.jobs)) [
  | inl e ↦ e
  | inr (j, e) ↦
      let (_, given) = c.named (job_id s.next_job_id) j e in
      let (n, key, below) = given in
      let same : s.next_job_id ≡ n = job_id-injective s.next_job_id n key in absurd (omega arith)
]

module _ (now : ℕ) (input : SubmitInput) (s s' : State) (c : Consistent s) (same : SameJobs s s')
    (p : Project) (resolved : (ensure_project input.project_id input.workspace_id s).0 ≡ ok p) where
  store_new_job-IsSubmitted :
      (kind : JobKind) (body : JobBody)
      → normalize_supported_native_job_kind input.kind ≡ ok kind
      → normalize_native_job_payload kind input.payload ≡ ok body
      → let j = new_job now input (job_id s'.next_job_id) p.project_id body in
        IsSubmitted now input s
          (store_new_job input.project_id p j (record s' { next_job_id = s'.next_job_id + 1 }))
          (clone_job j)
  unfolding store_new_job store_project append_project_snapshot_event new_job clone_job
  store_new_job-IsSubmitted kind body known taken =
      let (asked, given, named) = supported_kind input.kind kind known in
      let id = job_id s'.next_job_id in
      record {
        numbered = rw same.next refl;
        fresh = rw same.next (fresh-job_id s c);
        project = p;
        resolved = resolved;
        target = refl;
        kind = kind;
        asked = asked;
        given = given;
        about = payload-IsKind kind input.payload body (trim asked) taken named;
        payload = taken;
        waiting = refl;
        untried = refl;
        created = refl;
        no_worker = refl;
        no_start = refl;
        no_lease = refl;
        no_retry = refl;
        not_complete = refl;
        no_error = refl;
        not_dead = refl;
        limit = clamp_or-IsHeldBetween (finite_trunc input.max_attempts) 3 1 10 (omega arith);
        attempts =
            clamp_or_bounds (finite_trunc input.max_attempts) 3 1 10 (omega arith) (omega arith);
        lease_length =
            clamp_or-IsHeldBetween (finite_trunc input.lease_ms) 30_000 5_000 300_000 (omega arith);
        lease =
            clamp_or_bounds (finite_trunc input.lease_ms) 30_000 5_000 300_000 (omega arith)
              (omega arith);
        stored = get-set_self id _ s'.jobs;
        others = λ k other. rw (get-set_other id k _ s'.jobs other, same.jobs) refl;
        queue = λ k. rw (includes-enqueue_unique s'.queued_job_ids id k, same.queue) refl;
        shown = get-set_self input.project_id _ s'.projects;
      }

  submit_resolved-Submitted : Submitted now input s (submit_resolved now input p s')
  unfolding submit_resolved allocate_native_job_id
  submit_resolved-Submitted = elim (Result-cases (normalize_supported_native_job_kind input.kind)) [
    | inl (e, thrown) ↦ rw (submit_resolved, thrown) (same.jobs, same.queue)
    | inr (kind, known) ↦ elim (Result-cases (normalize_native_job_payload kind input.payload)) [
      | inl (e, thrown) ↦ rw (submit_resolved, known, thrown) (same.jobs, same.queue)
      | inr (body, taken) ↦
          rw (submit_resolved, known, taken) (store_new_job-IsSubmitted kind body known taken)
    ]
  ]

-- `submitJob` with consistent jobs throws and leaves the jobs and the queue alone, or answers a job
-- with a new identifier that is stored as answered, queued and untried, and stands in the queue. It
-- is for the project that is resolved, which shows it, and of the kind that the caller names, with
-- the payload as it is normalised. Attempts and lease are as asked for, cut to one to ten attempts
-- and five seconds to five minutes, and three and thirty seconds where no number is given. All
-- other jobs stay, and so does the rest of the queue.
pub submit_job-Submitted :
    (now : ℕ) (input : SubmitInput) (s : State)
    → Consistent s
    → Submitted now input s (submit_job now input s)
unfolding submit_job
submit_job-Submitted now input s c =
    let r = ensure_project input.project_id input.workspace_id s in
    let same = ensure_project-SameJobs input.project_id input.workspace_id s in
    elim (Result-cases r.0) [
      | inl (e, thrown) ↦ rw (submit_job, thrown) (same.jobs, same.queue)
      | inr (p, resolved) ↦
          rw (submit_job, resolved) (submit_resolved-Submitted now input s r.1 c same p resolved)
    ]
