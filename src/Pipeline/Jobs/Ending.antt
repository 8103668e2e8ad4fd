-- ===== src/Pipeline/Jobs/Ending.antt =====
-- jobRepository.ts: the invariant of the jobs through `completeJob` and `failJob`.
use bbmcp.Prelude.{ℕ, ◌≡◌, refl, inl, inr, some, arith, Bool-cases, Option-cases}
use bbmcp.Prelude.Text.{Text, ==_iff}
use bbmcp.Prelude.Dict.{get}
use bbmcp.Pipeline.Model.{ok}
use bbmcp.Pipeline.Json.{Json}
use bbmcp.Pipeline.Contracts.{JobBody}
use bbmcp.Pipeline.Contracts.PreflightResult.{normalize_native_job_result}
use bbmcp.Pipeline.State.{queued, completed, failed, Job, State, clone_job}
use bbmcp.Pipeline.State.Throwing.{or_throw}
use bbmcp.Pipeline.Jobs.Queue.{
  includes-enqueue_unique, enqueue_unique-Once, enqueue_unique-IsFilled,
}
use bbmcp.Pipeline.Jobs.Consistent.{
  Consistent, is_empty-of_named, put-IsConsistent, show_job-Consistent,
}
use bbmcp.Pipeline.Jobs.Finish.{
  complete, complete_found, complete_job, retry_later, bury, has_attempts_left, fail_found,
  fail_job,
}

complete_found-Consistent :
    (now : ℕ) (id : Text) (body : JobBody) (j : Job) (s : State)
    → Consistent s
    → get id s.jobs ≡ some j
    → Consistent (complete_found now id body j s)
unfolding complete_found complete
complete_found-Consistent now id body j s c e = show_job-Consistent _ completed _ _ (
    put-IsConsistent s.jobs s.queued_job_ids s.queued_job_ids s.next_job_id id j _ c e refl
      (λ h. cc) (λ k y found miss. c.waiting k y found) c.once c.filled)

pub complete_job-Consistent :
    (now : ℕ) (id : Text) (result : Json) (s : State)
    → Consistent s
    → Consistent (complete_job now id result s).1
unfolding complete_job
complete_job-Consistent now id result s c = elim (Option-cases (get id s.jobs)) [
  | inl absent ↦ rw (absent, complete_job) c
  | inr (j, found) ↦
      rw (found, complete_job)
        (or_throw Consistent (normalize_native_job_result j.body result) s
          (λ body. (ok (some (clone_job (complete now body j))), complete_found now id body j s)) c
          (λ body. complete_found-Consistent now id body j s c found))
]

fail_found-Consistent :
    (completed_at retry_from : ℕ) (id message : Text) (j : Job) (s : State)
    → Consistent s
    → get id s.jobs ≡ some j
    → Consistent (fail_found completed_at retry_from id message j s).1
unfolding fail_found retry_later bury
fail_found-Consistent completed_at retry_from id message j s c e =
    elim (Bool-cases (has_attempts_left j)) [
      | inl more ↦ rw more (
          show_job-Consistent _ queued _ _ (
            put-IsConsistent s.jobs s.queued_job_ids _ s.next_job_id id j _ c e refl
              (λ h. ground (
                arith,
                (c.named id j e).0,
                ==_iff j.id id,
                includes-enqueue_unique s.queued_job_ids j.id id,
              ))
              (λ k y found miss h.
                ground
                  (arith, c.waiting k y found h, includes-enqueue_unique s.queued_job_ids j.id k))
              (enqueue_unique-Once s.queued_job_ids j.id c.once)
              (enqueue_unique-IsFilled s.queued_job_ids j.id c.filled
                (rw ((c.named id j e).0) (is_empty-of_named s.next_job_id id j (c.named id j e))))))
      | inr last ↦ rw last (
          show_job-Consistent _ failed _ _ (
            put-IsConsistent s.jobs s.queued_job_ids s.queued_job_ids s.next_job_id id j _ c e refl
              (λ h. cc) (λ k y found miss. c.waiting k y found) c.once c.filled))
    ]

pub fail_job-Consistent :
    (completed_at retry_from : ℕ) (id message : Text) (s : State)
    → Consistent s
    → Consistent (fail_job completed_at retry_from id message s).1
unfolding fail_job
fail_job-Consistent completed_at retry_from id message s c = elim (Option-cases (get id s.jobs)) [
  | inl absent ↦ rw (absent, fail_job) c
  | inr (j, found) ↦
      rw (found, fail_job) (fail_found-Consistent completed_at retry_from id message j s c found)
]
