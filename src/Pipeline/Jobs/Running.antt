-- ===== src/Pipeline/Jobs/Running.antt =====
-- jobRepository.ts: a running job through a call of `claimNextJob`.
use bbmcp.Prelude.{ℕ, ◌≡◌, inl, inr, true, false, Option, none, some, arith, Bool-cases}
use bbmcp.Prelude.Text.{Text, ◌==◌, eq_of_==}
use bbmcp.Prelude.Dict.{Dict, get, get-set_other}
use bbmcp.Pipeline.State.{Job, State}
use bbmcp.Pipeline.Jobs.Queue.{get-recover_jobs}
use bbmcp.Pipeline.Jobs.Consistent.{Consistent}
use bbmcp.Pipeline.Jobs.Handing.{Handed, claim_next_job-Handed}
use bbmcp.Pipeline.Jobs.{
  is_queued, is_running, has_expired_lease, recover_expired_running_jobs, ClaimTimes,
  claim_next_job,
}

-- After recovery a job with a live lease is as it was.
recovered_running :
    (now : ℕ) (s : State) (k : Text) (j : Job)
    → get k s.jobs ≡ some j
    → has_expired_lease now j ≡ false
    → get k (recover_expired_running_jobs now s).jobs ≡ some j
unfolding recover_expired_running_jobs
recovered_running now s k j e live = ground (arith, get-recover_jobs now s.jobs k)

running_not_queued : (j : Job) → is_running j.status ≡ true → is_queued j.status ≡ false
running_not_queued j h = ground arith

module _ (times : ClaimTimes) (worker_id : Text) where
  Handed-keeps :
      (jobs : Dict Job) (r : Option Job × State) (k : Text) (j : Job)
      → Handed times worker_id jobs r
      → get k jobs ≡ some j
      → is_running j.status ≡ true
      → get k (r.1).jobs ≡ some j
  Handed-keeps jobs (none, s) k j h e live = rw h e
  Handed-keeps jobs (some x, s) k j h e live = elim (Bool-cases (h.id == k)) [
    | inl same ↦
        let key : h.id ≡ k = eq_of_== h.id k same in
        let found : get k jobs ≡ some h.source = rw (← key) h.found in
        let ready : is_queued h.source.status ≡ true = h.due.0 in
        let twin : h.source ≡ j = cc in absurd (ground (arith, running_not_queued j live))
    | inr other ↦ rw (h.stored, get-set_other h.id k _ jobs other) e
  ]

  -- No worker is handed a job that another works on: with consistent jobs, while the lease of a
  -- running job is not past its time, a call of `claim` leaves the job as it is, whoever calls.
  pub claim_next_job-keeps_running :
      (s : State) (k : Text) (j : Job)
      → Consistent s
      → get k s.jobs ≡ some j
      → is_running j.status ≡ true
      → has_expired_lease times.recovered_at j ≡ false
      → get k (claim_next_job times worker_id s).1.jobs ≡ some j
  claim_next_job-keeps_running s k j c e running live =
      Handed-keeps (recover_expired_running_jobs times.recovered_at s).jobs
        (claim_next_job times worker_id s) k j (claim_next_job-Handed times worker_id s c)
        (recovered_running times.recovered_at s k j e live) running
