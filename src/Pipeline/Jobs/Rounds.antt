-- ===== src/Pipeline/Jobs/Rounds.antt =====
-- jobRepository.ts: what one round of the loop of `claimNextJob` does, and what the loop hands out.
use bbmcp.Prelude.{
  ℕ, ◌≡◌, refl, ◌⊎◌, inl, inr, true, false, List, ◌∷◌, Option, none, some, arith, Bool-cases,
}
use bbmcp.Prelude.Text.{Text, is_empty}
use bbmcp.Prelude.Dict.{get}
use bbmcp.Pipeline.State.{Job, State}
use bbmcp.Pipeline.Jobs.{
  is_queued, enqueue_unique, Round, skip, ClaimTimes, start_claim, try_job, claim_round, is_ahead,
}

-- A job that is to run and whose retry is not ahead.
abbrev pub IsDue : ℕ → Job → Type 0
IsDue now j = (is_queued j.status ≡ true) × (is_ahead now j.next_retry_at ≡ false)

abbrev pub IsPostponed : ℕ → Job → Type 0
IsPostponed now j = (is_queued j.status ≡ true) × (is_ahead now j.next_retry_at ≡ true)

module _ (times : ClaimTimes) (worker_id : Text) where
  -- The three ways in which a round ends that takes an identifier from the queue.
  abbrev pub RoundCases : ℕ → Text → State → Round → Type 0
  RoundCases now id s r =
      ((r ≡ skip s) × ((j : Job) → get id s.jobs ≡ some j → is_queued j.status ≡ false))
      ⊎ ((j : Job) × (get id s.jobs ≡ some j)
          × IsPostponed now j
          × (r ≡ skip (record s { queued_job_ids = enqueue_unique s.queued_job_ids j.id })))
      ⊎ ((j : Job) × (get id s.jobs ≡ some j)
          × IsDue now j
          × (r ≡ start_claim times worker_id id j s))

  try_job-RoundCases :
      (now : ℕ) (id : Text) (o : Option Job) (s : State)
      → get id s.jobs ≡ o
      → RoundCases now id s (try_job times worker_id now id o s)
  unfolding try_job
  try_job-RoundCases now id none s e = inl (refl, λ j h. cc)
  try_job-RoundCases now id (some j) s e = elim (Bool-cases (is_queued j.status)) [
    | inr idle ↦ rw idle (inl (refl, λ x h. ground arith))
    | inl ready ↦ elim (Bool-cases (is_ahead now j.next_retry_at)) [
      | inl later ↦ rw (ready, later) (inr (inl (j, e, (ready, later), refl)))
      | inr due ↦ rw (ready, due) (inr (inr (j, e, (ready, due), refl)))
    ]
  ]

  pub claim_round-RoundCases :
      (now : ℕ) (id : Text) (rest : List Text) (s : State)
      → is_empty id ≡ false
      → RoundCases now id
          (record s { queued_job_ids = rest })
          (claim_round times worker_id now (id ∷ rest) s)
  unfolding claim_round
  claim_round-RoundCases now id rest s h =
      rw h (try_job-RoundCases now id (get id s.jobs) (record s { queued_job_ids = rest }) refl)
