-- ===== src/Pipeline/Jobs/Claiming.antt =====
-- jobRepository.ts: the invariant of the jobs through `claimNextJob`.
use bbmcp.Prelude.{
  ℕ, zero, suc, ◌+◌, ◌≡◌, refl, inl, inr, false, List, [], ◌∷◌, Option, none, some, arith,
  Bool-cases,
}
use bbmcp.Prelude.Text.{Text, ◌==◌, ==_iff, eq_of_==, includes}
use bbmcp.Prelude.Dict.{get}
use bbmcp.Pipeline.State.{running, Job, State}
use bbmcp.Pipeline.Jobs.Queue.{
  includes-enqueue_unique, enqueue_unique-Once, enqueue_unique-IsFilled,
}
use bbmcp.Pipeline.Jobs.Consistent.{
  IsConsistent, Consistent, IsWaiting, recover-Consistent, put-IsConsistent, show_job-Consistent,
}
use bbmcp.Pipeline.Jobs.{
  is_queued, enqueue_unique, Round, stop, skip, claim, ClaimTimes, start_job, start_claim, try_job,
  claim_round, claim_rounds, claim_next_job, is_ahead,
}

abbrev pub KeepsConsistent : Round → Type 0
KeepsConsistent (stop s) = Consistent s
KeepsConsistent (skip s) = Consistent s
KeepsConsistent (claim j s) = Consistent s

-- The identifier has left the queue, and its job may be waiting still.
abbrev Popped : Text → State → Type 0
Popped id s = IsConsistent s.jobs (id ∷ s.queued_job_ids) s.next_job_id

Popped-IsWaiting :
    (id : Text) (s : State) (k : Text) (j : Job)
    → Popped id s
    → get k s.jobs ≡ some j
    → (id == k) ≡ false
    → IsWaiting s.queued_job_ids k j
unfolding includes
Popped-IsWaiting id s k j c e other h = ground (arith, c.waiting k j e h)

-- Where the job under the identifier need not wait the queue is complete again.
Popped-Consistent :
    (id : Text) (s : State)
    → Popped id s
    → ((j : Job) → get id s.jobs ≡ some j → is_queued j.status ≡ false)
    → Consistent s
Popped-Consistent id s c idle = record {
  unique = c.unique;
  named = c.named;
  waiting = λ k j e h. elim (Bool-cases (id == k)) [
    | inl hit ↦
        let key : id ≡ k = eq_of_== id k hit in
        let still : is_queued j.status ≡ false = idle j (rw key e) in cc
    | inr miss ↦ Popped-IsWaiting id s k j c e miss h
  ];
  once = c.once.1;
  filled = c.filled.1;
}

-- A job whose retry is ahead goes to the end of the queue.
postponed-Consistent :
    (id : Text) (j : Job) (s : State)
    → Popped id s
    → get id s.jobs ≡ some j
    → Consistent (record s { queued_job_ids = enqueue_unique s.queued_job_ids j.id })
postponed-Consistent id j s c e = record {
  unique = c.unique;
  named = c.named;
  waiting = λ k y found h. elim (Bool-cases (id == k)) [
    | inl hit ↦ ground (
      arith,
      (c.named id j e).0,
      ==_iff j.id k,
      ==_iff id k,
      includes-enqueue_unique s.queued_job_ids j.id k,
    )
    | inr miss ↦ ground (
      arith,
      Popped-IsWaiting id s k y c found miss h,
      includes-enqueue_unique s.queued_job_ids j.id k,
    )
  ];
  once = enqueue_unique-Once s.queued_job_ids j.id c.once.1;
  filled =
      enqueue_unique-IsFilled s.queued_job_ids j.id c.filled.1
        (rw ((c.named id j e).0) (c.filled.0));
}

module _ (times : ClaimTimes) (worker_id : Text) where
  start_claim-Consistent :
      (id : Text) (j : Job) (s : State)
      → Popped id s
      → get id s.jobs ≡ some j
      → KeepsConsistent (start_claim times worker_id id j s)
  unfolding start_claim start_job
  start_claim-Consistent id j s c e =
      show_job-Consistent _ running (λ p. p) _
        (put-IsConsistent s.jobs (id ∷ s.queued_job_ids) s.queued_job_ids s.next_job_id id j _ c e
          refl (λ h. cc) (λ k y found miss. Popped-IsWaiting id s k y c found miss) c.once.1
          c.filled.1)

  try_job-Consistent :
      (now : ℕ) (id : Text) (o : Option Job) (s : State)
      → Popped id s
      → get id s.jobs ≡ o
      → KeepsConsistent (try_job times worker_id now id o s)
  unfolding try_job
  try_job-Consistent now id none s c e = Popped-Consistent id s c (λ j found. cc)
  try_job-Consistent now id (some j) s c e = elim (Bool-cases (is_queued j.status)) [
    | inr idle ↦ rw idle (Popped-Consistent id s c (λ y found. ground arith))
    | inl ready ↦ elim (Bool-cases (is_ahead now j.next_retry_at)) [
      | inl later ↦ rw (ready, later) (postponed-Consistent id j s c e)
      | inr due ↦ rw (ready, due) (start_claim-Consistent id j s c e)
    ]
  ]

  pub claim_round-Consistent :
      (now : ℕ) (queue : List Text) (s : State)
      → s.queued_job_ids ≡ queue
      → Consistent s
      → KeepsConsistent (claim_round times worker_id now queue s)
  unfolding claim_round
  claim_round-Consistent now [] s e c = c
  claim_round-Consistent now (id ∷ rest) s e c =
      let popped : Popped id (record s { queued_job_ids = rest }) = rw e at c in
      rw (popped.filled.0)
        (try_job-Consistent now id (get id s.jobs) (record s { queued_job_ids = rest }) popped refl)

  claim_rounds-Consistent :
      (n index : ℕ) (s : State)
      → Consistent s
      → Consistent (claim_rounds times worker_id n index s).1
  unfolding claim_rounds
  claim_rounds-Consistent zero index s c = c
  claim_rounds-Consistent (suc n) index s c =
      go (claim_round times worker_id (times.retry_at index) s.queued_job_ids s)
        (claim_round-Consistent (times.retry_at index) s.queued_job_ids s refl c)
        (λ s'. claim_rounds-Consistent n (index + 1) s')
    where
      go :
          (r : Round)
          → KeepsConsistent r
          → ((s' : State)
              → Consistent s'
              → Consistent (claim_rounds times worker_id n (index + 1) s').1)
          → Consistent
              (elim r as (λ _. Option Job × State) [
                | stop s' ↦ (none, s')
                | skip s' ↦ claim_rounds times worker_id n (index + 1) s'
                | claim j s' ↦ (some j, s')
              ]).1
      go (stop s') k ih = k
      go (skip s') k ih = ih s' k
      go (claim j s') k ih = k

  pub claim_next_job-Consistent :
      (s : State) → Consistent s → Consistent (claim_next_job times worker_id s).1
  unfolding claim_next_job
  claim_next_job-Consistent s c =
      claim_rounds-Consistent _ 0 _ (recover-Consistent times.recovered_at s c)
