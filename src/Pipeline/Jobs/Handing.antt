-- ===== src/Pipeline/Jobs/Handing.antt =====
-- jobRepository.ts: which job `claimNextJob` hands out, and when it hands out none.
use bbmcp.Prelude.{
  ℕ, zero, suc, ◌+◌, ◌≡◌, refl, sym, inl, inr, true, false, List, [], ◌∷◌, ◌++◌, Option, none, some,
  arith, Bool-cases, length, All, All-append,
}
use mathlib.Core.List.{append_assoc, append-nil}
use bbmcp.Prelude.Text.{Text, ◌==◌, eq_of_==, includes, Once, is_empty}
use bbmcp.Prelude.Dict.{Dict, get, set}
use bbmcp.Pipeline.Model.{stamp}
use bbmcp.Pipeline.State.{running, Job, State, clone_job, non_empty}
use bbmcp.Pipeline.Jobs.Consistent.{Consistent, show_job-jobs, show_job-queue, recover-Consistent}
use bbmcp.Pipeline.Jobs.Claiming.{claim_round-Consistent}
use bbmcp.Pipeline.Jobs.Rounds.{IsDue, claim_round-RoundCases}
use bbmcp.Pipeline.Jobs.{
  is_queued, enqueue_unique, show_job, recover_expired_running_jobs, claim, ClaimTimes, start_job,
  start_claim, claim_round, claim_rounds, claim_next_job, is_ahead,
}

some-ne-none {ℓ} : {A : Type ℓ} {a : A} → ¬ (some a ≡ none)
some-ne-none h = cc

module _ (times : ClaimTimes) (worker_id : Text) where
  -- What is stored: the job runs for this worker, under a lease of its own length, with one attempt
  -- more and no trace of earlier ones; what it is about stays.
  pub record IsWorking (source started : Job) : Type 0 where
    pub runs : started.status ≡ running
    pub worker : started.worker_id ≡ some worker_id
    pub start : started.started_at ≡ some (stamp times.started_at)
    pub counted : started.attempt_count ≡ source.attempt_count + 1
    pub lease : started.lease_expires_at ≡ some (stamp (times.leased_at + source.lease_ms))
    pub no_retry : started.next_retry_at ≡ none
    pub no_error : started.error ≡ none
    pub not_complete : started.completed_at ≡ none
    pub not_dead : started.dead_letter ≡ false
    pub identifier : started.id ≡ source.id
    pub target : started.project_id ≡ source.project_id
    pub limit : started.max_attempts ≡ source.max_attempts
    pub lease_length : started.lease_ms ≡ source.lease_ms
    pub created : started.created_at ≡ source.created_at
    pub body : started.body ≡ source.body

  start_job-IsWorking : (j : Job) → IsWorking j (start_job times worker_id j)
  unfolding start_job
  start_job-IsWorking j = record {
    runs = refl;
    worker = refl;
    start = refl;
    counted = refl;
    lease = refl;
    no_retry = refl;
    no_error = refl;
    not_complete = refl;
    not_dead = refl;
    identifier = refl;
    target = refl;
    limit = refl;
    lease_length = refl;
    created = refl;
    body = refl;
  }

  -- The job under `id` was due and is started in the table; nothing else there changes, and its
  -- identifier has left the queue. The answer is the stored job, but for an empty worker's name.
  pub record IsStarted (jobs : Dict Job) (j : Job) (s : State) : Type 0 where
    pub id : Text
    pub source : Job
    pub found : get id jobs ≡ some source
    pub round : ℕ
    pub due : IsDue (times.retry_at round) source
    pub started : Job
    pub working : IsWorking source started
    pub handed : j ≡ record started { worker_id = non_empty started.worker_id }
    pub stored : s.jobs ≡ set id started jobs
    pub gone : includes s.queued_job_ids id ≡ false

  abbrev pub Handed : Dict Job → Option Job × State → Type 0
  Handed jobs (none, s) = s.jobs ≡ jobs
  Handed jobs (some j, s) = IsStarted jobs j s

  start_claim-IsStarted :
      (round : ℕ) (id : Text) (x : Job) (s : State)
      → get id s.jobs ≡ some x
      → IsDue (times.retry_at round) x
      → includes s.queued_job_ids id ≡ false
      → (j : Job) (s' : State) → start_claim times worker_id id x s ≡ claim j s'
      → IsStarted s.jobs j s'
  unfolding start_claim start_job clone_job
  start_claim-IsStarted round id x s e due gone j s' h =
      let started = start_job times worker_id x in
      let shown = show_job started running (λ p. p) (record s { jobs = set id started s.jobs }) in
      let same : s' ≡ shown = cc in
      record {
        id = id;
        source = x;
        found = e;
        round = round;
        due = due;
        started = started;
        working = start_job-IsWorking x;
        handed = cc;
        stored = rw same (show_job-jobs started running (λ p. p) _);
        gone =
            rw
              (
                same,
                show_job-queue started running (λ p. p) (record s { jobs = set id started s.jobs }),
              )
              gone;
      }

  claim_rounds-Handed :
      (n index : ℕ) (s : State)
      → Consistent s
      → Handed s.jobs (claim_rounds times worker_id n index s)
  unfolding claim_rounds start_claim
  claim_rounds-Handed zero index s c = refl
  claim_rounds-Handed (suc n) index s c =
      go s.queued_job_ids refl (λ s'. claim_rounds-Handed n (index + 1) s')
    where
      now : ℕ
      now = times.retry_at index

      go :
          (queue : List Text)
          → s.queued_job_ids ≡ queue
          → ((s' : State)
              → Consistent s'
              → Handed s'.jobs (claim_rounds times worker_id n (index + 1) s'))
          → Handed s.jobs (claim_rounds times worker_id (suc n) index s)
      go [] e ih = rw (e, claim_rounds, claim_round) refl
      go (id ∷ rest) e ih =
          let filled : is_empty id ≡ false = (rw e at c.filled).0 in
          let once : Once (id ∷ rest) = rw e at c.once in
          let kept = claim_round-Consistent times worker_id now (id ∷ rest) s e c in
          elim (claim_round-RoundCases times worker_id now id rest s filled) [
            | inl (r, idle) ↦ rw (e, claim_rounds, r) (ih _ (rw r at kept))
            | inr (inl (j, found, later, r)) ↦ rw (e, claim_rounds, r) (ih _ (rw r at kept))
            | inr (inr (j, found, due, r)) ↦
                rw (e, claim_rounds, r)
                  (start_claim-IsStarted index id j (record s { queued_job_ids = rest }) found due
                    once.0 _ _ refl)
          ]

  -- With consistent jobs, a job that `claim` hands out was to run, after the recovery of expired
  -- leases, and its retry time had come; the table stores it as running for this worker, started
  -- now, with one attempt more, a new lease of its own length, no retry time, no error and no
  -- completion, and not as a dead letter; what it is about stays, no other job changes, its
  -- identifier has left the queue, and the answer is what is stored, but for an empty worker's
  -- name. Where `claim` hands out none, no job changes but by recovery.
  pub claim_next_job-Handed :
      (s : State)
      → Consistent s
      → Handed
          (recover_expired_running_jobs times.recovered_at s).jobs
          (claim_next_job times worker_id s)
  unfolding claim_next_job
  claim_next_job-Handed s c = claim_rounds-Handed _ 0 _ (recover-Consistent times.recovered_at s c)

  -- Some round of the loop has found the retry of the job ahead.
  abbrev IsAhead : Dict Job → Text → Type 0
  IsAhead jobs id =
      (j : Job)
      → get id jobs ≡ some j
      → is_queued j.status ≡ true
      → (i : ℕ) × (is_ahead (times.retry_at i) j.next_retry_at ≡ true)

  All_includes :
      (P : Text → Type 0) (xs : List Text) (k : Text) → All P xs → includes xs k ≡ true → P k
  unfolding includes
  All_includes P [] k h e = cc
  All_includes P (x ∷ xs) k (p, h) e = elim (Bool-cases (x == k)) [
    | inl same ↦ let key : x ≡ k = eq_of_== x k same in rw (← key) p
    | inr other ↦ All_includes P xs k h (ground arith)
  ]

  -- A round that postpones a job moves it behind those already seen.
  requeued_last :
      (front back : List Text) (id x : Text)
      → x ≡ id
      → includes (front ++ back) id ≡ false
      → enqueue_unique (front ++ back) x ≡ front ++ (back ++ id ∷ [])
  unfolding enqueue_unique
  requeued_last front back id x e h = rw (e, h) (append_assoc front back (id ∷ []))

  claim_rounds-none :
      (front back : List Text) (index : ℕ) (s : State)
      → Consistent s
      → s.queued_job_ids ≡ front ++ back
      → All (IsAhead s.jobs) back
      → (claim_rounds times worker_id (length front) index s).0 ≡ none
      → (k : Text) → IsAhead s.jobs k
  unfolding claim_rounds start_claim
  claim_rounds-none [] back index s c e seen h k j found ready =
      All_includes (IsAhead s.jobs) back k seen (rw e at (c.waiting k j found ready)) j found ready
  claim_rounds-none (id ∷ front) back index s c e seen h k j' found' ready' =
      let now = times.retry_at index in
      let filled : is_empty id ≡ false = (rw e at c.filled).0 in
      let once : Once (id ∷ (front ++ back)) = rw e at c.once in
      let kept = claim_round-Consistent times worker_id now (id ∷ (front ++ back)) s e c in
      elim (claim_round-RoundCases times worker_id now id (front ++ back) s filled) [
        | inl (r, idle) ↦
            claim_rounds-none front back (index + 1) _ (rw r at kept) refl seen
              (rw (e, claim_rounds, r) at h) k j' found' ready'
        | inr (inl (j, found, later, r)) ↦
            claim_rounds-none front (back ++ id ∷ []) (index + 1) _ (rw r at kept)
              (requeued_last front back id j.id ((c.named id j found).0) once.0)
              (All-append (IsAhead s.jobs) back (id ∷ []) seen
                ((λ x hx q. let same : x ≡ j = cc in (index, rw same (later.1))), tt))
              (rw (e, claim_rounds, r) at h) k j' found' ready'
        | inr (inr (j, found, due, r)) ↦ absurd (some-ne-none (rw (e, claim_rounds, r) at h))
      ]

  -- With consistent jobs, where `claim` hands out nothing there was nothing to hand out: every job
  -- that is to run after the recovery of expired leases has a retry time that some reading of the
  -- clock found ahead.
  pub claim_next_job-none :
      (s : State) (k : Text) (j : Job)
      → Consistent s
      → (claim_next_job times worker_id s).0 ≡ none
      → get k (recover_expired_running_jobs times.recovered_at s).jobs ≡ some j
      → is_queued j.status ≡ true
      → (i : ℕ) × (is_ahead (times.retry_at i) j.next_retry_at ≡ true)
  unfolding claim_next_job
  claim_next_job-none s k j c h found ready =
      claim_rounds-none _ [] 0 _ (recover-Consistent times.recovered_at s c) (sym (append-nil _)) tt
        h k j found ready
