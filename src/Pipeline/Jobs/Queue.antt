-- ===== src/Pipeline/Jobs/Queue.antt =====
-- jobRepository.ts: the queue of job identifiers, and the recovery of jobs whose lease has run out.
use bbmcp.Prelude.{
  ◌≡◌, refl, inl, inr, true, false, ◌||◌, List, [], ◌∷◌, Option, none, some, if◌then◌else◌, arith,
  ℕ, Bool-cases, All, All-append,
}
use bbmcp.Prelude.Text.{
  Text, ◌==◌, ==_iff, ==_refl, includes, includes-append, Once, Once-append, is_empty,
}
use bbmcp.Prelude.Dict.{Dict, get, UniqueKeys}
use bbmcp.Pipeline.State.{Job}
use bbmcp.Pipeline.Jobs.{enqueue_unique, has_expired_lease, requeue, recover_jobs, recover_queue}

pub includes-enqueue_unique :
    (queue : List Text) (a x : Text)
    → includes (enqueue_unique queue a) x ≡ (includes queue x || a == x)
unfolding enqueue_unique
includes-enqueue_unique queue a x = ground (arith, ==_iff a x, includes-append queue a x)

pub enqueue_unique-Once :
    (queue : List Text) (a : Text) → Once queue → Once (enqueue_unique queue a)
unfolding enqueue_unique
enqueue_unique-Once queue a o = ground (arith, Once-append queue a o)

abbrev pub IsFilled : List Text → Type 0
IsFilled = All (λ id. is_empty id ≡ false)

pub enqueue_unique-IsFilled :
    (queue : List Text) (a : Text)
    → IsFilled queue
    → is_empty a ≡ false
    → IsFilled (enqueue_unique queue a)
unfolding enqueue_unique
enqueue_unique-IsFilled queue a f h = elim (Bool-cases (includes queue a)) [
  | inl old ↦ rw (old, enqueue_unique) f
  | inr new ↦
      rw (new, enqueue_unique) (All-append (λ id. is_empty id ≡ false) queue (a ∷ []) f (h, tt))
]

pub recover_queue-Once :
    (now : ℕ) (jobs : Dict Job) (queue : List Text)
    → Once queue
    → Once (recover_queue now jobs queue)
unfolding recover_queue
recover_queue-Once now [] queue o = o
recover_queue-Once now ((k, j) ∷ jobs) queue o =
    recover_queue-Once now jobs _ (ground (arith, enqueue_unique-Once queue j.id o))

pub recover_queue-IsFilled :
    (now : ℕ) (jobs : Dict Job) (queue : List Text)
    → IsFilled queue
    → All (λ (e : Text × Job). is_empty (e.1).id ≡ false) jobs
    → IsFilled (recover_queue now jobs queue)
unfolding recover_queue
recover_queue-IsFilled now [] queue f h = f
recover_queue-IsFilled now ((k, j) ∷ jobs) queue f (here, h) =
    recover_queue-IsFilled now jobs _ (ground (arith, enqueue_unique-IsFilled queue j.id f here)) h

-- Recovery takes nothing out of the queue.
pub includes-recover_queue :
    (now : ℕ) (jobs : Dict Job) (queue : List Text) (x : Text)
    → includes queue x ≡ true
    → includes (recover_queue now jobs queue) x ≡ true
unfolding recover_queue
includes-recover_queue now [] queue x h = h
includes-recover_queue now ((k, j) ∷ jobs) queue x h =
    includes-recover_queue now jobs _ x (ground (arith, includes-enqueue_unique queue j.id x))

pub includes-recover_queue_expired :
    (now : ℕ) (jobs : Dict Job) (queue : List Text) (k : Text) (j : Job)
    → get k jobs ≡ some j
    → has_expired_lease now j ≡ true
    → includes (recover_queue now jobs queue) j.id ≡ true
unfolding recover_queue get
includes-recover_queue_expired now [] queue k j e h = cc
includes-recover_queue_expired now ((i, x) ∷ jobs) queue k j e h = elim (Bool-cases (i == k)) [
  | inl same ↦
      let found : x ≡ j = ground arith in
      includes-recover_queue now jobs _ j.id
        (ground (arith, found, ==_refl j.id, includes-enqueue_unique queue x.id j.id))
  | inr other ↦ includes-recover_queue_expired now jobs _ k j (ground arith) h
]

-- What recovery makes of one job.
abbrev pub recovered : ℕ → Job → Job
recovered now j = if has_expired_lease now j then requeue j else j

abbrev pub recovered_entry : ℕ → Option Job → Option Job
recovered_entry now none = none
recovered_entry now (some j) = some (recovered now j)

pub get-recover_jobs :
    (now : ℕ) (jobs : Dict Job) (k : Text)
    → get k (recover_jobs now jobs) ≡ recovered_entry now (get k jobs)
unfolding recover_jobs get
get-recover_jobs now [] k = refl
get-recover_jobs now ((i, x) ∷ jobs) k = ground (arith, get-recover_jobs now jobs k)

pub recover_jobs-UniqueKeys :
    (now : ℕ) (jobs : Dict Job) → UniqueKeys jobs → UniqueKeys (recover_jobs now jobs)
unfolding recover_jobs
recover_jobs-UniqueKeys now [] u = tt
recover_jobs-UniqueKeys now ((i, x) ∷ jobs) (fresh, u) =
    (rw (get-recover_jobs now jobs i, fresh) refl, recover_jobs-UniqueKeys now jobs u)
