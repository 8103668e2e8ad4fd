-- ===== src/Pipeline/Lease/Looking.antt =====
-- PersistentNativePipelineStore.ts: the lease. Time passes, a request begins, and it looks at the row.
use bbmcp.Prelude.{
  ℕ, ◌+◌, ◌≡◌, refl, ◌∷◌, true, false, not, Option, none, some, arith, Bool-cases, Option-cases,
  inl, inr,
}
use bbmcp.Prelude.Text.{Text, ==_refl, includes}
use bbmcp.Pipeline.Durable.{update}
use bbmcp.Pipeline.Lease.{
  LockRow, is_lock_active, lock_in, can_attempt, revision_in, lock_row, Task, idle, waiting,
  attempting, written, holding, releasing, World, look,
}
use bbmcp.Pipeline.Lease.Safe.{
  IsOver, is_lock_active-later, IsStored, IsTask, IsSafe, IsSafe-step, IsSafe-task,
}

module _ (iso : ℕ → Text) (ttl : ℕ) (w : World) (h : IsSafe w) where
  IsRow-later :
      (n : ℕ) (row : Option LockRow)
      → IsStored w.now w.stored row
      → IsStored (w.now + n) w.stored row
  IsRow-later n none k = tt
  IsRow-later n (some row) k = record {
    known = k.known;
    active_owner = λ lock e active. elim (Bool-cases (is_lock_active lock w.now)) [
      | inl was ↦ k.active_owner lock e was
      | inr over ↦ let still = is_lock_active-later lock w.now n over in absurd cc
    ];
  }

  IsTask-later :
      (n : ℕ) (task : Task)
      → IsTask w.now w.stored w.row task
      → IsTask (w.now + n) w.stored w.row task
  IsTask-later n idle k = tt
  IsTask-later n (waiting owner) k = k
  IsTask-later n (written owner) k = tt
  IsTask-later n (holding owner expires) k = λ before. k (omega arith)
  IsTask-later n (attempting owner expected row) k = record {
    new = k.new;
    named = k.named;
    owned = k.owned;
    seen = k.seen;
    over = λ old here e lock body. is_lock_active-later lock w.now n (k.over old here e lock body);
  }
  IsTask-later n (releasing owner expected row) k = record {
    new = k.new;
    seen = k.seen;
    over = λ lock body. is_lock_active-later lock w.now n (k.over lock body);
    own = k.own;
  }

  pub passes-IsSafe : (n : ℕ) → IsSafe (record w { now = w.now + n })
  passes-IsSafe n = record {
    row = IsRow-later n w.row h.row;
    at_work = λ t. IsTask-later n (w.tasks t) (h.at_work t);
    owners = h.owners;
    claims = h.claims;
    grown = h.grown;
  }

  module _ (t : ℕ) where
    pub task_at : (task : Task) → w.tasks t ≡ task → IsTask w.now w.stored w.row task
    task_at task k = rw (← k) (h.at_work t)

    pub begins-IsSafe :
        (owner : Text)
        → includes w.used owner ≡ false
        → IsSafe (record w { tasks = update t (waiting owner) w.tasks; used = owner ∷ w.used })
    unfolding includes
    begins-IsSafe owner new =
        IsSafe-step w h t (waiting owner) w.row (owner ∷ w.used) w.stored h.row not_stored
          (λ u miss k. k) (λ r e. inr (fresh r e)) (λ r e. inr (fresh r e)) in_front in_front
          (λ r e. rw e (ground arith)) (λ r e. let old = h.grown r e in rw old (ground arith))
      where
        not_stored : includes w.stored owner ≡ false
        not_stored = elim (Bool-cases (includes w.stored owner)) [
          | inl was ↦ let old = h.grown owner was in absurd cc
          | inr unknown ↦ unknown
        ]

        fresh : (r : Text) → some owner ≡ some r → includes w.used r ≡ false
        fresh r e = let same : owner ≡ r = ground arith in rw (← same) new

        in_front : (r : Text) → some owner ≡ some r → includes (owner ∷ w.used) r ≡ true
        in_front r e = let same : owner ≡ r = ground arith in rw (← same, ==_refl owner) refl

    -- What the row's lease is where an attempt may be made.
    IsOver-row :
        (old : LockRow) → w.row ≡ some old → can_attempt w.row w.now ≡ true → IsOver w.now old
    IsOver-row old here may lock body =
        let inside : lock_in w.row ≡ some lock = rw here body in
        let missing : not (is_lock_active lock w.now) ≡ true = rw (can_attempt, inside) at may in
        ground arith

    seen_of : (r : Text) → revision_in w.row ≡ some r → includes w.stored r ≡ true
    seen_of r e = elim (Option-cases w.row) [
      | inl absent ↦ let missing : none ≡ some r = rw absent at e in absurd cc
      | inr (old, here) ↦
          let stored : IsStored w.now w.stored (some old) = rw here at h.row in
          let same : some old.revision ≡ some r = rw here at e in
          let one : old.revision ≡ r = ground arith in rw (← one) stored.known
    ]

    pub look-IsSafe : (owner : Text) → w.tasks t ≡ waiting owner → IsSafe (look iso ttl t owner w)
    unfolding look
    look-IsSafe owner k = elim (Bool-cases (can_attempt w.row w.now)) [
      | inr busy ↦ rw (look, busy) h
      | inl may ↦
          rw (look, may)
            (IsSafe-task w h t
              (attempting owner (revision_in w.row) (lock_row owner w.row w.now ttl))
              (record {
                new = task_at (waiting owner) k;
                named = refl;
                owned = λ lock e. ground arith;
                seen = seen_of;
                over = λ old here e. IsOver-row old here may;
              })
              (λ r e. rw k e) (λ r e. rw k e))
    ]
