-- ===== src/Pipeline/Lease/Putting.antt =====
-- PersistentNativePipelineStore.ts: the lease. A request writes its lease, or gives it back.
use bbmcp.Prelude.{
  ℕ, ◌<◌, ◌≡◌, refl, sym, ◌∙◌, List, ◌∷◌, Bool, true, false, Option, some, arith, nat_eq,
  Bool-cases, inl, inr,
}
use bbmcp.Prelude.Text.{Text, ◌==◌, eq_of_==, ==_refl, includes}
use bbmcp.Pipeline.Model.{parse_date}
use bbmcp.Pipeline.Rows.{save_if_revision}
use bbmcp.Pipeline.Lease.{
  LockState, LockRow, is_lock_active, Task, idle, waiting, attempting, written, holding, releasing,
  World, put,
}
use bbmcp.Pipeline.Lease.Names.{owner_of, claim_of}
use bbmcp.Pipeline.Lease.Safe.{
  IsAttempt, IsHeld, IsRelease, IsTask, IsSafe, IsSafe-step, IsSafe-task,
}
use bbmcp.Pipeline.Lease.Writing.{Outcome, save_if_revision-Outcome, IsTask-written}
use bbmcp.Pipeline.Lease.Looking.{task_at}

active_of :
    (lock : LockState) (now expires : ℕ)
    → parse_date lock.expires_at ≡ some expires
    → now < expires
    → is_lock_active lock now ≡ true
unfolding is_lock_active
active_of lock now expires read before = rw (is_lock_active, read) (ground arith)

module _ (iso : ℕ → Text) (ttl : ℕ) (w : World) (h : IsSafe w) (t : ℕ) where
  -- The writer of a row whose name no other request may write.
  apart_from :
      (task : Task) (r : Text)
      → w.tasks t ≡ task
      → claim_of task ≡ some r
      → (u : ℕ) → nat_eq t u ≡ false
      → (q : Text) → claim_of (w.tasks u) ≡ some q
      → (r == q) ≡ false
  apart_from task r k mine u miss q e = elim (Bool-cases (r == q)) [
    | inl hit ↦
        let same : r ≡ q = eq_of_== r q hit in
        let claim : claim_of (w.tasks t) ≡ some q = rw (k, ← same) mine in
        let one = h.claims.unique t u q claim e in absurd cc
    | inr other ↦ other
  ]

  -- A write that is taken, where the row before it is not another's lease.
  put-IsSafe :
      (row : LockRow) (expected : Option Text) (task applied refused : Task)
      → w.tasks t ≡ task
      → claim_of task ≡ some row.revision
      → includes w.stored row.revision ≡ false
      → ((old : LockRow)
          → w.row ≡ some old
          → expected ≡ some old.revision
          → (u : ℕ) (owner : Text) (expires : ℕ) → nat_eq t u ≡ false
          → w.tasks u ≡ holding owner expires
          → ¬ (w.now < expires))
      → ((lock : LockState)
          → row.body ≡ some lock
          → is_lock_active lock w.now ≡ true
          → row.revision ≡ lock.owner)
      → ((stored : List Text) (current : Option LockRow) → IsTask w.now stored current applied)
      → IsTask w.now w.stored w.row refused
      → ((r : Text) → owner_of applied ≡ some r → owner_of task ≡ some r)
      → ((r : Text) → claim_of applied ≡ some r → claim_of task ≡ some r)
      → ((r : Text) → owner_of refused ≡ some r → owner_of task ≡ some r)
      → ((r : Text) → claim_of refused ≡ some r → claim_of task ≡ some r)
      → IsSafe (put iso ttl row applied refused t (save_if_revision row expected w.row) w)
  unfolding includes
  put-IsSafe row expected task applied refused k mine fresh unheld own applied_ok refused_ok o1 c1
        o2 c2 =
      go (save_if_revision row expected w.row) refl (save_if_revision-Outcome row expected w.row)
    where
      grown : (r : Text) → includes (row.revision ∷ w.stored) r ≡ true → includes w.used r ≡ true
      grown r e = elim (Bool-cases (row.revision == r)) [
        | inl hit ↦
            let same : row.revision ≡ r = eq_of_== row.revision r hit in
            rw (← same) (h.claims.known t row.revision (rw k mine))
        | inr miss ↦ h.grown r (ground arith)
      ]

      held_off :
          (new : LockRow)
          → ((old : LockRow) → w.row ≡ some old → expected ≡ some old.revision)
          → (u : ℕ) → nat_eq t u ≡ false
          → (owner : Text) (expires : ℕ) → w.tasks u ≡ holding owner expires
          → ¬ (w.now < expires)
      held_off new was u miss owner expires e before =
          let held : IsHeld w.now w.stored w.row owner expires = rw e at (h.at_work u) in
          let (old, here, named, lock, body, mine, read) = held before in
          unheld old here (was old here) u owner expires miss e before

      go :
          (a : Bool × Option LockRow)
          → save_if_revision row expected w.row ≡ a
          → Outcome row expected w.row a
          → IsSafe (put iso ttl row applied refused t a w)
      go (false, after) e stays =
          rw stays
            (IsSafe-task w h t refused refused_ok (λ r q. rw k (o2 r q)) (λ r q. rw k (c2 r q)))
      go (true, after) e (new, put_new, name, body, was) =
          rw (put_new, ← name)
            (IsSafe-step w h t applied (some new) w.used (new.revision ∷ w.stored)
              (record {
                known = rw (==_refl new.revision) refl;
                active_owner = λ lock b active. name ∙ own lock (sym body ∙ b) active;
              })
              (applied_ok (new.revision ∷ w.stored) (some new))
              (λ u miss ok_u.
                IsTask-written w.now w.stored w.row new (rw name fresh) (w.tasks u)
                  (λ q claim. rw name (apart_from task row.revision k mine u miss q claim))
                  (λ owner expires e'. held_off new was u miss owner expires e') ok_u)
              (λ r q. inl (rw k (o1 r q))) (λ r q. inl (rw k (c1 r q)))
              (λ r q. h.owners.known t r (rw k (o1 r q)))
              (λ r q. h.claims.known t r (rw k (c1 r q))) (λ r q. q)
              (λ r q. grown r (rw (← name) q)))

  IsAttempt-task :
      (owner : Text) (expected : Option Text) (row : LockRow)
      → w.tasks t ≡ attempting owner expected row
      → IsAttempt w.now w.stored w.row owner expected row
  IsAttempt-task owner expected row k = task_at iso ttl w h t (attempting owner expected row) k

  pub writes-IsSafe :
      (owner : Text) (expected : Option Text) (row : LockRow)
      → w.tasks t ≡ attempting owner expected row
      → IsSafe (
          put iso ttl row (written owner) (waiting owner) t (save_if_revision row expected w.row) w)
  writes-IsSafe owner expected row k =
      let a = IsAttempt-task owner expected row k in
      put-IsSafe row expected (attempting owner expected row) (written owner) (waiting owner) k
        (rw a.named refl) (rw a.named a.new)
        (λ old here was u other expires miss e before.
          let held : IsHeld w.now w.stored w.row other expires = rw e at (h.at_work u) in
          let (old', here', named, lock, body, mine, read) = held before in
          let one : old' ≡ old = ground arith in
          let over = a.over old here was lock (rw one at body) in
          let active = active_of lock w.now expires read before in cc)
        (λ lock body active. rw (a.named, a.owned lock body) refl) (λ stored current. tt) a.new
        (λ r e. e) (λ r e. absurd cc) (λ r e. e) (λ r e. e)

  IsRelease-task :
      (owner expected : Text) (row : LockRow)
      → w.tasks t ≡ releasing owner expected row
      → IsRelease w.now w.stored w.row owner expected row
  IsRelease-task owner expected row k = task_at iso ttl w h t (releasing owner expected row) k

  pub frees-IsSafe :
      (owner expected : Text) (row : LockRow)
      → w.tasks t ≡ releasing owner expected row
      → IsSafe (put iso ttl row idle idle t (save_if_revision row (some expected) w.row) w)
  frees-IsSafe owner expected row k =
      let a = IsRelease-task owner expected row k in
      put-IsSafe row (some expected) (releasing owner expected row) idle idle k refl a.new
        (λ old here was u other expires miss e before.
          let held : IsHeld w.now w.stored w.row other expires = rw e at (h.at_work u) in
          let (old', here', named, lock, body, mine, read) = held before in
          let one : old' ≡ old = ground arith in
          let same : old.revision ≡ expected = ground arith in
          let own = a.own old lock here same (rw one at body) in
          let both : other ≡ owner = sym mine ∙ own in
          let first : owner_of (w.tasks t) ≡ some owner = rw k refl in
          let second : owner_of (w.tasks u) ≡ some owner = rw (e, both) refl in
          let met = h.owners.unique t u owner first second in cc)
        (λ lock body active. let over = a.over lock body in absurd cc) (λ stored current. tt) tt
        (λ r e. absurd cc) (λ r e. absurd cc) (λ r e. absurd cc) (λ r e. absurd cc)
