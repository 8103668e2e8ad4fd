-- ===== src/Pipeline/Lease/Keeping.antt =====
-- PersistentNativePipelineStore.ts: the lease. A request confirms its lease, and leaves it.
use bbmcp.Prelude.{
  ℕ, ◌≡◌, refl, ◌∙◌, ◌∷◌, true, false, Option, none, some, arith, Bool-cases, Option-cases, inl,
  inr,
}
use bbmcp.Prelude.Text.{Text, ◌==◌, eq_of_==, ==_refl, includes}
use bbmcp.Pipeline.Model.{stamp, parse_date}
use bbmcp.Pipeline.Durable.{update}
use bbmcp.Pipeline.Lease.{
  LockState, LockRow, is_lock_active, lock_in, confirmed_until, released_row, idle, written,
  holding, releasing, World, set_task, confirm, leave_row,
}
use bbmcp.Pipeline.Lease.Safe.{IsStored, IsHeld, IsSafe, IsSafe-step, IsSafe-task}

module _ (iso : ℕ → Text) (ttl : ℕ) (w : World) (h : IsSafe w) (t : ℕ) where
  IsHeld-confirmed :
      (owner : Text) (expires : ℕ) (o : Option LockState)
      → lock_in w.row ≡ o
      → confirmed_until owner o w.now ≡ some expires
      → IsHeld w.now w.stored w.row owner expires
  unfolding confirmed_until
  IsHeld-confirmed owner expires none inside e before = absurd cc
  IsHeld-confirmed owner expires (some lock) inside e before = elim (Option-cases w.row) [
    | inl absent ↦ let missing : none ≡ some lock = rw absent at inside in absurd cc
    | inr (row, here) ↦
        let stored : IsStored w.now w.stored (some row) = rw here at h.row in
        let body : row.body ≡ some lock = rw here at inside in
        let hit : (lock.owner == owner) ≡ true = ground arith in
        let active : is_lock_active lock w.now ≡ true = ground arith in
        let mine : lock.owner ≡ owner = eq_of_== lock.owner owner hit in
        let read : parse_date lock.expires_at ≡ some expires = ground arith in
        (row, here, stored.active_owner lock body active ∙ mine, lock, body, mine, read)
  ]

  pub confirm-IsSafe :
      (owner : Text) (expires : ℕ)
      → w.tasks t ≡ written owner
      → confirmed_until owner (lock_in w.row) w.now ≡ some expires
      → IsSafe (confirm iso ttl t owner w)
  unfolding confirm
  confirm-IsSafe owner expires k e =
      rw (confirm, e)
        (IsSafe-task w h t (holding owner expires)
          (IsHeld-confirmed owner expires (lock_in w.row) refl e) (λ r q. rw k q)
          (λ r q. absurd cc))

  pub idle-IsSafe : IsSafe (set_task t idle w)
  idle-IsSafe = IsSafe-task w h t idle tt (λ r q. absurd cc) (λ r q. absurd cc)

  releasing-IsSafe :
      (owner : Text) (expires : ℕ) (row : LockRow) (lock : LockState)
      → w.tasks t ≡ holding owner expires
      → w.row ≡ some row
      → row.body ≡ some lock
      → lock.owner ≡ owner
      → includes w.used (released_row iso owner row w.now).revision ≡ false
      → IsSafe (record w {
        tasks = update t (releasing owner row.revision (released_row iso owner row w.now)) w.tasks;
        used = (released_row iso owner row w.now).revision ∷ w.used;
      })
  unfolding includes is_lock_active
  releasing-IsSafe owner expires row lock k here body mine fresh =
      let released = released_row iso owner row w.now in
      let stored : IsStored w.now w.stored (some row) = rw here at h.row in
      IsSafe-step w h t (releasing owner row.revision released) w.row (released.revision ∷ w.used)
        w.stored h.row
        (record {
          new = not_stored;
          seen = stored.known;
          over = λ l b.
              let time : l.expires_at ≡ stamp w.now = ground arith in
              rw (is_lock_active, time) (ground arith);
          own = λ old l here' same b.
              let one : row ≡ old = ground arith in
              let b' : row.body ≡ some l = rw one b in
              let lock_same : lock ≡ l = ground arith in rw (← lock_same) mine;
        })
        (λ u miss q. q) (λ r q. inl (rw k q))
        (λ r q. let same : released.revision ≡ r = ground arith in inr (rw (← same) fresh))
        (λ r q. let old = h.owners.known t r (rw k q) in rw old (ground arith))
        (λ r q.
          let same : released.revision ≡ r = ground arith in
          rw (← same, ==_refl released.revision) refl)
        (λ r q. rw q (ground arith)) (λ r q. let old = h.grown r q in rw old (ground arith))
    where
      not_stored : includes w.stored (released_row iso owner row w.now).revision ≡ false
      not_stored =
          elim (Bool-cases (includes w.stored (released_row iso owner row w.now).revision)) [
            | inl was ↦ let old = h.grown _ was in absurd cc
            | inr unknown ↦ unknown
          ]

  pub leave_row-IsSafe :
      (owner : Text) (expires : ℕ) (current : Option LockRow)
      → w.tasks t ≡ holding owner expires
      → w.row ≡ current
      → ((row : LockRow)
          → w.row ≡ some row
          → includes w.used (released_row iso owner row w.now).revision ≡ false)
      → IsSafe (leave_row iso ttl t owner current w)
  leave_row-IsSafe owner expires none k here fresh = idle-IsSafe
  leave_row-IsSafe owner expires (some row) k here fresh = elim (Option-cases row.body) [
    | inl refused ↦ rw (leave_row, refused) idle-IsSafe
    | inr (lock, body) ↦ elim (Bool-cases (lock.owner == owner)) [
      | inr other ↦ rw (leave_row, body, other) idle-IsSafe
      | inl mine ↦
          rw (leave_row, body, mine)
            (releasing-IsSafe owner expires row lock k here body (eq_of_== lock.owner owner mine)
              (fresh row here))
    ]
  ]
