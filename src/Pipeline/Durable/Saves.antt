-- ===== src/Pipeline/Durable/Saves.antt =====
-- PersistentNativePipelineStore.ts: a save, as the repository takes or refuses it.
use bbmcp.Prelude.{
  ℕ, ◌≡◌, refl, ap, sym, ◌∙◌, ◌⊎◌, inl, inr, Bool, true, false, Option, none, some, if◌then◌else◌,
  Bool-cases,
}
use bbmcp.Prelude.Text.{Text, ◌==◌, eq_of_==}
use bbmcp.Pipeline.Rows.{Row, save_if_revision}
use bbmcp.Pipeline.Durable.{
  Codec, Cached, update, Task, idle, ready, World, save_record, finish_save,
}
use bbmcp.Pipeline.Durable.Chain.{Extends}
use bbmcp.Pipeline.Durable.Keeps.{
  Collisionless, revision_of_option, Sealed, SealedRow, IsCache, IsSaving, IsTask, IsGood, Good,
  set_task-Good, set_cache-Good,
}

module _ (c : Codec) (collisionless : Collisionless c) where
  -- A save that the repository takes puts a row that extends the one before; one that it refuses
  -- leaves the row.
  abbrev Saved : Option (Row c.Stored) → Row c.Stored → Bool × Option (Row c.Stored) → Type 0
  Saved old row (false, after) = after ≡ old
  Saved old row (true, after) =
      (new : Row c.Stored) × (after ≡ some new) × Sealed c new × Extends c old new

  base_of : (base : Option c.Stored) → none ≡ revision_of_option c base → base ≡ none
  base_of none e = refl
  base_of (some d) e = cc

  base_at :
      (base : Option c.Stored) (old : Row c.Stored)
      → Sealed c old
      → some old.revision ≡ revision_of_option c base
      → base ≡ some old.body
  base_at none old sealed e = cc
  base_at (some d) old sealed e =
      let revised : old.revision ≡ c.revision_of d = cc in
      ap some (collisionless d old.body (sym revised ∙ sealed))

  save_if_revision-Saved :
      (objects : ℕ → c.Held) (next o : ℕ) (row : Row c.Stored) (expected : Option Text)
      (old : Option (Row c.Stored))
      → SealedRow c old
      → IsSaving c objects next o expected row
      → Saved old row (save_if_revision row expected old)
  unfolding save_if_revision
  save_if_revision-Saved objects next o row none none sealed h = (
    row,
    refl,
    h.sealed,
    record {
      state = h.state;
      from = rw (base_of h.base h.expects) at h.extends;
      written = h.written;
    },
  )
  save_if_revision-Saved objects next o row none (some old) sealed h = refl
  save_if_revision-Saved objects next o row (some expected) none sealed h = refl
  save_if_revision-Saved objects next o row (some expected) (some old) sealed h =
      elim (Bool-cases (old.revision == expected)) [
        | inl hit ↦
            let key : old.revision ≡ expected = eq_of_== old.revision expected hit in
            let base : h.base ≡ some old.body =
              base_at h.base old sealed (ap some key ∙ h.expects) in
            rw hit (
              record row { created_at = old.created_at },
              refl,
              h.sealed,
              record { state = h.state; from = rw base at h.extends; written = h.written },
            )
        | inr miss ↦ rw miss refl
      ]

  -- The row stays, or is replaced by one that extends it.
  abbrev pub Commit : Option (Row c.Stored) → Option (Row c.Stored) → Type 0
  Commit old after = (after ≡ old) ⊎ ((new : Row c.Stored) × (after ≡ some new) × Extends c old new)

  abbrev pub Advanced : World c → World c → Type 0
  Advanced w v = Good c v × Commit w.row v.row

  finished-Good :
      (t p : ℕ) (task : Task c) (cached : Option Cached) (row : Option (Row c.Stored)) (w : World c)
      → Good c w
      → SealedRow c row
      → ((x : Cached) → cached ≡ some x → IsCache c w.objects w.next_object x)
      → IsTask c w.objects w.next_object task
      → IsGood c w.objects w.next_object row (update p cached w.caches) (update t task w.tasks)
  finished-Good t p task cached row w h sealed cache at_work =
      let w1 = record w { row = row } in
      let h1 : Good c w1 = record { sealed = sealed; cached = h.cached; at_work = h.at_work } in
      set_task-Good c t task (record w1 { caches = update p cached w.caches }) at_work
        (set_cache-Good c p cached w1 cache h1)

  pub finish_save-Advanced :
      (t p o : ℕ) (expected : Option Text) (row : Row c.Stored) (reading : Bool) (w : World c)
      → Good c w
      → IsSaving c w.objects w.next_object o expected row
      → Advanced w (finish_save c true t p o expected row reading w)
  unfolding finish_save save_record
  finish_save-Advanced t p o expected row reading w h saving_now =
      go (save_if_revision row expected w.row) refl
        (save_if_revision-Saved w.objects w.next_object o row expected w.row h.sealed saving_now)
    where
      reader : (b : Bool) → IsTask c w.objects w.next_object (if b then ready o else idle)
      reader true = saving_now.old
      reader false = tt

      go :
          (r : Bool × Option (Row c.Stored))
          → save_if_revision row expected w.row ≡ r
          → Saved w.row row r
          → Advanced w (finish_save c true t p o expected row reading w)
      go (false, after) e stays =
          rw (finish_save, e)
            (finished-Good t p idle none after w h (rw stays h.sealed) (λ x k. cc) tt, inl stays)
      go (true, after) e (new, put, sealed, extends) =
          rw (finish_save, e)
            (
              finished-Good t p (if reading then ready o else idle)
                  (some (record { revision = row.revision; object = o })) after w h (rw put sealed)
                  (λ x k.
                    let same_one : record { revision = row.revision; object = o } ≡ x = cc in
                    rw (← same_one) (record {
                      stored = row.body;
                      revised = saving_now.sealed;
                      from = saving_now.held;
                      old = saving_now.old;
                    }))
                  (reader reading),
              inr (new, put, extends),
            )
