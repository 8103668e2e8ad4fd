-- ===== src/Pipeline/Lease/Writing.antt =====
-- PersistentNativePipelineStore.ts: the lease. A write that the repository takes, seen by the others.
use bbmcp.Prelude.{
  ℕ, ◌<◌, ◌≡◌, refl, List, ◌∷◌, Bool, true, false, Option, none, some, arith, Bool-cases, inl, inr,
}
use bbmcp.Prelude.Text.{Text, ◌==◌, eq_of_==, includes}
use bbmcp.Pipeline.Rows.{save_if_revision}
use bbmcp.Pipeline.Lease.{LockRow, Task, idle, waiting, attempting, written, holding, releasing}
use bbmcp.Pipeline.Lease.Names.{claim_of}
use bbmcp.Pipeline.Lease.Safe.{IsTask}

-- A write is refused and changes nothing, or it is taken and the row was the expected one, if any.
abbrev pub Outcome : LockRow → Option Text → Option LockRow → Bool × Option LockRow → Type 0
Outcome row expected current (false, after) = after ≡ current
Outcome row expected current (true, after) =
    (new : LockRow) × (after ≡ some new)
    × (new.revision ≡ row.revision)
    × (new.body ≡ row.body)
    × ((old : LockRow) → current ≡ some old → expected ≡ some old.revision)

pub save_if_revision-Outcome :
    (row : LockRow) (expected : Option Text) (current : Option LockRow)
    → Outcome row expected current (save_if_revision row expected current)
unfolding save_if_revision
save_if_revision-Outcome row none none = (row, refl, refl, refl, λ old e. absurd cc)
save_if_revision-Outcome row none (some old) = refl
save_if_revision-Outcome row (some r) none = refl
save_if_revision-Outcome row (some r) (some old) = elim (Bool-cases (old.revision == r)) [
  | inl hit ↦
      let same : old.revision ≡ r = eq_of_== old.revision r hit in
      rw hit (
        record row { created_at = old.created_at },
        refl,
        refl,
        refl,
        λ old' e. let one : old ≡ old' = ground arith in rw (← one, same) refl,
      )
  | inr miss ↦ rw miss refl
]

module _ (now : ℕ) (stored : List Text) (current : Option LockRow) (new : LockRow)
    (fresh : includes stored new.revision ≡ false) where
  abbrev Apart : Task → Type 0
  Apart task = (r : Text) → claim_of task ≡ some r → (new.revision == r) ≡ false

  -- A request other than the writer's, which holds no lease that has not run out.
  pub IsTask-written :
      (task : Task)
      → Apart task
      → ((owner : Text) (expires : ℕ) → task ≡ holding owner expires → ¬ (now < expires))
      → IsTask now stored current task
      → IsTask now (new.revision ∷ stored) (some new) task
  unfolding includes
  IsTask-written idle apart unheld h = tt
  IsTask-written (written owner) apart unheld h = tt
  IsTask-written (waiting owner) apart unheld h = let miss = apart owner refl in ground arith
  IsTask-written (holding owner expires) apart unheld h =
      λ before. absurd (unheld owner expires refl before)
  IsTask-written (attempting owner expected row) apart unheld h = record {
    new = (let miss = apart owner refl in let old = h.new in ground arith);
    named = h.named;
    owned = h.owned;
    seen = λ r e. let old = h.seen r e in rw old (ground arith);
    over = λ old here e.
        let one : new ≡ old = ground arith in
        let again = h.seen old.revision e in
        let missing : includes stored old.revision ≡ false = rw one at fresh in absurd cc;
  }
  IsTask-written (releasing owner expected row) apart unheld h = record {
    new = (let miss = apart row.revision refl in let old = h.new in ground arith);
    seen = (let old = h.seen in rw old (ground arith));
    over = h.over;
    own = λ old lock here same body.
        let one : new ≡ old = ground arith in
        let missing : includes stored old.revision ≡ false = rw one at fresh in
        let missing' : includes stored expected ≡ false = rw same at missing in
        let again = h.seen in absurd cc;
  }
