-- ===== src/Pipeline/Lease/Names.antt =====
-- PersistentNativePipelineStore.ts: the lease. No two requests have the same name.
use bbmcp.Prelude.{
  ℕ, ◌≡◌, ◌⊎◌, inl, inr, List, true, false, Option, none, some, arith, nat_eq, Bool-cases,
}
use bbmcp.Prelude.Text.{Text, includes}
use bbmcp.Pipeline.Durable.{update}
use bbmcp.Pipeline.Lease.{Task, idle, waiting, attempting, written, holding, releasing}

abbrev pub owner_of : Task → Option Text
owner_of idle = none
owner_of (waiting owner) = some owner
owner_of (attempting owner expected row) = some owner
owner_of (written owner) = some owner
owner_of (holding owner expires) = some owner
owner_of (releasing owner expected row) = some owner

-- The revision that a request may still put on the row.
abbrev pub claim_of : Task → Option Text
claim_of idle = none
claim_of (waiting owner) = some owner
claim_of (attempting owner expected row) = some owner
claim_of (written owner) = none
claim_of (holding owner expires) = none
claim_of (releasing owner expected row) = some row.revision

module _ (name : Task → Option Text) where
  pub record IsNaming (used : List Text) (tasks : ℕ → Task) : Type 0 where
    pub known : (t : ℕ) (r : Text) → name (tasks t) ≡ some r → includes used r ≡ true
    pub unique :
        (t u : ℕ) (r : Text) → name (tasks t) ≡ some r → name (tasks u) ≡ some r → nat_eq t u ≡ true

  -- A name that a request keeps, or that has not come up before.
  abbrev pub Follows : List Text → Task → Task → Type 0
  Follows used old new =
      (r : Text) → name new ≡ some r → (name old ≡ some r) ⊎ (includes used r ≡ false)

  module _ (used used' : List Text) (tasks : ℕ → Task) (t : ℕ) (new : Task)
      (h : IsNaming used tasks) (follows : Follows used (tasks t) new) where
    not_of_other :
        (u : ℕ) (r : Text) → nat_eq t u ≡ false → name new ≡ some r → name (tasks u) ≡ some r → ⊥
    not_of_other u r miss e k = elim (follows r e) [
      | inl was ↦ let same = h.unique t u r was k in cc
      | inr fresh ↦ let old = h.known u r k in cc
    ]

    pub IsNaming-update :
        ((r : Text) → name new ≡ some r → includes used' r ≡ true)
        → ((r : Text) → includes used r ≡ true → includes used' r ≡ true)
        → IsNaming used' (update t new tasks)
    IsNaming-update kept more = record {
      known = λ u r e. elim (Bool-cases (nat_eq t u)) [
        | inl hit ↦ kept r (rw hit at e)
        | inr miss ↦ more r (h.known u r (rw miss at e))
      ];
      unique = λ u v r e k. elim (Bool-cases (nat_eq t u)) [
        | inl hit ↦ elim (Bool-cases (nat_eq t v)) [
          | inl hit' ↦ ground arith
          | inr miss' ↦ absurd (not_of_other v r miss' (rw hit at e) (rw miss' at k))
        ]
        | inr miss ↦ elim (Bool-cases (nat_eq t v)) [
          | inl hit' ↦ absurd (not_of_other u r miss (rw hit' at k) (rw miss at e))
          | inr miss' ↦ h.unique u v r (rw miss at e) (rw miss' at k)
        ]
      ];
    }
