-- ===== src/Pipeline/State/Throwing.antt =====
-- An operation that throws leaves the state that it has reached; otherwise it goes on.
use bbmcp.Prelude.{◌≡◌, refl, ◌⊎◌, inl, inr}
use bbmcp.Pipeline.Model.{Error, Result, ok, throw}
use bbmcp.Pipeline.State.{State}

pub or_throw {ℓ κ} :
    {A : Type ℓ} {B : Type κ} (P : State → Type 0) (r : Result A) (s : State)
    (go : A → Result B × State)
    → P s
    → ((a : A) → P (go a).1)
    → P (elim r as (λ _. Result B × State) [ throw e ↦ (throw e, s) | ok a ↦ go a ]).1
or_throw P (throw e) s go h k = h
or_throw P (ok a) s go h k = k a

pub Result-cases {ℓ} :
    {A : Type ℓ} (r : Result A) → ((e : Error) × (r ≡ throw e)) ⊎ ((a : A) × (r ≡ ok a))
Result-cases (throw e) = inl (e, refl)
Result-cases (ok a) = inr (a, refl)
