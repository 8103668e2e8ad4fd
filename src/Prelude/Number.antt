-- ===== src/Prelude/Number.antt =====
-- JavaScript numbers, as far as the sources look into them.
use Prim.Native.Nat.{ℕ, zero, suc, ◌≤◌}
use mathlib.Core.Bool.{Bool, true, false}
use mathlib.Core.Option.{Option, none, some}
use native.Mathlib.Omega.{arith}
use bbmcp.Prelude.Tests.{ltb, if◌then◌else◌}

-- `negsuc n` is -(n + 1).
pub data ℤ : Type 0 where
  pos : ℕ → ℤ
  negsuc : ℕ → ℤ

-- `finite negative whole part` has the sign `negative`, the whole part `whole`, and behind the
-- point something that `part` names; it is an integer where `part` is 0.
pub data Number : Type 0 where
  nan : Number
  infinite : Bool → Number
  finite : Bool → ℕ → ℕ → Number

abbrev pub whole_number : ℕ → Number
whole_number n = finite false n 0

-- `Math.trunc`, of a finite number.
abbrev pub signed : Bool → ℕ → ℤ
signed false n = pos n
signed true zero = pos 0
signed true (suc n) = negsuc n

-- `typeof value === 'number' && Number.isFinite(value)`, with `Math.trunc(value)` where it holds.
abbrev pub finite_trunc : Option Number → Option ℤ
finite_trunc none = none
finite_trunc (some nan) = none
finite_trunc (some (infinite negative)) = none
finite_trunc (some (finite negative whole part)) = some (signed negative whole)

-- An integer held between two bounds.
abbrev pub clamp_ℤ : ℤ → ℕ → ℕ → ℕ
clamp_ℤ (negsuc n) low high = low
clamp_ℤ (pos n) low high = if ltb n low then low else if ltb high n then high else n

abbrev pub clamp_or : Option ℤ → ℕ → ℕ → ℕ → ℕ
clamp_or none fallback low high = fallback
clamp_or (some z) fallback low high = clamp_ℤ z low high

-- The fallback lies within the bounds, and so does every result.
pub clamp_or_bounds :
    (z : Option ℤ) (fallback low high : ℕ)
    → low ≤ fallback
    → fallback ≤ high
    → (low ≤ clamp_or z fallback low high) × (clamp_or z fallback low high ≤ high)
clamp_or_bounds none fallback low high h k = (h, k)
clamp_or_bounds (some (pos n)) fallback low high h k = ground arith
clamp_or_bounds (some (negsuc n)) fallback low high h k = omega arith
