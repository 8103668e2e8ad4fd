-- ===== src/Prelude/Text.antt =====
-- JavaScript strings as lists of UTF-16 code units, with the methods that the sources call.
use Prim.Native.Char.{code}
use Prim.Native.Nat.{ℕ}
use Prim.Native.String.{String}
use mathlib.Core.Path.{◌≡◌, refl}
use mathlib.Core.Logic.{◌↔◌}
use mathlib.Core.Bool.{Bool, true, false, ◌&&◌, ◌||◌}
use mathlib.Core.List.{List, [], ◌∷◌, ◌++◌, reverse}
use native.Mathlib.Omega.{arith}
use bbmcp.Prelude.Tests.{leb, nat_eq, if◌then◌else◌}

abbrev pub Text : Type 0
Text = List ℕ

-- A literal of the source: all of them are ASCII, one code unit for a character.
abbrev pub text : String → Text
text String.[] = []
text (String.◌∷◌ c s) = code c ∷ text s

-- `s === t`.
infix 50 ◌==◌
unfoldable pub ◌==◌ : Text → Text → Bool
[] == [] = true
[] == (d ∷ t) = false
(c ∷ s) == [] = false
(c ∷ s) == (d ∷ t) = nat_eq c d && (s == t)

pub ==_refl : (s : Text) → (s == s) ≡ true
unfolding ◌==◌
==_refl [] = refl
==_refl (c ∷ s) = ground (arith, ==_refl s)

pub eq_of_== : (s t : Text) → (s == t) ≡ true → s ≡ t
unfolding ◌==◌
eq_of_== [] [] h = refl
eq_of_== [] (d ∷ t) h = cc
eq_of_== (c ∷ s) [] h = cc
eq_of_== (c ∷ s) (d ∷ t) h = ground (arith, eq_of_== s t)

pub ==_iff : (s t : Text) → ((s == t) ≡ true) ↔ (s ≡ t)
==_iff s t = (eq_of_== s t, λ e. rw e (==_refl t))

-- `s.length === 0`, and the test of a string in a condition, which is false for "" alone.
abbrev pub is_empty : Text → Bool
is_empty [] = true
is_empty (c ∷ s) = false

-- The white space and line terminators that `trim` removes.
unfoldable pub is_space : ℕ → Bool
is_space c =
    (leb 9 c && leb c 13)
    || nat_eq c 32
    || nat_eq c 160
    || nat_eq c 5760
    || (leb 8192 c && leb c 8202)
    || nat_eq c 8232
    || nat_eq c 8233
    || nat_eq c 8239
    || nat_eq c 8287
    || nat_eq c 12288
    || nat_eq c 65279

unfoldable pub trim_start : Text → Text
unfolding is_space
trim_start [] = []
trim_start (c ∷ s) = if is_space c then trim_start s else c ∷ s

-- `s.trim()`.
unfoldable pub trim : Text → Text
unfolding trim_start
trim s = reverse (trim_start (reverse (trim_start s)))

-- `list.includes(s)`.
unfoldable pub includes : List Text → Text → Bool
includes [] s = false
includes (t ∷ ts) s = t == s || includes ts s

-- No text stands twice in the list.
abbrev pub Once : List Text → Type 0
Once [] = Unit {0}
Once (t ∷ ts) = (includes ts t ≡ false) × Once ts

pub includes-append :
    (xs : List Text) (y s : Text) → includes (xs ++ y ∷ []) s ≡ (includes xs s || y == s)
unfolding includes
includes-append [] y s = ground arith
includes-append (x ∷ xs) y s = ground (arith, includes-append xs y s)

pub Once-append :
    (xs : List Text) (y : Text) → Once xs → includes xs y ≡ false → Once (xs ++ y ∷ [])
unfolding includes
Once-append [] y o h = (refl, tt)
Once-append (x ∷ xs) y (fresh, o) h =
    ground (arith, ==_iff x y, ==_iff y x, includes-append xs y x, Once-append xs y o)
