-- ===== src/Prelude/Dict.antt =====
-- `Map<string, V>` as a list of entries in the order of their insertion.
use mathlib.Core.Path.{◌≡◌, refl}
use mathlib.Core.Bool.{Bool, false}
use mathlib.Core.List.{List, [], ◌∷◌}
use mathlib.Core.Option.{Option, none, some}
use native.Mathlib.Omega.{arith}
use bbmcp.Prelude.Tests.{if◌then◌else◌, is_some}
use bbmcp.Prelude.Lists.{All}
use bbmcp.Prelude.Text.{Text, ◌==◌, ==_iff, ==_refl}

abbrev pub Dict {ℓ} : Type ℓ → Type ℓ
Dict V = List (Text × V)

module _ {ℓ} {V : Type ℓ} where
  unfoldable pub get : Text → Dict V → Option V
  get k [] = none
  get k ((j, v) ∷ m) = if j == k then some v else get k m

  unfoldable pub has : Text → Dict V → Bool
  unfolding get
  has k m = is_some (get k m)

  -- An entry that exists keeps its place.
  unfoldable pub set : Text → V → Dict V → Dict V
  set k v [] = (k, v) ∷ []
  set k v ((j, w) ∷ m) = if j == k then (j, v) ∷ m else (j, w) ∷ set k v m

  unfoldable pub delete : Text → Dict V → Dict V
  delete k [] = []
  delete k ((j, w) ∷ m) = let rest = delete k m in if j == k then rest else (j, w) ∷ rest

  pub get-set :
      (k j : Text) (v : V) (m : Dict V) → get j (set k v m) ≡ (if k == j then some v else get j m)
  unfolding get set
  get-set k j v [] = refl
  get-set k j v ((i, w) ∷ m) = ground (arith, ==_iff k j, ==_iff i k, ==_iff i j, get-set k j v m)

  pub get-delete :
      (k j : Text) (m : Dict V) → get j (delete k m) ≡ (if k == j then none else get j m)
  unfolding get delete
  get-delete k j [] = ground arith
  get-delete k j ((i, w) ∷ m) = ground (arith, ==_iff k j, ==_iff i k, ==_iff i j, get-delete k j m)

  -- A `Map` holds a key once.
  abbrev pub UniqueKeys : Dict V → Type ℓ
  UniqueKeys [] = Unit
  UniqueKeys ((k, v) ∷ m) = (get k m ≡ none) × UniqueKeys m

  pub set-UniqueKeys : (k : Text) (v : V) (m : Dict V) → UniqueKeys m → UniqueKeys (set k v m)
  unfolding set get
  set-UniqueKeys k v [] u = (refl, tt)
  set-UniqueKeys k v ((j, w) ∷ m) (fresh, u) =
      ground (arith, ==_iff j k, ==_iff k j, get-set k j v m, set-UniqueKeys k v m u)

  pub delete-UniqueKeys : (k : Text) (m : Dict V) → UniqueKeys m → UniqueKeys (delete k m)
  unfolding delete
  delete-UniqueKeys k [] u = tt
  delete-UniqueKeys k ((j, w) ∷ m) (fresh, u) =
      ground (arith, get-delete k j m, delete-UniqueKeys k m u)

  pub get-set_self : (k : Text) (v : V) (m : Dict V) → get k (set k v m) ≡ some v
  get-set_self k v m = rw (get-set k k v m, ==_refl k)

  pub get-set_other :
      (k j : Text) (v : V) (m : Dict V) → (k == j) ≡ false → get j (set k v m) ≡ get j m
  get-set_other k j v m h = rw (get-set k j v m, h)

  pub get-delete_self : (k : Text) (m : Dict V) → get k (delete k m) ≡ none
  get-delete_self k m = rw (get-delete k k m, ==_refl k)

  -- With its keys distinct, a map may be read entry by entry.
  pub All-of_get {κ} :
      (P : Text → V → Type κ) (m : Dict V)
      → UniqueKeys m
      → ((k : Text) (v : V) → get k m ≡ some v → P k v)
      → All (λ (e : Text × V). P e.0 e.1) m
  unfolding get
  All-of_get P [] u h = tt
  All-of_get P ((k, v) ∷ m) (fresh, u) h =
      (h k v (rw (==_refl k) refl), All-of_get P m u (λ j w e. h j w (ground (arith, ==_iff k j))))
