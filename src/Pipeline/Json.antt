-- ===== src/Pipeline/Json.antt =====
-- The values of type `unknown` that the sources take apart.
use bbmcp.Prelude.{
  ℕ, zero, suc, List, [], ◌∷◌, Bool, true, false, Option, none, some, if◌then◌else◌,
}
use bbmcp.Prelude.Text.{Text, ◌==◌, trim, is_empty, includes}
use bbmcp.Prelude.Number.{Number, ℤ, finite, signed}
use bbmcp.Pipeline.Model.{Result, ok, throw, ◌>>=◌, job_contract}

mutual
  pub data Json : Type 0 where
    undefined null : Json
    bool : Bool → Json
    number : Number → Json
    string : Text → Json
    array : Items → Json
    object : Fields → Json

  pub data Items : Type 0 where
    nil : Items
    cons : Json → Items → Items

  pub data Fields : Type 0 where
    end : Fields
    field : Text → Json → Fields → Fields

-- `record.key`, `undefined` where there is no such field.
unfoldable pub member : Text → Fields → Json
member k end = undefined
member k (field j v fs) = if j == k then v else member k fs

-- No key of the object is outside the list.
unfoldable pub only_keys : List Text → Fields → Bool
only_keys allowed end = true
only_keys allowed (field k v fs) = if includes allowed k then only_keys allowed fs else false

-- The readers below check the form of a value and hand it over, or throw.
unfoldable pub as_object : Json → Result Fields
as_object (object fs) = ok fs
as_object _ = throw job_contract

unfoldable pub as_array : Json → Result Items
as_array (array xs) = ok xs
as_array _ = throw job_contract

unfoldable pub as_bool : Json → Result Bool
as_bool (bool b) = ok b
as_bool _ = throw job_contract

unfoldable pub as_text : Json → Result Text
as_text (string s) = ok s
as_text _ = throw job_contract

unfoldable pub as_non_empty : Json → Result Text
as_non_empty (string s) = if is_empty (trim s) then throw job_contract else ok s
as_non_empty _ = throw job_contract

unfoldable pub as_finite : Json → Result Number
as_finite (number (finite negative whole part)) = ok (finite negative whole part)
as_finite _ = throw job_contract

-- `value < 0` throws; the sign of a zero does not count.
unfoldable pub as_non_negative : Json → Result Number
as_non_negative (number (finite false whole part)) = ok (finite false whole part)
as_non_negative (number (finite true zero zero)) = ok (finite true zero zero)
as_non_negative _ = throw job_contract

unfoldable pub as_integer : Json → Result ℤ
as_integer (number (finite negative whole zero)) = ok (signed negative whole)
as_integer _ = throw job_contract

unfoldable pub as_positive : Json → Result ℕ
as_positive (number (finite false (suc n) zero)) = ok (suc n)
as_positive _ = throw job_contract

unfoldable pub as_count : Json → Result ℕ
as_count (number (finite false n zero)) = ok n
as_count (number (finite true zero zero)) = ok zero
as_count _ = throw job_contract

-- `if (value !== undefined) { …; normalized.key = value }`.
unfoldable pub optional {ℓ} : {A : Type ℓ} → (Json → Result A) → Json → Result (Option A)
optional read undefined = ok none
optional read v = do a ← read v; ok (some a)

unfoldable pub each {ℓ} : {A : Type ℓ} → (Json → Result A) → Items → Result (List A)
each read nil = ok []
each read (cons v vs) = do a ← read v; rest ← each read vs; ok (a ∷ rest)

unfoldable pub array_of {ℓ} : {A : Type ℓ} → (Json → Result A) → Json → Result (List A)
unfolding as_array each
array_of read v = do xs ← as_array v; each read xs
