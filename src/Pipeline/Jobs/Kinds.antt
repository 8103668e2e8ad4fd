-- ===== src/Pipeline/Jobs/Kinds.antt =====
-- nativeJobContracts.ts: what the kind and the payload of a job are that are not refused.
use bbmcp.Prelude.{◌≡◌, refl, inl, inr, none, arith}
use bbmcp.Prelude.Text.{Text, text, trim, ==_iff}
use bbmcp.Pipeline.Model.{Error, ok, throw}
use bbmcp.Pipeline.Json.{Json, undefined, null, bool, number, string, array, object, as_non_empty}
use bbmcp.Pipeline.Contracts.{JobKind, gltf_convert, texture_preflight, JobBody, gltf, preflight}
use bbmcp.Pipeline.Contracts.Payload.{
  normalize_supported_native_job_kind, normalize_native_job_payload, normalize_gltf_convert_payload,
  normalize_texture_preflight_payload,
}
use bbmcp.Pipeline.State.Throwing.{Result-cases}

refuted {ℓ} : {A : Type ℓ} {a : A} {e : Error} → ¬ (throw e ≡ ok a)
refuted h = cc

ok-injective {ℓ} : {A : Type ℓ} {a b : A} → ok a ≡ ok b → a ≡ b
ok-injective h = cc

-- The kind has its name in the source, and stands before a payload of that kind and no result.
abbrev pub IsKind : JobKind → Text → JobBody → Type 0
IsKind gltf_convert name (gltf payload result) = (name ≡ text "gltf.convert") × (result ≡ none)
IsKind texture_preflight name (preflight payload result) =
    (name ≡ text "texture.preflight") × (result ≡ none)
IsKind _ name _ = ⊥

pub kind_name : JobKind → Text
kind_name gltf_convert = text "gltf.convert"
kind_name texture_preflight = text "texture.preflight"

-- A kind that is supported is a text with the kind's name in it.
pub supported_kind :
    (v : Json) (kind : JobKind)
    → normalize_supported_native_job_kind v ≡ ok kind
    → (asked : Text) × (v ≡ string asked) × (trim asked ≡ kind_name kind)
unfolding normalize_supported_native_job_kind as_non_empty kind_name
supported_kind (string asked) kind h = (
  asked,
  refl,
  ground (
    arith,
    ==_iff (trim asked) (text "gltf.convert"),
    ==_iff (trim asked) (text "texture.preflight"),
  ),
)
supported_kind undefined kind h = cc
supported_kind null kind h = cc
supported_kind (bool b) kind h = cc
supported_kind (number n) kind h = cc
supported_kind (array xs) kind h = cc
supported_kind (object fs) kind h = cc

pub payload-IsKind :
    (kind : JobKind) (payload : Json) (body : JobBody) (name : Text)
    → normalize_native_job_payload kind payload ≡ ok body
    → name ≡ kind_name kind
    → IsKind kind name body
unfolding normalize_native_job_payload kind_name
payload-IsKind gltf_convert payload body name h e =
    elim (Result-cases (normalize_gltf_convert_payload payload)) [
      | inl (x, thrown) ↦ absurd (refuted (rw thrown at h))
      | inr (p, taken) ↦
          let same : gltf p none ≡ body = ok-injective (rw taken at h) in rw (← same) (e, refl)
    ]
payload-IsKind texture_preflight payload body name h e =
    elim (Result-cases (normalize_texture_preflight_payload payload)) [
      | inl (x, thrown) ↦ absurd (refuted (rw thrown at h))
      | inr (p, taken) ↦
          let same : preflight p none ≡ body = ok-injective (rw taken at h) in rw (← same) (e, refl)
    ]
