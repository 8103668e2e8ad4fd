-- ===== src/Pipeline/State/Ids.antt =====
-- state.ts: the identifiers of jobs and the numbers in them.
use bbmcp.Prelude.{
  ℕ, zero, suc, ◌+◌, ◌-◌, ◌*◌, ◌/◌, ◌%◌, ◌<◌, ◌≡◌, refl, sym, ap, ◌∙◌, [], ◌∷◌, ◌++◌, false, arith,
  length, drop, ltb, Bool-cases, inl, inr,
}
use bbmcp.Prelude.Text.{Text, is_empty}
use bbmcp.Pipeline.State.{digits, decimal, replicate, pad_start_6, job_id}

-- The number that a text of digits stands for, read on from `n`.
value_from : ℕ → Text → ℕ
value_from n [] = n
value_from n (c ∷ s) = value_from (n * 10 + (c - 48)) s

value_from-digits :
    (fuel n : ℕ) (behind : Text)
    → n < fuel
    → value_from 0 (digits fuel n behind) ≡ value_from n behind
unfolding value_from digits
value_from-digits zero n behind h = elim h [ ]
value_from-digits (suc fuel) n behind h = elim (Bool-cases (ltb n 10)) [
  | inl small ↦ rw small (ap (λ m. value_from m behind) (omega arith))
  | inr big ↦ rw big (
      value_from-digits fuel (n / 10) ((48 + n % 10) ∷ behind) (ground arith)
      ∙ ap (λ m. value_from m behind) (omega arith))
]

value_from-decimal : (n : ℕ) → value_from 0 (decimal n) ≡ n
unfolding decimal value_from
value_from-decimal n = value_from-digits (suc n) n [] (omega arith)

value_from-replicate : (k : ℕ) (s : Text) → value_from 0 (replicate k b'0' ++ s) ≡ value_from 0 s
unfolding value_from
value_from-replicate zero s = refl
value_from-replicate (suc k) s = value_from-replicate k s

value_from-pad_start_6 : (s : Text) → value_from 0 (pad_start_6 s) ≡ value_from 0 s
unfolding pad_start_6
value_from-pad_start_6 s = value_from-replicate (6 - length s) s

-- The number of a job can be read back from its identifier.
pub number_of : Text → ℕ
unfolding value_from
number_of id = value_from 0 (drop 4 id)

pub number_of-job_id : (n : ℕ) → number_of (job_id n) ≡ n
unfolding number_of job_id
number_of-job_id n = value_from-pad_start_6 (decimal n) ∙ value_from-decimal n

-- Different numbers give different job identifiers, also beyond the six digits that are padded.
pub job_id-injective : (m n : ℕ) → job_id m ≡ job_id n → m ≡ n
job_id-injective m n h = sym (number_of-job_id m) ∙ ap number_of h ∙ number_of-job_id n

pub is_empty-job_id : (n : ℕ) → is_empty (job_id n) ≡ false
unfolding job_id
is_empty-job_id n = refl
