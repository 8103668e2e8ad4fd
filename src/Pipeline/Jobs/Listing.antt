-- ===== src/Pipeline/Jobs/Listing.antt =====
-- jobRepository.ts: `listProjectJobs`. Whether a time comes after another in the order of
-- `localeCompare` is a parameter; `sort` is stable.
use bbmcp.Prelude.{
  ◌≡◌, refl, ◌⊎◌, inl, inr, ◌↔◌, List, [], ◌∷◌, Bool, true, false, if◌then◌else◌, arith, Bool-cases,
  some, none,
}
use bbmcp.Prelude.Text.{Text, ◌==◌, ==_refl, eq_of_==}
use bbmcp.Prelude.Dict.{Dict, get, UniqueKeys}
use bbmcp.Pipeline.Model.{Timestamp}
use bbmcp.Pipeline.State.{Job, State, clone_job}

-- The jobs that are in a list.
abbrev pub Among : Job → List Job → Type 0
Among x [] = ⊥
Among x (y ∷ ys) = (x ≡ y) ⊎ Among x ys

-- A clone of a job of the project in the table.
abbrev pub IsListed : Text → Dict Job → Job → Type 0
IsListed project_id jobs x =
    (id : Text) × (j : Job) × (get id jobs ≡ some j)
    × ((j.project_id == project_id) ≡ true)
    × (x ≡ clone_job j)

module _ (later : Timestamp → Timestamp → Bool) where
  unfoldable pub insert_job : Job → List Job → List Job
  insert_job j [] = j ∷ []
  insert_job j (k ∷ ks) =
      let rest = insert_job j ks in if later j.created_at k.created_at then k ∷ rest else j ∷ k ∷ ks

  -- The jobs of a project, sorted; the clones keep the times.
  unfoldable pub sort_jobs : Text → Dict Job → List Job
  unfolding insert_job clone_job
  sort_jobs project_id [] = []
  sort_jobs project_id ((id, j) ∷ jobs) =
      let rest = sort_jobs project_id jobs in
      if j.project_id == project_id then insert_job (clone_job j) rest else rest

  unfoldable pub list_project_jobs : State → Text → List Job
  unfolding sort_jobs
  list_project_jobs s project_id = sort_jobs project_id s.jobs

  abbrev FirstNotAfter : Job → List Job → Type 0
  FirstNotAfter j [] = Unit
  FirstNotAfter j (k ∷ ks) = later j.created_at k.created_at ≡ false

  -- No job comes after the next.
  abbrev pub IsSorted : List Job → Type 0
  IsSorted [] = Unit
  IsSorted (j ∷ js) = FirstNotAfter j js × IsSorted js

  Among-insert_job :
      (x j : Job) (ks : List Job) → Among x (insert_job j ks) ↔ ((x ≡ j) ⊎ Among x ks)
  unfolding insert_job
  Among-insert_job x j [] = (λ h. h, λ h. h)
  Among-insert_job x j (k ∷ ks) =
      let (there, back) = Among-insert_job x j ks in
      elim (Bool-cases (later j.created_at k.created_at)) [
        | inr no_later ↦ rw no_later (λ h. h, λ h. h)
        | inl after ↦ rw after (
          λ h. elim h [
            | inl here ↦ inr (inl here)
            | inr rest ↦ elim (there rest) [ inl new ↦ inl new | inr old ↦ inr (inr old) ]
          ],
          λ h. elim h [
            | inl new ↦ inr (back (inl new))
            | inr (inl here) ↦ inl here
            | inr (inr old) ↦ inr (back (inr old))
          ],
        )
      ]

  module _ (asymmetric : (a b : Timestamp) → later a b ≡ true → later b a ≡ false) where
    insert_job-IsSorted : (j : Job) (ks : List Job) → IsSorted ks → IsSorted (insert_job j ks)
    unfolding insert_job
    insert_job-IsSorted j [] h = (tt, tt)
    insert_job-IsSorted j (k ∷ ks) (first, h) =
        elim (Bool-cases (later j.created_at k.created_at)) [
          | inr before ↦ rw before (before, (first, h))
          | inl after ↦ rw after (
            next ks first (asymmetric j.created_at k.created_at after),
            insert_job-IsSorted j ks h,
          )
        ]
      where
        next :
            (ls : List Job)
            → FirstNotAfter k ls
            → later k.created_at j.created_at ≡ false
            → FirstNotAfter k (insert_job j ls)
        next [] f e = e
        next (l ∷ ls) f e = elim (Bool-cases (later j.created_at l.created_at)) [
          | inr before ↦ rw before e
          | inl after ↦ rw after f
        ]

    sort_jobs-IsSorted :
        (project_id : Text) (jobs : Dict Job) → IsSorted (sort_jobs project_id jobs)
    unfolding sort_jobs
    sort_jobs-IsSorted project_id [] = tt
    sort_jobs-IsSorted project_id ((id, j) ∷ jobs) =
        let h = sort_jobs-IsSorted project_id jobs in
        elim (Bool-cases (j.project_id == project_id)) [
          | inl mine ↦ rw mine (insert_job-IsSorted (clone_job j) _ h)
          | inr other ↦ rw other h
        ]

    sort_jobs-IsListed :
        (project_id : Text) (jobs : Dict Job) (x : Job)
        → UniqueKeys jobs
        → Among x (sort_jobs project_id jobs) ↔ IsListed project_id jobs x
    unfolding sort_jobs get
    sort_jobs-IsListed project_id [] x u = (λ h. absurd h, λ (id, j, found, mine, same). absurd cc)
    sort_jobs-IsListed project_id ((key, k) ∷ jobs) x (fresh, u) =
        let (there, back) = sort_jobs-IsListed project_id jobs x u in
        elim (Bool-cases (k.project_id == project_id)) [
          | inl mine ↦
              let (put, take) = Among-insert_job x (clone_job k) (sort_jobs project_id jobs) in
              rw mine (
                λ h. elim (put h) [
                  | inl new ↦ (key, k, rw (==_refl key) refl, mine, new)
                  | inr old ↦ later_key (there old)
                ],
                λ (id, j, found, belongs, same). elim (Bool-cases (key == id)) [
                  | inl hit ↦ let one : k ≡ j = ground arith in take (inl (rw (one, same) refl))
                  | inr miss ↦ take (inr (back (id, j, ground arith, belongs, same)))
                ],
              )
          | inr other ↦ rw other (
            λ h. later_key (there h),
            λ (id, j, found, belongs, same). elim (Bool-cases (key == id)) [
              | inl hit ↦
                  let one : k ≡ j = ground arith in
                  let again : (k.project_id == project_id) ≡ true = rw one belongs in absurd cc
              | inr miss ↦ back (id, j, ground arith, belongs, same)
            ],
          )
        ]
      where
        later_key : IsListed project_id jobs x → IsListed project_id ((key, k) ∷ jobs) x
        later_key (id, j, found, mine, same) = elim (Bool-cases (key == id)) [
          | inl hit ↦
              let one : key ≡ id = eq_of_== key id hit in
              let here = fresh in let gone : get id jobs ≡ none = rw one at here in absurd cc
          | inr miss ↦ (id, j, rw miss found, mine, same)
        ]

    -- Where the table holds an identifier once, and of two times that differ one at most comes after the
    -- other, `listProjectJobs` gives the jobs of the project in the table, and no others, and none of
    -- them comes after the next.
    pub list_project_jobs-IsListed :
        (s : State) (project_id : Text)
        → UniqueKeys s.jobs
        → IsSorted (list_project_jobs s project_id)
          × ((x : Job) → Among x (list_project_jobs s project_id) ↔ IsListed project_id s.jobs x)
    unfolding list_project_jobs
    list_project_jobs-IsListed s project_id u =
        (sort_jobs-IsSorted project_id s.jobs, λ x. sort_jobs-IsListed project_id s.jobs x u)
