-- ===== src/Pipeline/Tree/Depth.antt =====
-- projectTreeOps.ts: the depth of a folder, and the limit on it.
use bbmcp.Prelude.{
  ℕ, zero, suc, ◌+◌, ◌≡◌, ◌≤◌, ◌<◌, refl, ap, ◌⊎◌, inl, inr, Option, none, some, if◌then◌else◌,
  arith, ltb, leb, Option-cases, Bool-cases,
}
use bbmcp.Prelude.Text.{Text, is_empty}
use bbmcp.Prelude.Dict.{Dict, get}
use bbmcp.Pipeline.Model.{Error, Result, ok, throw, depth_exceeded, hierarchy_cycle}
use bbmcp.Pipeline.State.{Folder, non_empty}
use bbmcp.Pipeline.State.Throwing.{Result-cases}
use bbmcp.Pipeline.Tree.{
  max_folder_depth, max_loop_guard, folder_depth_from, get_folder_depth, ensure_folder_depth_limit,
}

-- The folders from one up to the root, or up to one that does not exist, by their number.
pub data Ancestors (folders : Dict Folder) : Option Text → ℕ → Type 0 where
  at_root : {current : Option Text} → non_empty current ≡ none → Ancestors folders current 0
  at_missing :
      {current : Option Text} (id : Text)
      → non_empty current ≡ some id
      → get id folders ≡ none
      → Ancestors folders current 0
  above :
      {current : Option Text} {n : ℕ} (id : Text) (f : Folder)
      → non_empty current ≡ some id
      → get id folders ≡ some f
      → Ancestors folders f.parent_folder_id n
      → Ancestors folders current (suc n)

module _ (folders : Dict Folder) where
  -- With rounds enough the loop adds the number of ancestors.
  folder_depth_from-Ancestors :
      (rounds depth n : ℕ) (current : Option Text)
      → Ancestors folders current n
      → n ≤ rounds
      → folder_depth_from folders rounds current depth ≡ ok (depth + n)
  unfolding folder_depth_from
  folder_depth_from-Ancestors zero depth _ current (at_root top) h = ground arith
  folder_depth_from-Ancestors zero depth _ current (at_missing id named absent) h = ground arith
  folder_depth_from-Ancestors zero depth _ current (above id f named found rest) h =
      absurd (omega arith)
  folder_depth_from-Ancestors (suc rounds) depth _ current (at_root top) h = ground arith
  folder_depth_from-Ancestors (suc rounds) depth _ current (at_missing id named absent) h =
      ground arith
  folder_depth_from-Ancestors (suc rounds) depth _ current (above {n = n} id f named found rest) h =
      rw
        (
          folder_depth_from,
          named,
          found,
          folder_depth_from-Ancestors rounds (depth + 1) n f.parent_folder_id rest (omega arith),
        )
        (ap ok (omega arith))

  -- What the loop answers is such a number.
  Ancestors-folder_depth_from :
      (rounds depth m : ℕ) (current : Option Text)
      → folder_depth_from folders rounds current depth ≡ ok m
      → (n : ℕ) × Ancestors folders current n × (m ≡ depth + n)
  unfolding folder_depth_from
  Ancestors-folder_depth_from zero depth m current e = elim (Option-cases (non_empty current)) [
    | inl top ↦ (0, at_root top, ground arith)
    | inr (id, named) ↦ elim (Option-cases (get id folders)) [
      | inl absent ↦ (0, at_missing id named absent, ground arith)
      | inr (f, found) ↦ absurd (ground arith)
    ]
  ]
  Ancestors-folder_depth_from (suc rounds) depth m current e =
      elim (Option-cases (non_empty current)) [
        | inl top ↦ (0, at_root top, ground arith)
        | inr (id, named) ↦ elim (Option-cases (get id folders)) [
          | inl absent ↦ (0, at_missing id named absent, ground arith)
          | inr (f, found) ↦
              let (n, rest, sum) =
                Ancestors-folder_depth_from rounds (depth + 1) m f.parent_folder_id
                  (ground arith) in
              (suc n, above id f named found rest, omega arith)
        ]
      ]

  folder_depth_from-throw :
      (rounds depth : ℕ) (current : Option Text) (e : Error)
      → folder_depth_from folders rounds current depth ≡ throw e
      → e ≡ hierarchy_cycle
  unfolding folder_depth_from
  folder_depth_from-throw zero depth current e h = ground arith
  folder_depth_from-throw (suc rounds) depth current e h = elim (Option-cases (non_empty current)) [
    | inl top ↦ absurd (ground arith)
    | inr (id, named) ↦ elim (Option-cases (get id folders)) [
      | inl absent ↦ absurd (ground arith)
      | inr (f, found) ↦
          folder_depth_from-throw rounds (depth + 1) f.parent_folder_id e (ground arith)
    ]
  ]

  -- How `ensureFolderDepthLimit` ends, by the number of folders from the target up.
  abbrev pub DepthLimit : Option Text → ℕ → Result (Unit {0}) → Type 0
  DepthLimit target height r =
      ((n : ℕ) × Ancestors folders target n
        × (((r ≡ ok tt) × (n + height ≤ max_folder_depth))
            ⊎ ((r ≡ throw depth_exceeded) × (max_folder_depth < n + height))))
      ⊎ ((r ≡ throw hierarchy_cycle) × ((n : ℕ) → Ancestors folders target n → max_loop_guard < n))

  limit_at :
      (target : Option Text) (height n : ℕ)
      → Ancestors folders target n
      → DepthLimit target height
          (if ltb max_folder_depth (n + height) then throw depth_exceeded else ok tt)
  limit_at target height n up = elim (Bool-cases (ltb max_folder_depth (n + height))) [
    | inl deep ↦ inl (n, up, inr (rw deep refl, ground arith))
    | inr fits ↦ inl (n, up, inl (rw fits refl, ground arith))
  ]

  -- `ensureFolderDepthLimit` passes where the folders from the target up to the root make, with the
  -- height of the subtree, three levels at most; it throws that the limit is exceeded where they
  -- make more; and it throws that the hierarchy has a cycle where no way up has sixty-four folders
  -- or fewer. It ends in no other way.
  pub ensure_folder_depth_limit-DepthLimit :
      (target : Option Text) (height : ℕ)
      → DepthLimit target height (ensure_folder_depth_limit folders target height)
  unfolding ensure_folder_depth_limit get_folder_depth
  ensure_folder_depth_limit-DepthLimit none height = limit_at none height 0 (at_root refl)
  ensure_folder_depth_limit-DepthLimit (some id) height = elim (Bool-cases (is_empty id)) [
    | inl blank ↦
        rw (ensure_folder_depth_limit, blank)
          (limit_at (some id) height 0 (at_root (rw blank refl)))
    | inr filled ↦ elim (Result-cases (folder_depth_from folders max_loop_guard (some id) 0)) [
      | inl (e, thrown) ↦
          let cycle = folder_depth_from-throw max_loop_guard 0 (some id) e thrown in
          rw (ensure_folder_depth_limit, filled, get_folder_depth, thrown, cycle)
            (inr (refl, λ n up. far e thrown n up))
      | inr (m, counted) ↦
          let (n, up, sum) = Ancestors-folder_depth_from max_loop_guard 0 m (some id) counted in
          let same : m ≡ n = omega arith in
          rw (ensure_folder_depth_limit, filled, get_folder_depth, counted, same)
            (limit_at (some id) height n up)
    ]
  ]
    where
      far :
          (e : Error)
          → folder_depth_from folders max_loop_guard (some id) 0 ≡ throw e
          → (n : ℕ) → Ancestors folders (some id) n
          → max_loop_guard < n
      far e thrown n up = elim (Bool-cases (leb n max_loop_guard)) [
        | inl near ↦
            let counted =
              folder_depth_from-Ancestors max_loop_guard 0 n (some id) up (ground arith) in
            cc
        | inr past ↦ ground arith
      ]
