-- ===== src/Pipeline/Projects/Folders/Creating.antt =====
-- projectRepository.ts: `computeEntityId` gives a new identifier; `createFolder` and `renameFolder`
-- leave the folders a acyclic.
use bbmcp.Prelude.{
  ℕ, zero, suc, ◌+◌, ◌≡◌, refl, ap, inl, inr, [], ◌++◌, Bool, true, false, Option, none, some,
  arith, Bool-cases, Option-cases,
}
use bbmcp.Prelude.Text.{Text, text, is_empty}
use bbmcp.Prelude.Dict.{Dict, get, has, set, get-set_self}
use bbmcp.Prelude.Number.{Number}
use bbmcp.Pipeline.Model.{ok}
use bbmcp.Pipeline.State.{Folder, State, non_empty, decimal}
use bbmcp.Pipeline.State.Throwing.{Result-cases}
use bbmcp.Pipeline.Tree.{
  find_container_children, normalize_parent_folder_id, ensure_target_folder_exists,
  ensure_folder_depth_limit,
}
use bbmcp.Pipeline.Tree.Edges.{has_child, Below, itself, under}
use bbmcp.Pipeline.Projects.Editing.{normalize_name, places}
use bbmcp.Pipeline.Projects.Folders.{
  compute_entity_id, new_folder, parent_or_root, attach_folder, create_folder, rename_folder,
}
use bbmcp.Pipeline.Projects.Folders.Acyclic.{NoneNew, Changes-set, IsAcyclic-Thins, IsAcyclic-new}
use bbmcp.Pipeline.Projects.Folders.Attaching.{Leaves, Acyclic, insert_folder-IsAcyclic}

abbrev first_of : Option (Text × ℕ) → Text
first_of none = []
first_of (some (id, nonce)) = id

-- What is given out is not taken, and has the prefix.
pub compute_entity_id-fresh :
    (digest : Text → Text) (taken : Text → Bool) (prefix seed : Text) (rounds nonce : ℕ) (id : Text)
    (nonce' : ℕ)
    → compute_entity_id digest taken prefix seed rounds nonce ≡ some (id, nonce')
    → (taken id ≡ false) × (rest : Text) × (id ≡ prefix ++ text "_" ++ rest)
unfolding compute_entity_id
compute_entity_id-fresh digest taken prefix seed zero nonce id nonce' e = cc
compute_entity_id-fresh digest taken prefix seed (suc rounds) nonce id nonce' e =
    let source = prefix ++ text ":" ++ decimal nonce ++ text ":" ++ seed in
    let candidate = prefix ++ text "_" ++ digest source in
    elim (Bool-cases (taken candidate)) [
      | inl hit ↦
          compute_entity_id-fresh digest taken prefix seed rounds (nonce + 1) id nonce'
            (rw (compute_entity_id, hit) at e)
      | inr miss ↦
          let given : some (candidate, nonce + 1) ≡ some (id, nonce') =
            rw (compute_entity_id, miss) at e in
          let same : candidate ≡ id = ap first_of given in
          (rw (← same) miss, digest source, rw (← same) refl)
    ]

pub target_exists :
    (folders : Dict Folder) (parent : Option Text) (p : Text) (u : Unit {0})
    → ensure_target_folder_exists folders parent ≡ ok u
    → non_empty parent ≡ some p
    → has p folders ≡ true
unfolding ensure_target_folder_exists
target_exists folders parent p u e inside = elim (Bool-cases (has p folders)) [
  | inl there ↦ there
  | inr absent ↦ absurd (ground arith)
]

module _ (s : State) (h : Acyclic s) where
  -- A folder that has just come has nothing below it.
  new-not_Below :
      (folders : Dict Folder) (f : Folder) (p id : Text)
      → f.children ≡ []
      → (p ≡ id → ⊥)
      → ¬ Below (set id f folders) p id
  new-not_Below folders f p id no_children other below = go id refl below
    where
      go : (a : Text) → a ≡ id → Below (set id f folders) p a → ⊥
      go a same itself = other same
      go a same (under {b = b} (g, found, child) below') =
          let here : get a (set id f folders) ≡ some f = rw same (get-set_self id f folders) in
          let one : g ≡ f = ground arith in
          let none_of : has_child b [] ≡ true = rw (one, no_children) at child in cc

  attach_folder-IsAcyclic :
      (f : Folder) (parent : Option Text) (index : Option Number) (v : State)
      → Acyclic v
      → ((p : Text) → non_empty parent ≡ some p → ¬ Below v.folders p f.folder_id)
      → Acyclic (attach_folder f parent index v).1
  unfolding attach_folder
  attach_folder-IsAcyclic f parent index v k apart =
      elim (Result-cases (find_container_children (places v) parent)) [
        | inl (e, thrown) ↦ rw (attach_folder, thrown) k
        | inr (children, inside) ↦
            rw (attach_folder, inside)
              (insert_folder-IsAcyclic (places v) parent children f.folder_id index k inside apart)
      ]

  created-IsAcyclic :
      (digest : Text → Text) (rounds : ℕ) (seed name : Text) (parent : Option Text)
      (index : Option Number) (id : Text) (nonce : ℕ) (u : Unit {0})
      → ensure_target_folder_exists s.folders parent ≡ ok u
      → compute_entity_id digest (λ x. has x s.folders) (text "fld") seed rounds s.next_entity_nonce
        ≡ some (id, nonce)
      → Acyclic
          (attach_folder (new_folder id name parent) parent index (record s {
            next_entity_nonce = nonce;
            folders = set id (new_folder id name parent) s.folders;
          })).1
  created-IsAcyclic digest rounds seed name parent index id nonce u there e =
      let f = new_folder id name parent in
      let folders = set id f s.folders in
      let (fresh, rest, made) =
        compute_entity_id-fresh digest (λ x. has x s.folders) (text "fld") seed rounds
          s.next_entity_nonce id nonce e in
      let filled : is_empty id ≡ false = rw made refl in
      attach_folder-IsAcyclic f parent index
        (record s { next_entity_nonce = nonce; folders = folders })
        (IsAcyclic-new s.folders folders h id f refl filled refl refl)
        (λ p inside. new-not_Below s.folders f p id refl (λ same.
          let exists = target_exists s.folders parent p u there inside in
          let again : has id s.folders ≡ true = rw same at exists in cc))

  pub create_folder-IsAcyclic :
      (digest : Text → Text) (rounds : ℕ) (name : Text) (parent_id : Option Text)
      (index : Option Number)
      → Leaves Acyclic (create_folder digest rounds name parent_id index s)
  unfolding create_folder
  create_folder-IsAcyclic digest rounds name parent_id index =
      elim (Result-cases (ensure_target_folder_exists s.folders parent)) [
        | inl (e, thrown) ↦ rw (create_folder, thrown) h
        | inr (u, there) ↦ elim (Result-cases (ensure_folder_depth_limit s.folders parent 1)) [
          | inl (e, thrown) ↦ rw (create_folder, there, thrown) h
          | inr (v, shallow) ↦ elim (Option-cases new_id) [
            | inl over ↦ rw (create_folder, there, shallow, over) tt
            | inr ((id, nonce), made) ↦
                rw (create_folder, there, shallow, made)
                  (created-IsAcyclic digest rounds seed normalized parent index id nonce u there
                    made)
          ]
        ]
      ]
    where
      parent : Option Text
      parent = normalize_parent_folder_id parent_id

      normalized : Text
      normalized = normalize_name name (text "New Folder")

      seed : Text
      seed = parent_or_root parent ++ text ":" ++ normalized

      new_id : Option (Text × ℕ)
      new_id =
          compute_entity_id digest (λ x. has x s.folders) (text "fld") seed rounds
            s.next_entity_nonce

  pub rename_folder-IsAcyclic : (id next_name : Text) → Acyclic (rename_folder id next_name s).1
  unfolding rename_folder
  rename_folder-IsAcyclic id next_name = elim (Option-cases (get id s.folders)) [
    | inl absent ↦ rw (rename_folder, absent) h
    | inr (f, found) ↦
        rw (rename_folder, found)
          (IsAcyclic-Thins s.folders _ h (
            Changes-set s.folders NoneNew id f (record f { name = normalize_name next_name f.name })
              found refl (λ b c. inl c)))
  ]
