-- ===== src/Pipeline/Projects/Folders/Linking.antt =====
-- projectRepository.ts: `createFolder`, `renameFolder` and `moveFolder` leave each folder listed by its
-- own parent alone.
use bbmcp.Prelude.{
  ℕ, zero, suc, ◌≡◌, ◌≤◌, refl, inl, inr, [], ◌++◌, true, false, Option, none, some, arith,
  Bool-cases, Option-cases,
}
use bbmcp.Prelude.Text.{Text, text, ◌==◌, eq_of_==}
use bbmcp.Prelude.Dict.{Dict, get, has, set, get-set, get-set_self, get-set_other}
use bbmcp.Prelude.Number.{Number}
use bbmcp.Pipeline.Model.{ok}
use bbmcp.Pipeline.State.{folder, Folder, State}
use bbmcp.Pipeline.State.Throwing.{Result-cases}
use bbmcp.Pipeline.Tree.{
  find_container_children, detach_from_parent, normalize_parent_folder_id,
  ensure_target_folder_exists, ensure_folder_depth_limit,
}
use bbmcp.Pipeline.Tree.Walks.{get_subtree_folder_height}
use bbmcp.Pipeline.Projects.Editing.{normalize_name, places}
use bbmcp.Pipeline.Projects.Folders.{
  compute_entity_id, new_folder, parent_or_root, attach_folder, create_folder, rename_folder,
  is_parent, is_below, adjusted_folder_index, attach_moved_folder, relocate_folder,
  move_measured_folder, move_checked_folder, move_found_folder, move_folder,
}
use bbmcp.Pipeline.Projects.Folders.Attaching.{Leaves, Acyclic}
use bbmcp.Pipeline.Projects.Folders.Creating.{compute_entity_id-fresh}
use bbmcp.Pipeline.Projects.Folders.Links.{
  listed, IsLinked, Shrinks, IsLinked-Shrinks, IsLinked-Attaches, Shrinks-same,
}
use bbmcp.Pipeline.Projects.Folders.Unlisting.{set-Alters, detach_from_parent-Shrinks, unlisted}
use bbmcp.Pipeline.Projects.Folders.Listing.{insert_folder-Attaches, insert_set_parent-Attaches}

abbrev pub Linked : State → Type 0
Linked s = IsLinked s.folders

-- A new folder without children, that none lists.
IsLinked-new :
    (folders : Dict Folder) (id : Text) (x : Folder)
    → IsLinked folders
    → get id folders ≡ none
    → x.children ≡ []
    → IsLinked (set id x folders)
IsLinked-new folders id x h fresh no_children = record {
  linked = λ a b f e c. elim (Bool-cases (id == a)) [
    | inl hit ↦
        let one : f ≡ x = ground (arith, get-set id a x folders) in
        let empty : 1 ≤ listed b [] = rw (one, no_children) at c in absurd (omega arith)
    | inr miss ↦
        let old : get a folders ≡ some f = ground (arith, get-set_other id a x folders miss) in
        let (g, found, up) = h.linked a b f old c in
        elim (Bool-cases (id == b)) [
          | inl hit ↦
              let key : id ≡ b = eq_of_== id b hit in
              let again : get id folders ≡ some g = rw (← key) at found in cc
          | inr other ↦ (g, rw (get-set_other id b x folders other) found, up)
        ]
  ];
  once = λ a b f e. elim (Bool-cases (id == a)) [
    | inl hit ↦
        let one : f ≡ x = ground (arith, get-set id a x folders) in
        rw (one, no_children) (omega arith)
    | inr miss ↦ h.once a b f (ground (arith, get-set_other id a x folders miss))
  ];
}

-- None lists a folder that is not there.
unlisted_new :
    (folders : Dict Folder) (id : Text) (x : Folder)
    → IsLinked folders
    → get id folders ≡ none
    → x.children ≡ []
    → (a : Text) (f : Folder) → get a (set id x folders) ≡ some f
    → listed id f.children ≡ 0
unlisted_new folders id x h fresh no_children a f e = elim (Bool-cases (id == a)) [
  | inl hit ↦ let one : f ≡ x = ground (arith, get-set id a x folders) in rw (one, no_children) refl
  | inr miss ↦
      let old : get a folders ≡ some f = ground (arith, get-set_other id a x folders miss) in
      go (listed id f.children) refl old
]
  where
    go : (n : ℕ) → listed id f.children ≡ n → get a folders ≡ some f → listed id f.children ≡ 0
    go zero e old = e
    go (suc n) e old = let (g, found, up) = h.linked a id f old (omega arith) in cc

module _ (s : State) (h : Acyclic s) (k : Linked s) where
  attach_folder-Linked :
      (f : Folder) (parent : Option Text) (index : Option Number) (v : State)
      → Linked v
      → get f.folder_id v.folders ≡ some f
      → f.parent_folder_id ≡ parent
      → ((a : Text) (g : Folder) → get a v.folders ≡ some g → listed f.folder_id g.children ≡ 0)
      → Linked (attach_folder f parent index v).1
  unfolding attach_folder
  attach_folder-Linked f parent index v l there up free =
      elim (Result-cases (find_container_children (places v) parent)) [
        | inl (e, thrown) ↦ rw (attach_folder, thrown) l
        | inr (children, inside) ↦
            rw (attach_folder, inside)
              (IsLinked-Attaches v.folders _ l f.folder_id parent f there free (
                insert_folder-Attaches (places v) parent children f.folder_id index f inside there
                  up))
      ]

  created-Linked :
      (id name : Text) (parent : Option Text) (index : Option Number) (nonce : ℕ)
      → has id s.folders ≡ false
      → Linked
          (attach_folder (new_folder id name parent) parent index (record s {
            next_entity_nonce = nonce;
            folders = set id (new_folder id name parent) s.folders;
          })).1
  unfolding has
  created-Linked id name parent index nonce fresh =
      let f = new_folder id name parent in
      let absent : get id s.folders ≡ none = ground arith in
      attach_folder-Linked f parent index
        (record s { next_entity_nonce = nonce; folders = set id f s.folders })
        (IsLinked-new s.folders id f k absent refl) (get-set_self id f s.folders) refl
        (unlisted_new s.folders id f k absent refl)

  pub create_folder-Linked :
      (digest : Text → Text) (rounds : ℕ) (name : Text) (parent_id : Option Text)
      (index : Option Number)
      → Leaves Linked (create_folder digest rounds name parent_id index s)
  unfolding create_folder
  create_folder-Linked digest rounds name parent_id index =
      elim (Result-cases (ensure_target_folder_exists s.folders parent)) [
        | inl (e, thrown) ↦ rw (create_folder, thrown) k
        | inr (u, there) ↦ elim (Result-cases (ensure_folder_depth_limit s.folders parent 1)) [
          | inl (e, thrown) ↦ rw (create_folder, there, thrown) k
          | inr (v, shallow) ↦ elim (Option-cases new_id) [
            | inl over ↦ rw (create_folder, there, shallow, over) tt
            | inr ((id, nonce), made) ↦
                let (fresh, rest, prefixed) =
                  compute_entity_id-fresh digest (λ x. has x s.folders) (text "fld") seed rounds
                    s.next_entity_nonce id nonce made in
                rw (create_folder, there, shallow, made)
                  (created-Linked id normalized parent index nonce fresh)
          ]
        ]
      ]
    where
      parent : Option Text
      parent = normalize_parent_folder_id parent_id

      normalized : Text
      normalized = normalize_name name (text "New Folder")

      seed : Text
      seed = parent_or_root parent ++ text ":" ++ normalized

      new_id : Option (Text × ℕ)
      new_id =
          compute_entity_id digest (λ x. has x s.folders) (text "fld") seed rounds
            s.next_entity_nonce

  pub rename_folder-Linked : (id next_name : Text) → Linked (rename_folder id next_name s).1
  unfolding rename_folder
  rename_folder-Linked id next_name = elim (Option-cases (get id s.folders)) [
    | inl absent ↦ rw (rename_folder, absent) k
    | inr (f, found) ↦
        rw (rename_folder, found)
          (IsLinked-Shrinks s.folders _ k (
            set-Alters Shrinks s.folders id f (record f { name = normalize_name next_name f.name })
              found (refl, λ b. omega arith) (λ a g miss. Shrinks-same a g)))
  ]

  -- The folder is out of its parent, wherever it goes.
  relocate_folder-Linked :
      (id : Text) (f : Folder) (parent : Option Text) (index : Option Number)
      → get id s.folders ≡ some f
      → f.folder_id ≡ id
      → Linked (relocate_folder id f parent index s).1
  unfolding relocate_folder attach_moved_folder
  relocate_folder-Linked id f parent index found key =
      elim (Result-cases (detach_from_parent folder f.folder_id f.parent_folder_id (places s))) [
        | inl (e, thrown) ↦ rw (relocate_folder, thrown) k
        | inr (detached, out) ↦
            let out' : detach_from_parent folder id f.parent_folder_id (places s) ≡ ok detached =
              rw key at out in
            let shrunk =
              detach_from_parent-Shrinks folder id f.parent_folder_id (places s) detached out' in
            let k' = IsLinked-Shrinks s.folders detached.0 k shrunk in
            let free = unlisted (places s) detached k h.unnamed id f found out' in
            let (x, there) = shrunk.on id f found in
            elim (Result-cases (find_container_children detached parent)) [
              | inl (e, thrown) ↦ rw (relocate_folder, out, attach_moved_folder, thrown) k'
              | inr (children, inside) ↦
                  rw (relocate_folder, out, attach_moved_folder, inside, key)
                    (IsLinked-Attaches detached.0 _ k' id parent x there free
                      (insert_set_parent-Attaches detached parent children id index x inside there))
            ]
      ]

  move_checked_folder-Linked :
      (rounds : ℕ) (id : Text) (f : Folder) (parent : Option Text) (index : Option Number)
      → get id s.folders ≡ some f
      → f.folder_id ≡ id
      → Leaves Linked (move_checked_folder rounds id f parent index s)
  unfolding move_checked_folder move_measured_folder
  move_checked_folder-Linked rounds id f parent index found key =
      elim (Option-cases (get_subtree_folder_height rounds s.folders f.folder_id)) [
        | inl over ↦ rw (move_checked_folder, over) tt
        | inr (height, measured) ↦
            elim (Result-cases (ensure_folder_depth_limit s.folders parent height)) [
              | inl (e, thrown) ↦ rw (move_checked_folder, measured, move_measured_folder, thrown) k
              | inr (u, shallow) ↦
                  elim (Result-cases (adjusted_folder_index f parent index (places s))) [
                    | inl (e, thrown) ↦
                        rw (move_checked_folder, measured, move_measured_folder, shallow, thrown) k
                    | inr (index', adjusted) ↦
                        rw (move_checked_folder, measured, move_measured_folder, shallow, adjusted)
                          (relocate_folder-Linked id f parent index' found key)
                  ]
            ]
      ]

  pub move_folder-Linked :
      (rounds : ℕ) (id : Text) (parent : Option Text) (index : Option Number)
      → Leaves Linked (move_folder rounds id parent index s)
  unfolding move_folder move_found_folder
  move_folder-Linked rounds id parent_id index = elim (Option-cases (get id s.folders)) [
    | inl absent ↦ rw (move_folder, absent) k
    | inr (f, found) ↦ elim (Bool-cases (is_parent parent f.folder_id)) [
      | inl self ↦ rw (move_folder, found, move_found_folder, self) k
      | inr other ↦ elim (Result-cases (ensure_target_folder_exists s.folders parent)) [
        | inl (e, thrown) ↦ rw (move_folder, found, move_found_folder, other, thrown) k
        | inr (u, there) ↦ elim (Result-cases (is_below s.folders f.folder_id parent)) [
          | inl (e, thrown) ↦ rw (move_folder, found, move_found_folder, other, there, thrown) k
          | inr (true, inside) ↦ rw (move_folder, found, move_found_folder, other, there, inside) k
          | inr (false, outside) ↦
              rw (move_folder, found, move_found_folder, other, there, outside)
                (move_checked_folder-Linked rounds id f parent index found (h.named id f found))
        ]
      ]
    ]
  ]
    where
      parent : Option Text
      parent = normalize_parent_folder_id parent_id
