-- ===== src/Pipeline/Projects/Folders/Acyclic.antt =====
-- projectTreeOps.ts, projectRepository.ts: a table of folders without a cycle, and the changes of
-- a table that leave it without one.
use bbmcp.Prelude.{
  ◌≡◌, refl, ◌∙◌, ◌⊎◌, inl, inr, [], ◌∷◌, true, false, none, some, arith, Bool-cases, Option-cases,
}
use bbmcp.Prelude.Text.{Text, ◌==◌, eq_of_==, is_empty}
use bbmcp.Prelude.Dict.{Dict, get, set, delete, get-set, get-set_other, get-delete}
use bbmcp.Pipeline.State.{Folder}
use bbmcp.Pipeline.Tree.Edges.{has_child, Edge, Below, itself, under, IsGrounded, grounded}

-- No folder has an empty identifier, each stands under its own, and each way down ends.
pub record IsAcyclic (folders : Dict Folder) : Type 0 where
  pub unnamed : get [] folders ≡ none
  pub named : (id : Text) (f : Folder) → get id folders ≡ some f → f.folder_id ≡ id
  pub ends : (id : Text) → IsGrounded folders id

-- Each folder of the second table is one of the first, with children that it had there or that are new.
abbrev pub Changes : Dict Folder → (Text → Text → Type 0) → Dict Folder → Type 0
Changes folders New folders' =
    (id : Text) (f' : Folder)
    → get id folders' ≡ some f'
    → (f : Folder) × (get id folders ≡ some f)
      × (f'.folder_id ≡ f.folder_id)
      × ((b : Text) → has_child b f'.children ≡ true → (has_child b f.children ≡ true) ⊎ New id b)

abbrev pub NoneNew : Text → Text → Type 0
NoneNew a b = ⊥

abbrev pub Thins : Dict Folder → Dict Folder → Type 0
Thins folders folders' = Changes folders NoneNew folders'

pub Thins-same : (folders : Dict Folder) → Thins folders folders
Thins-same folders id f e = (f, e, refl, λ b h. inl h)

pub Changes-mono :
    (folders : Dict Folder) (New New' : Text → Text → Type 0) (folders' : Dict Folder)
    → ((a b : Text) → New a b → New' a b)
    → Changes folders New folders'
    → Changes folders New' folders'
Changes-mono folders New New' folders' k h id f' e =
    let (f, found, same, old) = h id f' e in
    (f, found, same, λ b c. elim (old b c) [ inl was ↦ inl was | inr new ↦ inr (k id b new) ])

-- What thins the outcome of a change.
pub Changes-Thins :
    (folders : Dict Folder) (New : Text → Text → Type 0) (folders' folders'' : Dict Folder)
    → Changes folders New folders'
    → Thins folders' folders''
    → Changes folders New folders''
Changes-Thins folders New folders' folders'' h k id f'' e =
    let (f', found', same', old') = k id f'' e in
    let (f, found, same, old) = h id f' found' in
    (f, found, same' ∙ same, λ b c. elim (old' b c) [ inl was ↦ old b was | inr new ↦ absurd new ])

pub Thins-trans :
    (folders folders' folders'' : Dict Folder)
    → Thins folders folders'
    → Thins folders' folders''
    → Thins folders folders''
Thins-trans folders folders' folders'' = Changes-Thins folders NoneNew folders' folders''

pub Changes-set :
    (folders : Dict Folder) (New : Text → Text → Type 0) (id : Text) (f f' : Folder)
    → get id folders ≡ some f
    → f'.folder_id ≡ f.folder_id
    → ((b : Text) → has_child b f'.children ≡ true → (has_child b f.children ≡ true) ⊎ New id b)
    → Changes folders New (set id f' folders)
Changes-set folders New id f f' found same old j g e = elim (Bool-cases (id == j)) [
  | inl hit ↦
      let key : id ≡ j = eq_of_== id j hit in
      let one : g ≡ f' = ground (arith, get-set id j f' folders) in
      rw (← key, one) (f, found, same, old)
  | inr miss ↦ (g, ground (arith, get-set_other id j f' folders miss), refl, λ b h. inl h)
]

pub Thins-delete : (folders : Dict Folder) (id : Text) → Thins folders (delete id folders)
Thins-delete folders id j g e = (g, ground (arith, get-delete id j folders), refl, λ b h. inl h)

module _ (folders folders' : Dict Folder) (acyclic : IsAcyclic folders) where
  kept_unnamed :
      (New : Text → Text → Type 0) → Changes folders New folders' → get [] folders' ≡ none
  kept_unnamed New h = elim (Option-cases (get [] folders')) [
    | inl absent ↦ absent
    | inr (f', e) ↦ let (f, found, same, old) = h [] f' e in let no = acyclic.unnamed in cc
  ]

  IsAcyclic-by :
      (New : Text → Text → Type 0)
      → Changes folders New folders'
      → ((a : Text) → IsGrounded folders' a)
      → IsAcyclic folders'
  IsAcyclic-by New h ends = record {
    unnamed = kept_unnamed New h;
    named = λ id f' e. let (f, found, same, old) = h id f' e in same ∙ acyclic.named id f found;
    ends = ends;
  }

  pub Thins-Edge : Thins folders folders' → (a b : Text) → Edge folders' a b → Edge folders a b
  Thins-Edge h a b (f', found', child) =
      let (f, found, same, old) = h a f' found' in
      elim (old b child) [ inl was ↦ (f, found, was) | inr new ↦ absurd new ]

  IsGrounded-Thins :
      ((a b : Text) → Edge folders' a b → Edge folders a b)
      → (a : Text) → IsGrounded folders a
      → IsGrounded folders' a
  IsGrounded-Thins h a (grounded k) = grounded (λ b edge. IsGrounded-Thins h b (k b (h a b edge)))

  pub IsAcyclic-Thins : Thins folders folders' → IsAcyclic folders'
  IsAcyclic-Thins h =
      IsAcyclic-by NoneNew h (λ a. IsGrounded-Thins (Thins-Edge h) a (acyclic.ends a))

  -- A new folder without children.
  pub IsAcyclic-new :
      (id : Text) (f : Folder)
      → folders' ≡ set id f folders
      → is_empty id ≡ false
      → f.folder_id ≡ id
      → f.children ≡ []
      → IsAcyclic folders'
  unfolding ◌==◌
  IsAcyclic-new id f made filled same no_children = record {
    unnamed = named_only id filled made;
    named = λ j g e. elim (Bool-cases (id == j)) [
      | inl hit ↦
          let key : id ≡ j = eq_of_== id j hit in
          let one : g ≡ f = ground (arith, made, get-set id j f folders) in rw (one, same) key
      | inr miss ↦ acyclic.named j g (ground (arith, made, get-set_other id j f folders miss))
    ];
    ends = λ a. IsGrounded-Thins edges a (acyclic.ends a);
  }
    where
      named_only :
          (j : Text) → is_empty j ≡ false → folders' ≡ set j f folders → get [] folders' ≡ none
      named_only [] h e = cc
      named_only (x ∷ j) h e = rw e (get-set_other (x ∷ j) [] f folders refl ∙ acyclic.unnamed)

      edges : (a b : Text) → Edge folders' a b → Edge folders a b
      edges a b (g, found, child) = elim (Bool-cases (id == a)) [
        | inl hit ↦
            let one : g ≡ f = ground (arith, made, get-set id a f folders) in
            let none_of : has_child b [] ≡ true = rw (one, no_children) at child in cc
        | inr miss ↦ (g, ground (arith, made, get-set_other id a f folders miss), child)
      ]

  module _ (p c : Text) (apart : ¬ Below folders p c) where
    abbrev pub NewLink : Text → Text → Type 0
    NewLink a b = (a ≡ p) × (b ≡ c)

    module _ (h : Changes folders NewLink folders') where
      old_or_link : (a b : Text) → Edge folders' a b → Edge folders a b ⊎ NewLink a b
      old_or_link a b (f', found', child) =
          let (f, found, same, old) = h a f' found' in
          elim (old b child) [ inl was ↦ inl (f, found, was) | inr new ↦ inr new ]

      -- A folder that is not above the new parent has no new way down.
      away : (a : Text) → IsGrounded folders a → ¬ Below folders p a → IsGrounded folders' a
      away a (grounded k) off = grounded (λ b edge. elim (old_or_link a b edge) [
        | inl was ↦ away b (k b was) (λ below. off (under was below))
        | inr (here, there) ↦ absurd (off (rw here itself))
      ])

      linked : (a : Text) → IsGrounded folders a → IsGrounded folders' a
      linked a (grounded k) = grounded (λ b edge. elim (old_or_link a b edge) [
        | inl was ↦ linked b (k b was)
        | inr (here, there) ↦ rw there (away c (acyclic.ends c) apart)
      ])

      -- A folder goes below one that is not below itself.
      pub IsAcyclic-link : IsAcyclic folders'
      IsAcyclic-link = IsAcyclic-by NewLink h (λ a. linked a (acyclic.ends a))
