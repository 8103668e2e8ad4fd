-- ===== src/Pipeline/Projects/Folders/Links.antt =====
-- projectTreeOps.ts, projectRepository.ts: a table of folders that are listed by their own parent
-- alone, and the changes of a table that leave it so.
use bbmcp.Prelude.{
  ℕ, suc, ◌≡◌, ◌≤◌, refl, ◌∙◌, ◌⊎◌, inl, inr, List, [], ◌∷◌, true, false, Option, some,
  if◌then◌else◌, arith, Bool-cases,
}
use bbmcp.Prelude.Text.{Text, ◌==◌, eq_of_==, ==_refl}
use bbmcp.Prelude.Dict.{Dict, get}
use bbmcp.Pipeline.State.{folder, ChildRef, Folder}
use bbmcp.Pipeline.Tree.{is_ref}
use bbmcp.Pipeline.Tree.Edges.{has_child}
use bbmcp.Pipeline.Tree.Reorder.{occurrences}

-- How often a folder is listed.
abbrev pub listed : Text → List ChildRef → ℕ
listed b children = occurrences folder b children

pub has_child-listed :
    (b : Text) (children : List ChildRef) → has_child b children ≡ true → 1 ≤ listed b children
has_child-listed b [] h = absurd cc
has_child-listed b (x ∷ xs) h = elim (Bool-cases (is_ref folder b x)) [
  | inl hit ↦ ground arith
  | inr miss ↦ let k = has_child-listed b xs (ground arith) in ground arith
]

pub listed-has_child :
    (b : Text) (children : List ChildRef) → 1 ≤ listed b children → has_child b children ≡ true
listed-has_child b [] h = absurd (omega arith)
listed-has_child b (x ∷ xs) h = elim (Bool-cases (is_ref folder b x)) [
  | inl hit ↦ ground arith
  | inr miss ↦ let k = listed-has_child b xs (ground arith) in ground arith
]

-- What is listed as a folder's child is a folder that has it as its parent, and is listed once.
pub record IsLinked (folders : Dict Folder) : Type 0 where
  pub linked :
      (a b : Text) (f : Folder)
      → get a folders ≡ some f
      → 1 ≤ listed b f.children
      → (g : Folder) × (get b folders ≡ some g) × (g.parent_folder_id ≡ some a)
  pub once : (a b : Text) (f : Folder) → get a folders ≡ some f → listed b f.children ≤ 1

-- Two tables with the same identifiers, whose folders stand in a relation.
pub record Alters (R : Text → Folder → Folder → Type 0) (folders folders' : Dict Folder)
    : Type 0 where
  pub back :
      (a : Text) (f' : Folder)
      → get a folders' ≡ some f'
      → (f : Folder) × (get a folders ≡ some f) × R a f f'
  pub on :
      (a : Text) (f : Folder) → get a folders ≡ some f → (f' : Folder) × (get a folders' ≡ some f')

-- A folder may lose children.
abbrev pub Shrinks : Text → Folder → Folder → Type 0
Shrinks a f f' =
    (f'.parent_folder_id ≡ f.parent_folder_id)
    × ((b : Text) → listed b f'.children ≤ listed b f.children)

-- One folder gets a parent, which may list it once more; all others may lose children.
abbrev pub Attaches : Text → Option Text → Text → Folder → Folder → Type 0
Attaches id parent a f f' =
    (f'.parent_folder_id ≡ (if a == id then parent else f.parent_folder_id))
    × ((b : Text)
        → (listed b f'.children ≤ listed b f.children)
          ⊎ ((parent ≡ some a) × (b ≡ id) × (listed b f'.children ≤ suc (listed b f.children))))

pub Shrinks-same : (a : Text) (f : Folder) → Shrinks a f f
Shrinks-same a f = (refl, λ b. omega arith)

pub Alters-same :
    (R : Text → Folder → Folder → Type 0) (folders : Dict Folder)
    → ((a : Text) (f : Folder) → get a folders ≡ some f → R a f f)
    → Alters R folders folders
Alters-same R folders r = record { back = λ a f e. (f, e, r a f e); on = λ a f e. (f, e) }

pub Shrinks-trans :
    (folders folders' folders'' : Dict Folder)
    → Alters Shrinks folders folders'
    → Alters Shrinks folders' folders''
    → Alters Shrinks folders folders''
Shrinks-trans folders folders' folders'' h k = record {
  back = λ a f'' e''.
      let (f', e', (par', le')) = k.back a f'' e'' in
      let (f, e, (par, le)) = h.back a f' e' in
      (f, e, (par' ∙ par, λ b. let x = le b in let y = le' b in omega arith));
  on = λ a f e. let (f', e') = h.on a f e in k.on a f' e';
}

module _ (folders folders' : Dict Folder) (h : IsLinked folders) where
  pub IsLinked-Shrinks : Alters Shrinks folders folders' → IsLinked folders'
  IsLinked-Shrinks k = record {
    linked = λ a b f' e' c.
        let (f, e, (par, le)) = k.back a f' e' in
        let fewer = le b in
        let (g, found, up) = h.linked a b f e (omega arith) in
        let (g', found') = k.on b g found in
        let (g0, found0, (par0, le0)) = k.back b g' found' in
        let same : g0 ≡ g = ground arith in (g', found', par0 ∙ (rw same up));
    once = λ a b f' e'.
        let (f, e, (par, le)) = k.back a f' e' in
        let fewer = le b in let few = h.once a b f e in omega arith;
  }

  -- A folder that none lists comes to be listed by its new parent.
  pub IsLinked-Attaches :
      (id : Text) (parent : Option Text) (x : Folder)
      → get id folders ≡ some x
      → ((a : Text) (f : Folder) → get a folders ≡ some f → listed id f.children ≡ 0)
      → Alters (Attaches id parent) folders folders'
      → IsLinked folders'
  IsLinked-Attaches id parent x there free k = record {
    linked = λ a b f' e' c.
        let (f, e, (par, cases)) = k.back a f' e' in
        elim (cases b) [
          | inl fewer ↦
              let (g, found, up) = h.linked a b f e (omega arith) in
              let (g', found') = k.on b g found in
              let (g0, found0, (par0, more)) = k.back b g' found' in
              let same : g0 ≡ g = ground arith in
              let apart : (b == id) ≡ false = other b f (free a f e) (omega arith) in
              let par1 : g'.parent_folder_id ≡ g0.parent_folder_id = rw apart at par0 in
              (g', found', par1 ∙ (rw same up))
          | inr (here, key, more) ↦
              let (x', found') = k.on id x there in
              let (x0, found0, (par0, more0)) = k.back id x' found' in
              let par1 : x'.parent_folder_id ≡ parent = rw (==_refl id) at par0 in
              rw key (x', found', par1 ∙ here)
        ];
    once = λ a b f' e'.
        let (f, e, (par, cases)) = k.back a f' e' in
        elim (cases b) [
          | inl fewer ↦ let few = h.once a b f e in omega arith
          | inr (here, key, more) ↦
              let none_yet = free a f e in let m = rw key at more in rw key (omega arith)
        ];
  }
    where
      other :
          (b : Text) (f : Folder)
          → listed id f.children ≡ 0
          → 1 ≤ listed b f.children
          → (b == id) ≡ false
      other b f none_yet c = elim (Bool-cases (b == id)) [
        | inl hit ↦
            let key : b ≡ id = eq_of_== b id hit in
            let c' : 1 ≤ listed id f.children = rw key at c in absurd (omega arith)
        | inr miss ↦ miss
      ]
