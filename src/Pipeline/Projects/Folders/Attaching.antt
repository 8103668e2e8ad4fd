-- ===== src/Pipeline/Projects/Folders/Attaching.antt =====
-- projectTreeOps.ts: a folder goes among the children of another, and the table stays a acyclic.
use bbmcp.Prelude.{
  ◌≡◌, refl, inl, inr, List, true, false, Option, none, some, arith, Bool-cases, Option-cases,
}
use bbmcp.Prelude.Text.{Text, eq_of_==, is_empty}
use bbmcp.Prelude.Number.{Number}
use bbmcp.Pipeline.Model.{ok}
use bbmcp.Pipeline.State.{folder, ChildRef, State, non_empty}
use bbmcp.Pipeline.Tree.{
  Places, is_ref, find_container_children, put_container_children, insert_child_ref,
}
use bbmcp.Pipeline.Tree.Edges.{Below}
use bbmcp.Pipeline.Projects.Folders.Acyclic.{
  IsAcyclic, NoneNew, Changes-mono, IsAcyclic-Thins, IsAcyclic-link,
}
use bbmcp.Pipeline.Projects.Folders.Keeps.{insert-Changes}

-- What an operation leaves where its loops end.
abbrev pub Leaves {ℓ} : {A : Type ℓ} → (State → Type 0) → Option (A × State) → Type 0
Leaves P none = Unit
Leaves P (some (a, s)) = P s

abbrev pub Acyclic : State → Type 0
Acyclic s = IsAcyclic s.folders

abbrev pub entry_of : Text → ChildRef
entry_of id = record { kind = folder; id = id }

is_ref-entry_of : (id b : Text) → is_ref folder b (entry_of id) ≡ true → b ≡ id
is_ref-entry_of id b h = rw (eq_of_== id b h) refl

pub non_empty-some :
    (parent : Option Text) (p : Text)
    → non_empty parent ≡ some p
    → (parent ≡ some p) × (is_empty p ≡ false)
non_empty-some none p e = cc
non_empty-some (some q) p e = elim (Bool-cases (is_empty q)) [
  | inl blank ↦ absurd (ground arith)
  | inr filled ↦ let same : q ≡ p = ground arith in (rw same refl, rw same at filled)
]

pub insert_folder-IsAcyclic :
    (at : Places) (parent : Option Text) (children : List ChildRef) (id : Text)
    (index : Option Number)
    → IsAcyclic at.0
    → find_container_children at parent ≡ ok children
    → ((p : Text) → non_empty parent ≡ some p → ¬ Below at.0 p id)
    → IsAcyclic (put_container_children at parent (insert_child_ref children (entry_of id) index)).0
insert_folder-IsAcyclic at parent children id index h e apart =
    let made = insert-Changes at parent children (entry_of id) index e in
    elim (Option-cases (non_empty parent)) [
      | inl top ↦
          IsAcyclic-Thins at.0 _ h
            (Changes-mono at.0 _ NoneNew _ (λ a b (inside, new). absurd cc) made)
      | inr (p, inside) ↦ IsAcyclic-link at.0 _ h p id (apart p inside) (
          Changes-mono at.0 _ (λ a b. (a ≡ p) × (b ≡ id)) _
            (λ a b (here, new). (ground arith, is_ref-entry_of id b new)) made)
    ]
