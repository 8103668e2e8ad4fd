-- ===== src/Pipeline/Projects/Folders/Listing.antt =====
-- projectTreeOps.ts: a child goes among those of its parent, and what that does to the links of a
-- table.
use bbmcp.Prelude.{
  ℕ, zero, suc, ◌+◌, ◌≡◌, ◌≤◌, refl, ◌∙◌, ◌⊎◌, inl, inr, List, [], ◌∷◌, false, Option, some,
  if◌then◌else◌, arith, Bool-cases,
}
use bbmcp.Prelude.Text.{Text, ◌==◌, eq_of_==, ==_refl}
use bbmcp.Prelude.Dict.{get, get-set, get-set_other}
use bbmcp.Prelude.Number.{Number}
use bbmcp.Pipeline.Model.{ok}
use bbmcp.Pipeline.State.{folder, project, ChildRef, Folder}
use bbmcp.Pipeline.Tree.{
  Places, is_ref, find_container_children, put_container_children, insert_at, insert_child_ref,
}
use bbmcp.Pipeline.Projects.Folders.{set_parent}
use bbmcp.Pipeline.Projects.Folders.Attaching.{entry_of, non_empty-some}
use bbmcp.Pipeline.Projects.Folders.Links.{listed, Alters, Shrinks, Attaches}
use bbmcp.Pipeline.Projects.Folders.Unlisting.{put-Alters}

listed-insert_at :
    (b : Text) (n : ℕ) (entry : ChildRef) (children : List ChildRef)
    → listed b (insert_at n entry children)
      ≡ (if is_ref folder b entry then 1 else 0) + listed b children
unfolding insert_at
listed-insert_at b zero entry children = refl
listed-insert_at b (suc n) entry [] = refl
listed-insert_at b (suc n) entry (x ∷ xs) = let k = listed-insert_at b n entry xs in omega arith

listed-insert_child_ref :
    (b : Text) (children : List ChildRef) (entry : ChildRef) (index : Option Number)
    → listed b (insert_child_ref children entry index)
      ≡ (if is_ref folder b entry then 1 else 0) + listed b children
unfolding insert_child_ref
listed-insert_child_ref b children entry index = listed-insert_at b _ entry children

-- A container may list one folder once more; the parents stay.
abbrev Lists : Text → Option Text → Text → Folder → Folder → Type 0
Lists id parent a f f' =
    (f'.parent_folder_id ≡ f.parent_folder_id)
    × ((b : Text)
        → (listed b f'.children ≤ listed b f.children)
          ⊎ ((parent ≡ some a) × (b ≡ id) × (listed b f'.children ≤ suc (listed b f.children))))

insert_folder-Lists :
    (at : Places) (parent : Option Text) (children : List ChildRef) (id : Text)
    (index : Option Number)
    → find_container_children at parent ≡ ok children
    → Alters
        (Lists id parent)
        at.0
        (put_container_children at parent (insert_child_ref children (entry_of id) index)).0
insert_folder-Lists at parent children id index e =
    put-Alters (Lists id parent) at parent children (insert_child_ref children (entry_of id) index)
      e
      (λ a f inside old. (
        refl,
        λ b.
            let more = listed-insert_child_ref b children (entry_of id) index in
            elim (Bool-cases (id == b)) [
              | inl hit ↦
                  let key : id ≡ b = eq_of_== id b hit in
                  let one = rw hit at more in
                  inr ((non_empty-some parent a inside).0, rw (← key) refl, rw old (omega arith))
              | inr miss ↦ let none_more = rw miss at more in inl (rw old (omega arith))
            ],
      ))
      (λ a f. (refl, λ b. inl (omega arith)))

pub insert_project-Shrinks :
    (at : Places) (parent : Option Text) (children : List ChildRef) (id : Text)
    (index : Option Number)
    → find_container_children at parent ≡ ok children
    → Alters Shrinks at.0
        (put_container_children at parent
          (insert_child_ref children (record { kind = project; id = id }) index)).0
insert_project-Shrinks at parent children id index e =
    let entry : ChildRef = record { kind = project; id = id } in
    put-Alters Shrinks at parent children (insert_child_ref children entry index) e
      (λ a f inside old. (
        refl,
        λ b. let same = listed-insert_child_ref b children entry index in rw old (omega arith),
      ))
      (λ a f. (refl, λ b. omega arith))

-- A folder that has its parent already goes among the children there.
pub insert_folder-Attaches :
    (at : Places) (parent : Option Text) (children : List ChildRef) (id : Text)
    (index : Option Number) (x : Folder)
    → find_container_children at parent ≡ ok children
    → get id at.0 ≡ some x
    → x.parent_folder_id ≡ parent
    → Alters
        (Attaches id parent)
        at.0
        (put_container_children at parent (insert_child_ref children (entry_of id) index)).0
insert_folder-Attaches at parent children id index x e there up =
    let put = insert_folder-Lists at parent children id index e in
    record {
      back = λ a f' e'.
          let (f, found, (par, cases)) = put.back a f' e' in
          elim (Bool-cases (a == id)) [
            | inl hit ↦
                let key : a ≡ id = eq_of_== a id hit in
                let here : get id at.0 ≡ some f = rw key at found in
                let same : f ≡ x = ground arith in (f, found, (rw hit (par ∙ (rw same up)), cases))
            | inr miss ↦ (f, found, (rw miss par, cases))
          ];
      on = put.on;
    }

-- One that goes there first gets its parent behind that.
pub insert_set_parent-Attaches :
    (at : Places) (parent : Option Text) (children : List ChildRef) (id : Text)
    (index : Option Number) (x : Folder)
    → find_container_children at parent ≡ ok children
    → get id at.0 ≡ some x
    → Alters (Attaches id parent) at.0 (
        set_parent id parent
          (put_container_children at parent (insert_child_ref children (entry_of id) index)).0)
insert_set_parent-Attaches at parent children id index x e there =
    let folders =
      (put_container_children at parent (insert_child_ref children (entry_of id) index)).0 in
    let put = insert_folder-Lists at parent children id index e in
    let (y, found) = put.on id x there in
    let y' : Folder = record y { parent_folder_id = parent } in
    rw (set_parent, found)
      (record {
        back = λ a f' e'. elim (Bool-cases (id == a)) [
          | inl hit ↦
              let key : id ≡ a = eq_of_== id a hit in
              let one : f' ≡ y' = ground (arith, get-set id a y' folders) in
              let (f, found0, (par, cases)) = put.back id y found in
              rw (← key, one) (f, found0, (rw (==_refl id) refl, cases))
          | inr miss ↦
              let old : get a folders ≡ some f' =
                ground (arith, get-set_other id a y' folders miss) in
              let (f, found0, (par, cases)) = put.back a f' old in
              (f, found0, (rw (not_same a miss) par, cases))
        ];
        on = λ a f e'.
            let (f1, found1) = put.on a f e' in
            elim (Bool-cases (id == a)) [
              | inl hit ↦ (y', rw (get-set id a y' folders, hit) refl)
              | inr miss ↦ (f1, rw (get-set_other id a y' folders miss) found1)
            ];
      })
  where
    not_same : (a : Text) → (id == a) ≡ false → (a == id) ≡ false
    not_same a miss = elim (Bool-cases (a == id)) [
      | inl hit ↦
          let key : a ≡ id = eq_of_== a id hit in
          let again : (id == id) ≡ false = rw key at miss in let self = ==_refl id in cc
      | inr other ↦ other
    ]
