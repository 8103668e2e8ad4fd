-- ===== src/Pipeline/Tree/Edges.antt =====
-- projectTreeOps.ts: the folders as a graph, by the children that they list.
use bbmcp.Prelude.{◌≡◌, refl, List, [], ◌∷◌, Bool, true, false, ◌||◌, some, arith}
use bbmcp.Prelude.Text.{Text, includes}
use bbmcp.Prelude.Dict.{Dict, get}
use bbmcp.Pipeline.State.{ChildKind, folder, project, ChildRef, Folder}
use bbmcp.Pipeline.Tree.{is_ref}
use bbmcp.Pipeline.Tree.Walks.{push_folders}

abbrev pub has_child : Text → List ChildRef → Bool
has_child id [] = false
has_child id (child ∷ children) = is_ref folder id child || has_child id children

abbrev pub Edge : Dict Folder → Text → Text → Type 0
Edge folders a b = (f : Folder) × (get a folders ≡ some f) × (has_child b f.children ≡ true)

pub data Below (folders : Dict Folder) (c : Text) : Text → Type 0 where
  itself : Below folders c c
  under : {a b : Text} → Edge folders a b → Below folders c b → Below folders c a

-- Every way down from the folder ends.
pub data IsGrounded (folders : Dict Folder) : Text → Type 0 where
  grounded :
      {a : Text} → ((b : Text) → Edge folders a b → IsGrounded folders b) → IsGrounded folders a

pub includes-push_folders :
    (x : Text) (children : List ChildRef) (stack : List Text)
    → includes (push_folders children stack) x ≡ (has_child x children || includes stack x)
unfolding includes
includes-push_folders x [] stack = refl
includes-push_folders x (child ∷ children) stack =
    go child.kind refl (includes-push_folders x children stack)
      (includes-push_folders x children (child.id ∷ stack))
  where
    go :
        (k : ChildKind)
        → child.kind ≡ k
        → includes (push_folders children stack) x ≡ (has_child x children || includes stack x)
        → includes (push_folders children (child.id ∷ stack)) x
          ≡ (has_child x children || includes (child.id ∷ stack) x)
        → includes (push_folders (child ∷ children) stack) x
          ≡ (has_child x (child ∷ children) || includes stack x)
    go project e plain pushed = ground arith
    go folder e plain pushed = ground arith
