-- ===== src/Pipeline/Model.antt =====
-- packages/native-pipeline/src/types.ts: what a project shows of its model, and the outcome of the
-- operations, which may throw. The text of an error's message is left out.
use bbmcp.Prelude.{ℕ, List, Bool, Option, none, some}
use bbmcp.Prelude.Text.{Text}
use bbmcp.Prelude.Number.{Number}

pub data NodeKind : Type 0 where
  bone cube : NodeKind

-- `node id name kind children`.
mutual
  pub data HierarchyNode : Type 0 where
    node : Text → Text → NodeKind → HierarchyNodes → HierarchyNode

  pub data HierarchyNodes : Type 0 where
    leaf : HierarchyNodes
    branch : HierarchyNode → HierarchyNodes → HierarchyNodes

pub data FaceDirection : Type 0 where
  north east south west up down : FaceDirection

pub record Animation : Type 0 where
  pub id : Text
  pub name : Text
  pub duration : Number
  pub loop : Bool

pub record TextureFaceSource : Type 0 where
  pub face_id : Text
  pub cube_id : Text
  pub cube_name : Text
  pub direction : FaceDirection
  pub color_hex : Text
  pub rotation_quarter : ℕ

pub record AtlasFace : Type 0 where
  pub face_id : Text
  pub cube_id : Text
  pub cube_name : Text
  pub direction : FaceDirection
  pub rotation_quarter : ℕ
  pub u_min : Number
  pub v_min : Number
  pub u_max : Number
  pub v_max : Number

pub record UvEdge : Type 0 where
  pub x1 : Number
  pub y1 : Number
  pub x2 : Number
  pub y2 : Number

pub record TextureAtlas : Type 0 where
  pub texture_id : Text
  pub name : Text
  pub width : Number
  pub height : Number
  pub face_count : Number
  pub image_data_url : Text
  pub faces : List AtlasFace
  pub uv_edges : List UvEdge

-- A point in time as the sources store it: `stamp t` is the text that `toISOString` prints for the
-- millisecond `t`, which `Date.parse` reads back; `unreadable s` is a text, not empty, that
-- `Date.parse` answers with `NaN`.
pub data Timestamp : Type 0 where
  stamp : ℕ → Timestamp
  unreadable : Text → Timestamp

-- `Date.parse`, with `none` for `NaN`.
abbrev pub parse_date : Timestamp → Option ℕ
parse_date (stamp t) = some t
parse_date (unreadable s) = none

pub data Error : Type 0 where
  workspace_required job_contract : Error
  owner_required folder_not_found depth_exceeded hierarchy_cycle traversal_overflow : Error
  move_into_self move_into_descendant : Error
  lock_conflict : Text → Text → Option Text → Timestamp → Error

pub data Result {ℓ} (A : Type ℓ) : Type ℓ where
  ok : A → Result A
  throw : Error → Result A

infixl 5 ◌>>=◌ ◌>>◌
abbrev pub ◌>>=◌ {ℓ κ} : {A : Type ℓ} {B : Type κ} → Result A → (A → Result B) → Result B
ok a >>= f = f a
throw e >>= f = throw e

abbrev pub ◌>>◌ {ℓ} : {B : Type ℓ} → Result (Unit {0}) → Result B → Result B
m >> k = m >>= λ _. k

abbrev pub require : Bool → Error → Result (Unit {0})
require Bool.true e = ok tt
require Bool.false e = throw e
