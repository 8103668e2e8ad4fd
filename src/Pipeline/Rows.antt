-- ===== src/Pipeline/Rows.antt =====
-- packages/gateway-persistence/src/infrastructure/sql/projectStateStore.ts: what its SQL statements
-- do to the row of one scope. A row is stored as it is given, but for the time of its creation.
use bbmcp.Prelude.{Bool, true, false, Option, none, some, if◌then◌else◌}
use bbmcp.Prelude.Text.{Text, ◌==◌}
use bbmcp.Pipeline.Model.{Timestamp}

pub record Row (B : Type 0) : Type 0 where
  pub revision : Text
  pub body : B
  pub created_at : Timestamp
  pub updated_at : Timestamp

module _ {B : Type 0} where
  -- `INSERT … ON CONFLICT … DO UPDATE`.
  unfoldable pub save : Row B → Option (Row B) → Option (Row B)
  save row none = some row
  save row (some old) = some (record row { created_at = old.created_at })

  -- The row is inserted where none is expected and there is none; it is updated where the stored
  -- revision is the expected one. The answer tells whether a row has changed.
  unfoldable pub save_if_revision : Row B → Option Text → Option (Row B) → Bool × Option (Row B)
  save_if_revision row none none = (true, some row)
  save_if_revision row none (some old) = (false, some old)
  save_if_revision row (some expected) none = (false, none)
  save_if_revision row (some expected) (some old) =
      if old.revision == expected
      then (true, some (record row { created_at = old.created_at }))
      else (false, some old)
