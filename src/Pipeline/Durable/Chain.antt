-- ===== src/Pipeline/Durable/Chain.antt =====
-- PersistentNativePipelineStore.ts: the states that come of a stored one by whole operations.
use bbmcp.Prelude.{◌≡◌, Option, none, some}
use bbmcp.Pipeline.Rows.{Row}
use bbmcp.Pipeline.Durable.{Codec, read_body, body_of}

-- From what is stored: read back, or new where nothing can be read; the very state that was stored;
-- and then by tags and by operations, each one whole, also one that throws.
pub data From (c : Codec) (stored : Option c.Stored) : c.Held → Type 0 where
  reloaded : {s : c.Held} → read_body c stored ≡ some s → From c stored s
  created : {s : c.Held} → read_body c stored ≡ none → s ≡ c.empty → From c stored s
  same : {s : c.Held} → stored ≡ some (c.serialize s) → From c stored s
  tagged : {s : c.Held} → From c stored s → From c stored (c.tag s).1
  acted :
      {s : c.Held} (operation : c.Operation) → From c stored s → From c stored (c.act operation s).1

-- A row that replaces another, if any: its state comes of the replaced one by whole operations.
pub record Extends (c : Codec) (old : Option (Row c.Stored)) (new : Row c.Stored) : Type 0 where
  pub state : c.Held
  pub from : From c (body_of c old) state
  pub written : new.body ≡ c.serialize state

-- The rows of an object on which operations are whole: each row extends the one before.
pub data Commits (c : Codec) (first : Option (Row c.Stored)) : Option (Row c.Stored) → Type 0 where
  start : Commits c first first
  commit :
      {old : Option (Row c.Stored)} {new : Row c.Stored}
      → Commits c first old
      → Extends c old new
      → Commits c first (some new)
