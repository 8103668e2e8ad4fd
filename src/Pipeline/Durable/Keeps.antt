-- ===== src/Pipeline/Durable/Keeps.antt =====
-- PersistentNativePipelineStore.ts: what holds of the row, the caches and the tasks between two steps.
use bbmcp.Prelude.{ℕ, ◌+◌, ◌≡◌, ◌<◌, inl, inr, false, Option, none, some, arith, nat_eq, Bool-cases}
use bbmcp.Prelude.Text.{Text}
use bbmcp.Pipeline.Rows.{Row}
use bbmcp.Pipeline.Durable.{
  Codec, Cached, update, Task, idle, found, saving, ready, World, set_task, set_object, new_object,
}
use bbmcp.Pipeline.Durable.Chain.{From}

-- Two stored values with one revision are the same: no two texts with one digest come up.
abbrev pub Collisionless : Codec → Type 0
Collisionless c = (d e : c.Stored) → c.revision_of d ≡ c.revision_of e → d ≡ e

abbrev pub revision_of_option : (c : Codec) → Option c.Stored → Option Text
revision_of_option c none = none
revision_of_option c (some d) = some (c.revision_of d)

module _ (c : Codec) where
  -- A row carries the revision of its body.
  abbrev pub Sealed : Row c.Stored → Type 0
  Sealed row = row.revision ≡ c.revision_of row.body

  abbrev pub SealedRow : Option (Row c.Stored) → Type 0
  SealedRow none = Unit
  SealedRow (some row) = Sealed row

  -- The objects in being are those below a number.
  module _ (objects : ℕ → c.Held) (next : ℕ) where
    -- An object of a cache comes of what is stored under the cache's revision.
    pub record IsCache (cached : Cached) : Type 0 where
      pub stored : c.Stored
      pub revised : cached.revision ≡ c.revision_of stored
      pub from : From c (some stored) (objects cached.object)
      pub old : cached.object < next

    -- A row on its way comes of a base, whose revision it expects.
    pub record IsSaving (object : ℕ) (expected : Option Text) (row : Row c.Stored) : Type 0 where
      pub base : Option c.Stored
      pub expects : expected ≡ revision_of_option c base
      pub state : c.Held
      pub extends : From c base state
      pub written : row.body ≡ c.serialize state
      pub sealed : Sealed row
      pub held : From c (some row.body) (objects object)
      pub old : object < next

    abbrev pub IsTask : Task c → Type 0
    IsTask idle = Unit
    IsTask (found process row) = SealedRow row
    IsTask (saving process object expected row reading) = IsSaving object expected row
    IsTask (ready object) = object < next

    pub record IsGood (row : Option (Row c.Stored)) (caches : ℕ → Option Cached)
        (tasks : ℕ → Task c) : Type 0 where
      pub sealed : SealedRow row
      pub cached : (p : ℕ) (x : Cached) → caches p ≡ some x → IsCache x
      pub at_work : (t : ℕ) → IsTask (tasks t)

  abbrev pub Good : World c → Type 0
  Good w = IsGood w.objects w.next_object w.row w.caches w.tasks

  -- Objects that stay in being, each with what it came of.
  pub record Grows (objects : ℕ → c.Held) (next : ℕ) (objects' : ℕ → c.Held) (next' : ℕ)
      : Type 0 where
    pub more : (o : ℕ) → o < next → o < next'
    pub moves :
        (o : ℕ) (d : Option c.Stored) → o < next → From c d (objects o) → From c d (objects' o)

  module _ {objects : ℕ → c.Held} {next : ℕ} {objects' : ℕ → c.Held} {next' : ℕ}
      (g : Grows objects next objects' next') where
    IsCache-Grows : (cached : Cached) → IsCache objects next cached → IsCache objects' next' cached
    IsCache-Grows cached h = record {
      stored = h.stored;
      revised = h.revised;
      from = g.moves cached.object (some h.stored) h.old h.from;
      old = g.more cached.object h.old;
    }

    IsTask-Grows : (task : Task c) → IsTask objects next task → IsTask objects' next' task
    IsTask-Grows idle h = tt
    IsTask-Grows (found process row) h = h
    IsTask-Grows (ready object) h = g.more object h
    IsTask-Grows (saving process object expected row reading) h = record {
      base = h.base;
      expects = h.expects;
      state = h.state;
      extends = h.extends;
      written = h.written;
      sealed = h.sealed;
      held = g.moves object (some row.body) h.old h.held;
      old = g.more object h.old;
    }

    pub IsGood-Grows :
        (row : Option (Row c.Stored)) (caches : ℕ → Option Cached) (tasks : ℕ → Task c)
        → IsGood objects next row caches tasks
        → IsGood objects' next' row caches tasks
    IsGood-Grows row caches tasks h = record {
      sealed = h.sealed;
      cached = λ p x e. IsCache-Grows x (h.cached p x e);
      at_work = λ t. IsTask-Grows (tasks t) (h.at_work t);
    }

  -- An object changes by a tag or an operation, or a new one comes.
  set_object-Grows :
      (o : ℕ) (s : c.Held) (w : World c)
      → ((d : Option c.Stored) → From c d (w.objects o) → From c d s)
      → Grows w.objects w.next_object (set_object c o s w).objects w.next_object
  set_object-Grows o s w step = record {
    more = λ x h. h;
    moves = λ x d h f. elim (Bool-cases (nat_eq o x)) [
      | inl hit ↦ let key : o ≡ x = ground arith in rw hit (step d (rw key f))
      | inr miss ↦ rw miss f
    ];
  }

  new_object-Grows :
      (s : c.Held) (w : World c)
      → Grows w.objects w.next_object (new_object c s w).objects (w.next_object + 1)
  new_object-Grows s w = record {
    more = λ x h. omega arith;
    moves = λ x d h f. let miss : nat_eq w.next_object x ≡ false = ground arith in rw miss f;
  }

  pub set_object-Good :
      (o : ℕ) (s : c.Held) (w : World c)
      → ((d : Option c.Stored) → From c d (w.objects o) → From c d s)
      → Good w
      → Good (set_object c o s w)
  set_object-Good o s w step h = IsGood-Grows (set_object-Grows o s w step) w.row w.caches w.tasks h

  pub new_object-Good : (s : c.Held) (w : World c) → Good w → Good (new_object c s w)
  new_object-Good s w h = IsGood-Grows (new_object-Grows s w) w.row w.caches w.tasks h

  pub set_task-Good :
      (t : ℕ) (task : Task c) (w : World c)
      → IsTask w.objects w.next_object task
      → Good w
      → Good (set_task c t task w)
  set_task-Good t task w new h = record {
    sealed = h.sealed;
    cached = h.cached;
    at_work = λ j. elim (Bool-cases (nat_eq t j)) [
      | inl hit ↦ rw hit new
      | inr miss ↦ rw miss (h.at_work j)
    ];
  }

  pub set_cache-Good :
      (p : ℕ) (cached : Option Cached) (w : World c)
      → ((x : Cached) → cached ≡ some x → IsCache w.objects w.next_object x)
      → Good w
      → Good (record w { caches = update p cached w.caches })
  set_cache-Good p cached w new h = record {
    sealed = h.sealed;
    cached = λ q x e. elim (Bool-cases (nat_eq p q)) [
      | inl hit ↦ new x (ground arith)
      | inr miss ↦ h.cached q x (ground arith)
    ];
    at_work = h.at_work;
  }
