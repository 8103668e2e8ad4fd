-- ===== src/Tests/Durable.antt =====
-- Two processes at the store of one workspace, whose state is a list of notes and is tagged at once.
use bbmcp.Prelude.{◌≡◌, refl, Bool, true, false, List, [], ◌∷◌, ◌++◌, none, some, if◌then◌else◌}
use bbmcp.Prelude.Text.{Text, text, ◌==◌}
use bbmcp.Pipeline.Model.{stamp}
use bbmcp.Pipeline.Durable.{
  Codec, idle, World, Event, finds, mutates, opens, saves, revision_in, advance, advance_all,
}
use bbmcp.Pipeline.Durable.Chain.{Commits}
use bbmcp.Pipeline.Durable.Keeps.{Collisionless, Good}
use bbmcp.Pipeline.Durable.Commits.{advance_all-Commits}

abbrev Notes : Type 0
Notes = Bool × Text

-- A text is its own digest. The operation of the empty text throws.
abbrev add_note : Text → Notes → Bool × Notes
add_note [] s = (false, s)
add_note (x ∷ note) s = (true, (s.0, s.1 ++ (x ∷ note)))

abbrev notes : Codec
notes = record {
  Held = Notes;
  Stored = Text;
  Operation = Text;
  serialize = λ s. s.1;
  deserialize = λ d. some (false, d);
  revision_of = λ d. d;
  empty = (false, text "-");
  tag = λ s. (if s.0 then false else true, (true, s.1));
  act = add_note;
}

abbrev new_world : World notes
new_world = record {
  row = none;
  objects = λ o. (false, []);
  next_object = 0;
  caches = λ p. none;
  tasks = λ t. idle;
}

-- Process 0 writes "a"; process 1 reads and so tags; then both have read the same row: process 1
-- writes "b", process 0 from its older cache writes "c", and is refused.
abbrev race : List (Event notes)
race =
    finds 0 0
    ∷ mutates 0 (text "a") (stamp 1)
    ∷ saves 0
    ∷ finds 1 1
    ∷ opens 1 true (stamp 2)
    ∷ saves 1
    ∷ finds 1 1
    ∷ finds 0 0
    ∷ mutates 1 (text "b") (stamp 3)
    ∷ mutates 0 (text "c") (stamp 4)
    ∷ saves 1
    ∷ saves 0
    ∷ []

race_ends : revision_in notes (advance_all notes true race new_world).row ≡ some (text "-ab")
unfolding advance_all advance ◌==◌
race_ends = refl

-- The same race over a repository that does not compare revisions: "b" is lost.
race_unguarded : revision_in notes (advance_all notes false race new_world).row ≡ some (text "-ac")
unfolding advance_all advance ◌==◌
race_unguarded = refl

digests : Collisionless notes
digests d e h = h

new_world-Good : Good notes new_world
new_world-Good = record { sealed = tt; cached = λ p x e. cc; at_work = λ t. tt }

advance_all-Commits_example : Commits notes none (advance_all notes true race new_world).row
advance_all-Commits_example = advance_all-Commits notes digests race new_world new_world-Good
