-- ===== src/Tests/Lease.antt =====
-- Two requests and the lease of a workspace, which lasts ten milliseconds.
use bbmcp.Prelude.{ℕ, ◌≡◌, refl, List, [], ◌∷◌, true, nat_eq, arith}
use bbmcp.Prelude.Text.{Text, text, ◌==◌, includes}
use bbmcp.Pipeline.Lease.{
  Event, passes, begins, looks, writes, confirms, leaves, frees, holding, advance, advance_all,
  start_world,
}
use bbmcp.Pipeline.Lease.Exclusive.{IsFair, advance_all-exclusive}

abbrev iso : ℕ → Text
iso n = text "t"

abbrev alice : Text
alice = text "a"

abbrev bob : Text
bob = text "b"

-- Request 0 has its turn and gives the lease back, while request 1 has to look twice.
abbrev turns : List Event
turns =
    begins 0 alice
    ∷ looks 0
    ∷ begins 1 bob
    ∷ writes 0
    ∷ confirms 0
    ∷ looks 1
    ∷ leaves 0
    ∷ passes 3
    ∷ frees 0
    ∷ looks 1
    ∷ writes 1
    ∷ confirms 1
    ∷ []

turns_end : (advance_all iso 10 turns (start_world 0)).tasks 1 ≡ holding bob 13
unfolding advance_all advance ◌==◌
turns_end = refl

turns-IsFair : IsFair iso 10 turns (start_world 0)
unfolding advance ◌==◌ includes
turns-IsFair = (
  refl,
  (
    tt,
    (refl, (tt, ((10, refl), (tt, ((λ row e. refl), (tt, (tt, (tt, (tt, ((13, refl), tt)))))))))),
  ),
)

turns_now : (advance_all iso 10 turns (start_world 0)).now ≡ 3
unfolding advance_all advance ◌==◌
turns_now = refl

advance_all-exclusive_example : nat_eq 1 1 ≡ true
advance_all-exclusive_example =
    advance_all-exclusive iso 10 turns 0 turns-IsFair 1 1 bob bob 13 13 turns_end turns_end
      (rw turns_now (omega arith)) (rw turns_now (omega arith))

-- Request 0 writes its lease again because it confirms it too late, under the same revision; request
-- 1 has seen the first one run out, and its write is taken. Both work at once.
abbrev late : List Event
late =
    begins 0 alice
    ∷ looks 0
    ∷ writes 0
    ∷ passes 20
    ∷ begins 1 bob
    ∷ looks 1
    ∷ confirms 0
    ∷ looks 0
    ∷ writes 0
    ∷ confirms 0
    ∷ writes 1
    ∷ confirms 1
    ∷ []

late_first : (advance_all iso 10 late (start_world 0)).tasks 0 ≡ holding alice 30
unfolding advance_all advance ◌==◌
late_first = refl

late_second : (advance_all iso 10 late (start_world 0)).tasks 1 ≡ holding bob 30
unfolding advance_all advance ◌==◌
late_second = refl
