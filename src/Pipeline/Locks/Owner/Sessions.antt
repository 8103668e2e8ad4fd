-- ===== src/Pipeline/Locks/Owner/Sessions.antt =====
-- projectLockRepository.ts: what the comparisons of owners and sessions decide.
use bbmcp.Prelude.{◌≡◌, refl, true, Option, none, some, ap, arith}
use bbmcp.Prelude.Text.{Text, ==_iff, eq_of_==}
use bbmcp.Pipeline.State.{Lock}
use bbmcp.Pipeline.Locks.Owner.{same_session, is_same_owner}

pub eq_of_same_session : (s t : Option Text) → same_session s t ≡ true → s ≡ t
unfolding same_session
eq_of_same_session none none h = refl
eq_of_same_session none (some t) h = cc
eq_of_same_session (some s) none h = cc
eq_of_same_session (some s) (some t) h = ap some (eq_of_== s t h)

pub eq_of_is_same_owner :
    (lock : Lock) (agent : Text) (session : Option Text)
    → is_same_owner lock agent session ≡ true
    → (lock.owner_agent_id ≡ agent) × (lock.owner_session_id ≡ session)
unfolding is_same_owner
eq_of_is_same_owner lock agent session h = (
  ground (arith, ==_iff lock.owner_agent_id agent),
  eq_of_same_session lock.owner_session_id session (ground arith),
)
