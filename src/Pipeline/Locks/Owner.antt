-- ===== src/Pipeline/Locks/Owner.antt =====
-- projectLockRepository.ts: who holds a lock.
pub mod Sessions
use bbmcp.Prelude.{Bool, true, false, ◌&&◌, Option, none, some, if◌then◌else◌, take}
use bbmcp.Prelude.Text.{Text, ◌==◌, trim, is_empty}
use bbmcp.Pipeline.Model.{Result, ok, throw, owner_required}
use bbmcp.Pipeline.State.{Lock}

unfoldable pub same_session : Option Text → Option Text → Bool
same_session none none = true
same_session none (some t) = false
same_session (some s) none = false
same_session (some s) (some t) = s == t

unfoldable pub is_same_owner : Lock → Text → Option Text → Bool
unfolding same_session
is_same_owner lock agent session =
    lock.owner_agent_id == agent && same_session lock.owner_session_id session

unfoldable pub normalize_owner_agent_id : Text → Result Text
normalize_owner_agent_id value =
    let trimmed = trim value in
    if is_empty trimmed then throw owner_required else ok (take 128 trimmed)

unfoldable pub normalize_owner_session_id : Option Text → Option Text
normalize_owner_session_id none = none
normalize_owner_session_id (some value) =
    let trimmed = trim value in if is_empty trimmed then none else some (take 128 trimmed)
