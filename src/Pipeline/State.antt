-- ===== src/Pipeline/State.antt =====
-- packages/native-pipeline/src/types.ts, state.ts and clone.ts: projects, jobs, locks, folders,
-- events, and the state of a workspace that holds them.
pub mod Ids
pub mod Throwing
use bbmcp.Prelude.{
  ℕ, zero, suc, ◌+◌, ◌-◌, ◌/◌, ◌%◌, List, [], ◌∷◌, ◌++◌, Bool, Option, none, some, if◌then◌else◌,
  ltb, length,
}
use bbmcp.Prelude.Text.{Text, text, trim, is_empty}
use bbmcp.Prelude.Dict.{Dict}
use bbmcp.Prelude.Number.{Number}
use bbmcp.Pipeline.Model.{
  HierarchyNodes, Animation, TextureFaceSource, TextureAtlas, Timestamp, Result, ok, throw,
  workspace_required,
}
use bbmcp.Pipeline.Contracts.{JobBody}

pub data JobStatus : Type 0 where
  queued running completed failed : JobStatus

pub data ChildKind : Type 0 where
  folder project : ChildKind

pub record ChildRef : Type 0 where
  pub kind : ChildKind
  pub id : Text

pub record Folder : Type 0 where
  pub folder_id : Text
  pub name : Text
  pub parent_folder_id : Option Text
  pub children : List ChildRef

-- The field `mode` of the source has one value only and is left out.
pub record Lock : Type 0 where
  pub owner_agent_id : Text
  pub owner_session_id : Option Text
  pub token : Text
  pub acquired_at : Timestamp
  pub heartbeat_at : Timestamp
  pub expires_at : Timestamp

pub record Stats : Type 0 where
  pub bones : ℕ
  pub cubes : ℕ

pub record ActiveJob : Type 0 where
  pub id : Text
  pub status : JobStatus

pub record Project : Type 0 where
  pub project_id : Text
  pub workspace_id : Option Text
  pub name : Text
  pub parent_folder_id : Option Text
  pub revision : ℕ
  pub has_geometry : Bool
  pub focus_anchor : Option (Number × Number × Number)
  pub hierarchy : HierarchyNodes
  pub animations : List Animation
  pub stats : Stats
  pub texture_sources : List TextureFaceSource
  pub textures : List TextureAtlas
  pub project_lock : Option Lock
  pub active_job : Option ActiveJob

-- An absent `deadLetter` is `false`.
pub record Job : Type 0 where
  pub id : Text
  pub project_id : Text
  pub status : JobStatus
  pub attempt_count : ℕ
  pub max_attempts : ℕ
  pub lease_ms : ℕ
  pub created_at : Timestamp
  pub started_at : Option Timestamp
  pub lease_expires_at : Option Timestamp
  pub next_retry_at : Option Timestamp
  pub completed_at : Option Timestamp
  pub worker_id : Option Text
  pub error : Option Text
  pub dead_letter : Bool
  pub body : JobBody

pub record Event : Type 0 where
  pub seq : ℕ
  pub snapshot : Project

pub record State : Type 0 where
  pub workspace_id : Text
  pub projects : Dict Project
  pub folders : Dict Folder
  pub root_children : List ChildRef
  pub jobs : Dict Job
  pub queued_job_ids : List Text
  pub project_locks : Dict Lock
  pub project_events : Dict (List Event)
  pub next_job_id : ℕ
  pub next_entity_nonce : ℕ
  pub next_seq : ℕ

-- The maps and counters of a new workspace.
abbrev pub empty_state : Text → State
empty_state workspace_id = record {
  workspace_id = workspace_id;
  projects = [];
  folders = [];
  root_children = [];
  jobs = [];
  queued_job_ids = [];
  project_locks = [];
  project_events = [];
  next_job_id = 1;
  next_entity_nonce = 1;
  next_seq = 1;
}

unfoldable pub create_native_pipeline_state : Text → Result State
create_native_pipeline_state workspace_id =
    let normalized = trim workspace_id in
    if is_empty normalized then throw workspace_required else ok (empty_state normalized)

unfoldable pub reset_native_pipeline_state : State → State
reset_native_pipeline_state s = empty_state s.workspace_id

-- `x ? { key: x } : {}`, for a text.
abbrev pub non_empty : Option Text → Option Text
non_empty none = none
non_empty (some s) = if is_empty s then none else some s

unfoldable pub clone_project : Project → Project
clone_project p = record p { workspace_id = non_empty p.workspace_id }

unfoldable pub clone_job : Job → Job
clone_job j = record j { worker_id = non_empty j.worker_id; error = non_empty j.error }

-- `String(n)`: the digits of `n` before those of `behind`; the fuel `suc n` is enough.
unfoldable pub digits : ℕ → ℕ → Text → Text
digits zero n behind = behind
digits (suc fuel) n behind =
    let rest = digits fuel (n / 10) ((48 + n % 10) ∷ behind) in
    if ltb n 10 then (48 + n) ∷ behind else rest

unfoldable pub decimal : ℕ → Text
unfolding digits
decimal n = digits (suc n) n []

abbrev pub replicate : ℕ → ℕ → Text
replicate zero c = []
replicate (suc n) c = c ∷ replicate n c

-- `s.padStart(6, '0')`.
unfoldable pub pad_start_6 : Text → Text
pad_start_6 s = replicate (6 - length s) b'0' ++ s

unfoldable pub job_id : ℕ → Text
unfolding decimal pad_start_6
job_id n = text "job-" ++ pad_start_6 (decimal n)

-- The identifier, and the state with the counter advanced.
unfoldable pub allocate_native_job_id : State → Text × State
unfolding job_id
allocate_native_job_id s = (job_id s.next_job_id, record s { next_job_id = s.next_job_id + 1 })

unfoldable pub allocate_event_seq : State → ℕ × State
allocate_event_seq s = (s.next_seq, record s { next_seq = s.next_seq + 1 })
