-- ===== src/Pipeline/Projects/Editing.antt =====
-- projectRepository.ts: `getProject`, `renameProject`, `moveProject` and `deleteProject`.
pub mod Deleting
pub mod Moving
use bbmcp.Prelude.{
  ℕ, ◌+◌, List, [], ◌∷◌, Bool, true, false, ◌&&◌, not, Option, none, some, if◌then◌else◌, take,
  keep_if, is_some,
}
use bbmcp.Prelude.Text.{Text, ◌==◌, trim, is_empty, is_space}
use bbmcp.Prelude.Dict.{Dict, get, has, delete}
use bbmcp.Prelude.Number.{Number}
use bbmcp.Pipeline.Model.{Result, ok, throw}
use bbmcp.Pipeline.State.{project, ChildRef, Job, Project, State, clone_project}
use bbmcp.Pipeline.Sync.{synchronize_project_snapshot}
use bbmcp.Pipeline.Tree.{
  Places, normalize_parent_folder_id, find_container_children, put_container_children,
  insert_child_ref, resolve_reorder_insert_index, detach_from_parent, ensure_target_folder_exists,
}
use bbmcp.Pipeline.Projects.{store_project}

abbrev clone_found : Option Project → Option Project
clone_found none = none
clone_found (some p) = some (clone_project p)

unfoldable pub get_project : State → Text → Option Project
get_project s id = clone_found (get id s.projects)

-- `replace(/\s+/g, ' ')`; the first argument tells whether white space stands before.
unfoldable pub collapse_spaces : Bool → Text → Text
collapse_spaces run [] = []
collapse_spaces run (c ∷ s) =
    let inside = collapse_spaces true s in
    let outside = collapse_spaces false s in
    if is_space c then if run then inside else b' ' ∷ inside else c ∷ outside

unfoldable pub normalize_name : Text → Text → Text
unfolding collapse_spaces
normalize_name value fallback =
    let trimmed = collapse_spaces false (trim value) in
    if is_empty trimmed then fallback else take 96 trimmed

-- A project that has been changed: brought up to date, with the next revision.
abbrev pub revised : Project → Project
revised p =
    let synced = synchronize_project_snapshot p in record synced { revision = synced.revision + 1 }

unfoldable pub rename_project : Text → Text → State → Option Project × State
unfolding normalize_name
rename_project id next_name s = elim (get id s.projects) [
  | none ↦ (none, s)
  | some p ↦
      let p' = revised (record p { name = normalize_name next_name p.name }) in
      (some (clone_project p'), store_project id p' s)
]

abbrev pub same_parent : Option Text → Option Text → Bool
same_parent none none = true
same_parent none (some b) = false
same_parent (some a) none = false
same_parent (some a) (some b) = a == b

abbrev pub places : State → Places
places s = (s.folders, s.root_children)

abbrev pub with_places : State → Places → State
with_places s (folders, root) = record s { folders = folders; root_children = root }

-- The index of the new place: that of the old list, where the parent stays.
unfoldable pub adjusted_index :
    Project → Option Text → Option Number → Places → Result (Option Number)
unfolding find_container_children resolve_reorder_insert_index
adjusted_index p parent index at =
    if same_parent p.parent_folder_id parent
    then (elim (find_container_children at p.parent_folder_id) [
      | throw e ↦ throw e
      | ok children ↦ ok (resolve_reorder_insert_index children project p.project_id index)
    ])
    else ok index

-- The project is out of its old parent; it goes into the new one.
unfoldable pub attach_moved :
    Text → Project → Option Text → Option Number → State → Result (Option Project) × State
unfolding find_container_children put_container_children insert_child_ref
attach_moved id p parent index s = elim (find_container_children (places s) parent) [
  | throw e ↦ (throw e, s)
  | ok children ↦
      let entry : ChildRef = record { kind = project; id = p.project_id } in
      let moved =
        put_container_children (places s) parent (insert_child_ref children entry index) in
      let p' = revised (record p { parent_folder_id = parent }) in
      (ok (some (clone_project p')), store_project id p' (with_places s moved))
]

unfoldable pub move_found :
    Text → Project → Option Text → Option Number → State → Result (Option Project) × State
unfolding ensure_target_folder_exists adjusted_index detach_from_parent attach_moved
move_found id p parent index s = elim (ensure_target_folder_exists s.folders parent) [
  | throw e ↦ (throw e, s)
  | ok _ ↦ elim (adjusted_index p parent index (places s)) [
    | throw e ↦ (throw e, s)
    | ok index' ↦ elim (detach_from_parent project p.project_id p.parent_folder_id (places s)) [
      | throw e ↦ (throw e, s)
      | ok detached ↦ attach_moved id p parent index' (with_places s detached)
    ]
  ]
]

unfoldable pub move_project :
    Text → Option Text → Option Number → State → Result (Option Project) × State
move_project id parent index s = elim (get id s.projects) [
  | none ↦ (ok none, s)
  | some p ↦ move_found id p (normalize_parent_folder_id parent) index s
]

unfoldable pub drop_jobs : Text → Dict Job → Dict Job
drop_jobs project_id [] = []
drop_jobs project_id ((k, j) ∷ jobs) =
    let rest = drop_jobs project_id jobs in
    if j.project_id == project_id then rest else (k, j) ∷ rest

-- An identifier stays in the queue where its job is in the table and belongs to another project.
abbrev pub stays_queued : Text → Option Job → Bool
stays_queued project_id none = false
stays_queued project_id (some j) = not (j.project_id == project_id)

unfoldable pub remove_project_jobs : Text → State → State
unfolding drop_jobs
remove_project_jobs project_id s =
    let jobs = drop_jobs project_id s.jobs in
    record s {
      jobs = jobs;
      queued_job_ids = keep_if (λ id. stays_queued project_id (get id jobs)) s.queued_job_ids;
    }

-- The entries of the project in the maps are deleted.
abbrev pub without_entries : Text → Places → State → State
without_entries id (folders, root) s = record s {
  folders = folders;
  root_children = root;
  projects = delete id s.projects;
  project_locks = delete id s.project_locks;
  project_events = delete id s.project_events;
}

unfoldable pub remove_project_internal : Text → State → Result (Unit {0}) × State
unfolding detach_from_parent remove_project_jobs
remove_project_internal id s = elim (get id s.projects) [
  | none ↦ (ok tt, s)
  | some p ↦ elim (detach_from_parent project p.project_id p.parent_folder_id (places s)) [
    | throw e ↦ (throw e, s)
    | ok detached ↦ (ok tt, remove_project_jobs id (without_entries id detached s))
  ]
]

-- A removal that does not throw is answered with `true`.
abbrev deleted : Result (Unit {0}) × State → Result Bool × State
deleted (throw e, s) = (throw e, s)
deleted (ok _, s) = (ok true, s)

unfoldable pub delete_project : Text → State → Result Bool × State
delete_project id s =
    if has id s.projects then deleted (remove_project_internal id s) else (ok false, s)
