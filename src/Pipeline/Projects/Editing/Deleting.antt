-- ===== src/Pipeline/Projects/Editing/Deleting.antt =====
-- projectRepository.ts: what `deleteProject` leaves behind.
use bbmcp.Prelude.{
  ◌≡◌, refl, ◌⊎◌, inl, inr, List, [], ◌∷◌, Bool, true, false, ◌&&◌, Option, none, some,
  if◌then◌else◌, arith, Option-cases, keep_if, is_some,
}
use bbmcp.Prelude.Text.{Text, ◌==◌, ==_iff, includes, Once}
use bbmcp.Prelude.Dict.{Dict, get, has, UniqueKeys, get-delete_self}
use bbmcp.Pipeline.Model.{Error, Result, ok, throw}
use bbmcp.Pipeline.State.{project, Job, Project, State}
use bbmcp.Pipeline.State.Throwing.{Result-cases}
use bbmcp.Pipeline.Tree.{detach_from_parent}
use bbmcp.Pipeline.Jobs.Queue.{IsFilled}
use bbmcp.Pipeline.Jobs.Consistent.{Consistent}
use bbmcp.Pipeline.Projects.Editing.{
  drop_jobs, stays_queued, remove_project_jobs, remove_project_internal, delete_project, places,
  without_entries,
}

abbrev kept_entry : Text → Option Job → Option Job
kept_entry id none = none
kept_entry id (some j) = if j.project_id == id then none else some j

get-drop_jobs :
    (id k : Text) (jobs : Dict Job)
    → UniqueKeys jobs
    → get k (drop_jobs id jobs) ≡ kept_entry id (get k jobs)
unfolding get drop_jobs
get-drop_jobs id k [] u = refl
get-drop_jobs id k ((i, x) ∷ jobs) (fresh, u) =
    ground (arith, ==_iff i k, get-drop_jobs id k jobs u)

drop_jobs-UniqueKeys :
    (id : Text) (jobs : Dict Job) → UniqueKeys jobs → UniqueKeys (drop_jobs id jobs)
unfolding drop_jobs
drop_jobs-UniqueKeys id [] u = tt
drop_jobs-UniqueKeys id ((i, x) ∷ jobs) (fresh, u) =
    ground (arith, get-drop_jobs id i jobs u, drop_jobs-UniqueKeys id jobs u)

module _ (p : Text → Bool) where
  includes-keep_if :
      (xs : List Text) (k : Text) → includes (keep_if p xs) k ≡ (includes xs k && p k)
  unfolding includes
  includes-keep_if [] k = refl
  includes-keep_if (x ∷ xs) k = ground (arith, ==_iff x k, includes-keep_if xs k)

  keep_if-Once : (xs : List Text) → Once xs → Once (keep_if p xs)
  keep_if-Once [] o = tt
  keep_if-Once (x ∷ xs) (fresh, o) = ground (arith, includes-keep_if xs x, keep_if-Once xs o)

  keep_if-IsFilled : (xs : List Text) → IsFilled xs → IsFilled (keep_if p xs)
  keep_if-IsFilled [] f = tt
  keep_if-IsFilled (x ∷ xs) (here, f) = ground (arith, keep_if-IsFilled xs f)

kept_source :
    (id : Text) (o : Option Job) (j : Job)
    → kept_entry id o ≡ some j
    → (o ≡ some j) × ((j.project_id == id) ≡ false)
kept_source id none j e = cc
kept_source id (some x) j e = ground arith

-- The project's entries are gone from every map, its jobs from the table and the queue, and the
-- other jobs stay.
pub record IsDeleted (id : Text) (s t : State) : Type 0 where
  pub gone : get id t.projects ≡ none
  pub unlocked : get id t.project_locks ≡ none
  pub silent : get id t.project_events ≡ none
  pub jobless : (k : Text) (j : Job) → get k t.jobs ≡ some j → (j.project_id == id) ≡ false
  pub others :
      (k : Text) (j : Job)
      → get k s.jobs ≡ some j
      → (j.project_id == id) ≡ false
      → get k t.jobs ≡ some j
  pub backed : (k : Text) → includes t.queued_job_ids k ≡ true → is_some (get k t.jobs) ≡ true
  pub consistent : Consistent t

removed-Consistent : (id : Text) (s : State) → Consistent s → Consistent (remove_project_jobs id s)
unfolding remove_project_jobs
removed-Consistent id s c = record {
  unique = drop_jobs-UniqueKeys id s.jobs c.unique;
  named = λ k j e. c.named k j ((source k j e).0);
  waiting = λ k j e h.
      rw
        (
          includes-keep_if (λ x. stays_queued id (get x (drop_jobs id s.jobs))) s.queued_job_ids k,
          c.waiting k j ((source k j e).0) h,
          e,
          (source k j e).1,
        )
        refl;
  once = keep_if-Once _ s.queued_job_ids c.once;
  filled = keep_if-IsFilled _ s.queued_job_ids c.filled;
}
  where
    source :
        (k : Text) (j : Job)
        → get k (drop_jobs id s.jobs) ≡ some j
        → (get k s.jobs ≡ some j) × ((j.project_id == id) ≡ false)
    source k j e = kept_source id (get k s.jobs) j (rw (get-drop_jobs id k s.jobs c.unique) at e)

stays_queued-some : (id : Text) (o : Option Job) → stays_queued id o ≡ true → is_some o ≡ true
stays_queued-some id none h = cc
stays_queued-some id (some j) h = refl

remove_project_jobs-IsDeleted :
    (id : Text) (s t : State)
    → Consistent s
    → t.jobs ≡ s.jobs
    → t.queued_job_ids ≡ s.queued_job_ids
    → t.next_job_id ≡ s.next_job_id
    → get id t.projects ≡ none
    → get id t.project_locks ≡ none
    → get id t.project_events ≡ none
    → IsDeleted id s (remove_project_jobs id t)
unfolding remove_project_jobs
remove_project_jobs-IsDeleted id s t c jobs queue next gone unlocked silent = record {
  gone = gone;
  unlocked = unlocked;
  silent = silent;
  jobless = λ k j e.
      (kept_source id (get k t.jobs) j (rw (get-drop_jobs id k t.jobs (rw jobs c.unique)) at e)).1;
  others = λ k j e other. rw (get-drop_jobs id k t.jobs (rw jobs c.unique), jobs, e, other) refl;
  backed = λ k h. stays_queued-some id (get k (drop_jobs id t.jobs)) (
      ground (
        arith,
        includes-keep_if (λ x. stays_queued id (get x (drop_jobs id t.jobs))) t.queued_job_ids k,
      ));
  consistent = removed-Consistent id t (rw (jobs, queue, next) c);
}

-- What `deleteProject` answers, and the state behind that.
abbrev pub Deleted : Text → State → Result Bool × State → Type 0
Deleted id s (throw e, t) = (t ≡ s) × (is_some (get id s.projects) ≡ true)
Deleted id s (ok false, t) = (t ≡ s) × (get id s.projects ≡ none)
Deleted id s (ok true, t) = IsDeleted id s t

-- The removal of a project that is there throws and changes nothing, or empties its entries.
remove_project_internal-cases :
    (id : Text) (s : State) (p : Project)
    → Consistent s
    → get id s.projects ≡ some p
    → ((e : Error) × (remove_project_internal id s ≡ (throw e, s)))
      ⊎ ((t : State) × (remove_project_internal id s ≡ (ok tt, t)) × IsDeleted id s t)
unfolding remove_project_internal
remove_project_internal-cases id s p c found =
    elim (Result-cases (detach_from_parent project p.project_id p.parent_folder_id (places s))) [
      | inl (e, thrown) ↦ inl (e, rw (found, remove_project_internal, thrown) refl)
      | inr (at, detached) ↦ inr (
        remove_project_jobs id (without_entries id at s),
        rw (found, remove_project_internal, detached) refl,
        remove_project_jobs-IsDeleted id s (without_entries id at s) c refl refl refl
            (get-delete_self id s.projects) (get-delete_self id s.project_locks)
            (get-delete_self id s.project_events),
      )
    ]

-- `deleteProject` with consistent jobs: a project that is not there changes nothing; one that is is
-- removed with its lock, its events and its jobs, every identifier left in the queue has its job,
-- the jobs of the other projects stay, and the jobs are consistent again. A call that throws
-- changes nothing, and its project is there.
pub delete_project-Deleted :
    (id : Text) (s : State) → Consistent s → Deleted id s (delete_project id s)
unfolding delete_project has
delete_project-Deleted id s c = elim (Option-cases (get id s.projects)) [
  | inl absent ↦ rw (absent, delete_project) (refl, absent)
  | inr (p, found) ↦ elim (remove_project_internal-cases id s p c found) [
    | inl (e, thrown) ↦ rw (found, thrown) (refl, rw found refl)
    | inr (t, removed, deleted) ↦ rw (found, removed) deleted
  ]
]

Deleted-Consistent :
    (id : Text) (s : State) (r : Result Bool × State)
    → Consistent s
    → Deleted id s r
    → Consistent r.1
Deleted-Consistent id s (throw e, t) c (same, there) = rw same c
Deleted-Consistent id s (ok false, t) c (same, absent) = rw same c
Deleted-Consistent id s (ok true, t) c deleted = deleted.consistent

pub delete_project-Consistent :
    (id : Text) (s : State) → Consistent s → Consistent (delete_project id s).1
delete_project-Consistent id s c =
    Deleted-Consistent id s (delete_project id s) c (delete_project-Deleted id s c)
