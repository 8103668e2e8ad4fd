-- ===== src/Tests/Listing.antt =====
-- Two jobs of one project, the older one behind the newer one in the table.
use bbmcp.Prelude.{◌≡◌, refl, Bool, true, false, [], ◌∷◌, arith, ltb, ◌↔◌}
use bbmcp.Prelude.Text.{text, ◌==◌}
use bbmcp.Prelude.Dict.{get, UniqueKeys}
use bbmcp.Pipeline.Model.{Timestamp, stamp, unreadable}
use bbmcp.Pipeline.State.{Job, State, empty_state}
use bbmcp.Pipeline.Jobs.Listing.{
  Among, list_project_jobs, IsSorted, IsListed, list_project_jobs-IsListed,
}
use bbmcp.Tests.Data.{workspace, chair, waiting_job}

abbrev comes_after : Timestamp → Timestamp → Bool
comes_after (stamp a) (stamp b) = ltb b a
comes_after (stamp a) (unreadable s) = false
comes_after (unreadable s) (stamp b) = false
comes_after (unreadable s) (unreadable u) = false

comes_after-asymmetric : (a b : Timestamp) → comes_after a b ≡ true → comes_after b a ≡ false
comes_after-asymmetric (stamp a) (stamp b) h = ground arith
comes_after-asymmetric (stamp a) (unreadable s) h = cc
comes_after-asymmetric (unreadable s) (stamp b) h = cc
comes_after-asymmetric (unreadable s) (unreadable u) h = cc

abbrev newer_job : Job
newer_job = record waiting_job { id = text "job-000002"; created_at = stamp 7 }

abbrev two_jobs : State
two_jobs = record (empty_state workspace) {
  jobs = (newer_job.id, newer_job) ∷ (waiting_job.id, waiting_job) ∷ [];
}

two_jobs_listed : list_project_jobs comes_after two_jobs chair ≡ waiting_job ∷ newer_job ∷ []
unfolding list_project_jobs ◌==◌
two_jobs_listed = refl

two_jobs-UniqueKeys : UniqueKeys two_jobs.jobs
unfolding get ◌==◌
two_jobs-UniqueKeys = (refl, (refl, tt))

list_project_jobs-IsListed_example :
    IsSorted comes_after (list_project_jobs comes_after two_jobs chair)
    × ((x : Job)
        → Among x (list_project_jobs comes_after two_jobs chair) ↔ IsListed chair two_jobs.jobs x)
list_project_jobs-IsListed_example =
    list_project_jobs-IsListed comes_after comes_after-asymmetric two_jobs chair two_jobs-UniqueKeys
