-- ===== src/Lib.antt =====
-- The verification library of ashfox: the native pipeline, the part of the repository that holds a
-- workspace's projects, their locks, the queue of jobs for the workers, and the log of snapshots that
-- clients follow. All paths below are from packages/native-pipeline/src/ .
--
-- One state (`State`, state.ts) holds the maps of a workspace. Four repositories of functions change it
-- and share it: the locks write what a project's snapshot shows, the jobs create projects on demand
-- and write the snapshot's active job, and each write of a snapshot appends an event to the log of its
-- project. The functions here take the state and give back the next one beside their answer; one that
-- throws still gives back the state that it has reached.
--
-- The files:
--   Prelude            names of the libraries, tests on numbers, lists, texts, numbers, dictionaries
--   Pipeline.Model     types.ts: hierarchy, textures, times, errors and results
--   Pipeline.Json      values of type `unknown` and their readers
--   Pipeline.Contracts nativeJobContracts.ts: kinds, payloads and results of jobs
--   Pipeline.State     state.ts, types.ts, clone.ts: the state, its counters, the clones
--   Pipeline.Sync      projectSnapshotSync.ts: what a snapshot derives from its hierarchy
--   Pipeline.Events    eventRepository.ts: the log of snapshots of each project
--   Pipeline.Locks     projectLockRepository.ts: acquire, renew, release, sweep, read
--   Pipeline.Projects  projectRepository.ts: `ensureProject`; Views: `listProjects`, `getProjectTree`
--   Pipeline.Tree.Walks   projectTreeOps.ts: heights, descendants and subtrees of folders
--   Pipeline.Projects.Folders   projectRepository.ts: create, rename, move and delete a folder; create a project
--   Pipeline.Tree      projectTreeOps.ts: children, their places, detaching, depths
--   Pipeline.Projects.Editing   projectRepository.ts: get, rename, move and delete a project
--   Pipeline.Jobs      jobRepository.ts: submit, claim, complete, fail, list
--   Pipeline.Rows      projectStateStore.ts of packages/gateway-persistence: the row of a scope
--   Pipeline.Durable   PersistentNativePipelineStore.ts: one row that processes with caches share
--   Pipeline.Lease     PersistentNativePipelineStore.ts: the lease on a workspace that requests compete for
--   Pipeline.Stored    persistenceParsers.ts, clone.ts: folders in the serialised state
--   Tests              runs on concrete inputs
-- A function keeps the name of the source in this library's spelling (`claimNextJob` is
-- `claim_next_job`); the proofs about a component stand in the modules below it.
--
-- `PersistentNativePipelineStore` keeps a state as the row of a table and lets several processes work
-- on it, each with a cache that its operations change in place. `Pipeline.Durable` takes the work of
-- the processes apart into what runs between two waits, in any order, over a world of one row, the
-- objects, the caches and the tasks. Its parameter `Codec` has what is not looked into there: the
-- states, their serialised form and its SHA-256 digest, which is supposed to be without collisions,
-- and the operations. `Pipeline.Lease` has the row of the lease that a request takes before it changes
-- the state, and gives back after: who looks at it, writes it, confirms it and frees it, in any order,
-- while time passes.
--
-- How the code is represented:
--   * a string is the list of its UTF-16 code units; a `Map` or `Set` is a list in insertion order
--   * a number that the source only compares and adds is a natural number; a number from outside is
--     `Number`, which has NaN, the infinities, and the finite numbers by whole part and fraction
--   * each reading of the clock is an argument of its own, so that nothing is supposed of how the
--     clock moves within a call; so is each random token (in `Pipeline.Lease` the clock belongs to the
--     world and stands still within a step)
--   * a time is a text that `Date.parse` reads back or one that it does not
--   * the objects that the maps hold are values: a clone is the identity but for empty texts, which it
--     leaves out; the places where the source changes an object that is in a map store it again
--
-- Loops and their rounds: `deriveHierarchyStats` has a round for each node of the forest, `claimNextJob`
-- one for each entry of the queue, as in the source, and `String(n)` one more than `n`.
-- `getFolderDepth` has the source's guard of 64, `isFolderDescendant` that of 1024. The walks without
-- a guard and `computeEntityId` are given rounds and answer `none` where these run out; it is shown
-- that the walks end where the folders have no cycle, as is always so.
--
-- Not modelled: the messages of errors; the class that keeps the states of all workspaces in memory;
-- the form of the serialised state but for its folders, which is a parameter here; and everything
-- outside the native pipeline but the rows of the state table (gateway, runtime, web application,
-- other adapters of databases, hosts).
pub mod Prelude
pub mod Pipeline
pub mod Tests
