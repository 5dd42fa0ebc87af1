-- ===== src/Lib.antt =====
-- A model of the cluster snapshot simulation library: a copy of the scheduling cycle of kube-scheduler
-- (pkg/upstreamsync) and, on top of it, snapshots of a cluster on which scheduling and preemption are
-- simulated and taken back (pkg/upstreamsync/snapshot, behind the interface of pkg/simulator).
--
-- Parts, and where they are modelled:
-- - Upstream: the code that the library calls and does not contain (cache.Snapshot, NodeInfo, the
--   framework with its plugins, scheduler extenders, the parallelizer, UUIDs), as the fields of one
--   record. Upstream/Laws: what is relied on of it. A `View` is what can be observed of a scheduler
--   snapshot: how often a pod key is listed on a node, how many records of an assumed pod there are,
--   and which nodes can be looked up. `Laws` says what the mutating calls do to these observations.
-- - World: what the revert closures act on. A `*v1.Pod` of the caller is a number into a store, so that
--   two holders of a pointer see each other's writes; a deep copy is a value. A `func()` is a function
--   from worlds to worlds.
-- - Mutation: pkg/upstreamsync/mutable_snapshot.go, and addPodToNode and removePodFromNode of
--   pkg/upstreamsync/snapshot/helpers.go, with the closures that they return. In Mutation/Restore,
--   RestoreState with the orders in which its loops range over the maps.
-- - Profiles: FrameworkForPod and, in BuildExtenders, buildExtenders of
--   pkg/upstreamsync/framework.go, with the constructor of an extender as a parameter;
--   IgnoredResources is about what it writes to the profiles.
-- - Scheduler: pkg/upstreamsync/scheduler.go. Filters is findNodesThatPassFilters, Extenders is
--   findNodesThatPassExtenders, Prioritize is prioritizeNodes, Fit is findNodesThatFitPod with
--   evaluateNominatedNode, Attempt is SchedulePod with the steps that it takes.
-- - UndoLog, Snapshot: pkg/upstreamsync/snapshot/snapshot.go, types.go and helpers.go. Transaction is
--   ResetMutations and Transaction, Schedule is SchedulePods, Template is SchedulePodsByTemplate,
--   Preempt is PreemptPods and Unpreempt, Feasible is CanSchedulePod and MakePlacement.
-- - Session: a client that makes any calls of the interface Simulator (pkg/simulator/simulator.go), one
--   after the other, and keeps the preemption handles that it gets. Session/Events: a client that also
--   begins and ends transactions and resets, as a step relation; the function that Transaction calls is
--   the steps between its beginning and its end.
-- - ClusterState: pkg/state/state.go, with the scheduler cache as a parameter; the `CacheLaws` of
--   ClusterState/Synced say what is relied on of its UpdateSnapshot. ReadonlyClient: the transport of
--   pkg/simulator/readonly_client.go, with the wrapped transport as a parameter; NewClient is
--   NewReadonlyClient, with client-go as a parameter, which may layer other RoundTrippers on the wrapper.
-- - Profiles/Platform: what the constructors call of client-go and kube-scheduler, as the fields of one
--   record. Profiles/NewProfileMap is NewProfileMap of pkg/upstreamsync/framework.go, Framework the one
--   of pkg/framework/framework.go, which hands in the no-op extension points, with the API cacher in
--   Framework/Cacher. Simulator: the constructors of pkg/simulator/simulator.go.
-- - Trail: when a stack of closures leads back. Base: shared names. Tests: runs on a small cluster that
--   meets the laws.
--
-- How the parts interact: a snapshot method runs a Scheduler, or a MutatingSnapshot, on the shared
-- scheduler snapshot; whatever these change, they hand back a closure that undoes it, and the method
-- registers the closure in the undo log. Dry runs, errors, transactions and ResetMutations pop the log
-- down to the version at which they began.
--
-- Conventions. A method takes the state and returns its results with the new state. A panic is `none`.
-- A uint64 counter is kept modulo 2 ^ 64, an int32 or int64 is its bit pattern. restoreState has the
-- length of the stack as its fuel: one more round would pop an empty stack, which panics in Go. The
-- parallel filter search is a list of pieces in an order that the environment chooses, with a choice,
-- after a cancellation, of the pieces that are under way and still run. `P` marks the pods whose fields
-- must look unchanged afterwards: those that are preempted. The pods to be scheduled are not among
-- them, since the library writes their node name and no closure puts it back; the pods of a template
-- are allocated by the call, so that they are no pinned ones either. Locks, logs, traces,
-- metrics and the parameters of error texts are left out.
--
-- Not modelled: the no-op methods of pkg/framework with an empty body; its test helpers.
pub mod Simulator
pub mod Framework
pub mod Base
pub mod Upstream
pub mod World
pub mod Mutation
pub mod Scheduler
pub mod Profiles
pub mod UndoLog
pub mod Trail
pub mod Snapshot
pub mod Session
pub mod ReadonlyClient
pub mod ClusterState
mod Tests
