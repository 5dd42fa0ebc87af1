-- ===== src/Tests/Handles.antt =====
-- Runs of preemptions and of their handles.
use scheduler_library.Snapshot.Preempt.RoundTrip.{preempt_pods-unpreempt}
use scheduler_library.Trail.{SameWorld}
use mathlib.Core.Bool.{false≢true}
use scheduler_library.Base.{sym, ap, ◌==◌}
use scheduler_library.Snapshot.Schedule.{Scheduled}
use scheduler_library.Snapshot.Schedule.Expiry.{schedule_pods_expires}
use scheduler_library.Base.{
  ◌+◌, ◌≡◌, ◌≢◌, refl, String, true, false, Option, none, some, List, [], ◌∷◌, arith, str_eq,
}
use scheduler_library.Upstream.{Error, message, ok, err}
use scheduler_library.UndoLog.{restore_state}
use scheduler_library.Snapshot.Types.{ClusterSnapshot, commit, revert}
use scheduler_library.Snapshot.Transaction.{transaction, begin_transaction, TransactionFn}
use scheduler_library.Snapshot.Schedule.{schedule_pods}
use scheduler_library.Snapshot.Preempt.{Unpreempted, preempt_pods, Preempted, unpreempt}
use scheduler_library.Session.{Call, schedules, preempts, step_call, run_calls, body_of}
use scheduler_library.Tests.Cluster.Assumptions.{cluster-Laws}
use scheduler_library.Tests.Cluster.{cluster, kinds, view}
use scheduler_library.Mutation.{remove_pod_effect, remove_pod_from_node, remove_pod}
use scheduler_library.Profiles.{framework_for_pod}
use scheduler_library.Scheduler.Attempt.{place, schedule_pod, select_host}
use scheduler_library.Scheduler.Extenders.{find_nodes_that_pass_extenders}
use scheduler_library.Scheduler.Filters.{find_nodes_that_pass_filters}
use scheduler_library.Scheduler.Fit.{find_nodes_that_fit_pod}
use scheduler_library.Snapshot.Schedule.{
  finish_schedule, schedule_one_pod, after_one, schedule_seq, schedule_loop, record_result,
}
use scheduler_library.Tests.Cluster.{assume, remove}
use scheduler_library.UndoLog.{register_operation}
use scheduler_library.Mutation.{add_pod_effect, add_pod, add_pod_to_node, undo_remove}
use scheduler_library.Scheduler.Attempt.{undo_schedule}
use scheduler_library.Snapshot.Types.{restore}
use scheduler_library.Tests.Cluster.{forget}
use scheduler_library.UndoLog.{undo, restore_loop}
use scheduler_library.Snapshot.Preempt.Handles.{stale_handle_accepted, preempting}
use scheduler_library.Snapshot.Preempt.Expiry.{commit_expires, unpreempt_again, Rejected}
use scheduler_library.Mutation.Aliasing.{undo_remove_redirected}
use scheduler_library.Mutation.{undo_remove, remove_pod_effect}
use scheduler_library.Mutation.Located.{Located}
use scheduler_library.World.{set_node_name}
use scheduler_library.Snapshot.Types.{Unpreemption}
use scheduler_library.Tests.Fixture.{store, world, snapshot, on, plainly, pins}
use scheduler_library.Upstream.Laws.{mark, one}

abbrev in_transaction : Option (Preempted cluster)
in_transaction = preempt_pods cluster (0 ∷ []) (begin_transaction cluster snapshot)

abbrev handle_of : Option (Preempted cluster) → Unpreemption cluster
handle_of none = record { pods = []; tracker = 0; reverted = true; valid_preemption_version = 0 }
handle_of (some x) = elim x.result [
  | err e ↦ record { pods = []; tracker = 0; reverted = true; valid_preemption_version = 0 }
  | ok u ↦ u
]

abbrev preempted_of : Option (Preempted cluster) → Preempted cluster
preempted_of none = record { result = err (message ""); snapshot = snapshot }
preempted_of (some x) = x

ran_in_transaction : in_transaction ≡ some (preempted_of in_transaction)
unfolding preempt_pods remove_pod_from_node remove_pod_effect remove_pod remove
ran_in_transaction = refl

given : (preempted_of in_transaction).result ≡ ok (handle_of in_transaction)
unfolding preempt_pods remove_pod_from_node remove_pod_effect remove_pod remove
given = refl

abbrev snapshot_of :
    Option (Option (Error kinds) × ClusterSnapshot cluster) → ClusterSnapshot cluster
snapshot_of none = snapshot
snapshot_of (some x) = x.1

abbrev reverted : Option (Option (Error kinds) × ClusterSnapshot cluster)
reverted = transaction cluster (preempting cluster (0 ∷ [])) snapshot

ran_reverted : reverted ≡ some (none, snapshot_of reverted)
unfolding register_operation preempt_pods remove_pod_from_node remove_pod_effect remove_pod remove
    restore restore_state restore_loop undo transaction
ran_reverted = refl

store-Located : Located cluster world.snap (store 0) "a"
store-Located = record {
  terms = tt;
  node = "n1";
  has_terms = refl;
  has_key = refl;
  found = refl;
  known = refl;
}

stale_handle_accepted_example :
    (unpreempt cluster
        (some (handle_of in_transaction))
        (begin_transaction cluster (snapshot_of reverted))).snapshot.world.snap.listed
      "n1" "a"
    ≡ 1 + 1
stale_handle_accepted_example =
    stale_handle_accepted view cluster-Laws pins 0 snapshot (snapshot_of reverted)
      (preempted_of in_transaction) (handle_of in_transaction) refl refl (omega arith) store-Located
      ran_in_transaction given ran_reverted

abbrev committing : TransactionFn cluster
committing s = some (commit, none, s)

abbrev late : Unpreemption cluster
late = record { pods = 0 ∷ []; tracker = 0; reverted = false; valid_preemption_version = 1 }

commit_expires_example :
    (t : ClusterSnapshot cluster) × (transaction cluster committing snapshot ≡ some (none, t))
    × Rejected cluster t (unpreempt cluster (some late) t)
commit_expires_example =
    commit_expires cluster committing snapshot (begin_transaction cluster snapshot) late refl refl
      refl

abbrev once : Unpreempted cluster
once = unpreempt cluster (some (handle_of in_transaction)) (preempted_of in_transaction).snapshot

unpreempt_again_example :
    Rejected cluster once.snapshot (unpreempt cluster once.handle once.snapshot)
unpreempt_again_example =
    unpreempt_again cluster (some (handle_of in_transaction)) (preempted_of in_transaction).snapshot

-- The pod comes back once, on its node.
back_once : once.snapshot.world.snap.listed "n1" "a" ≡ 1
unfolding preempt_pods remove_pod_from_node remove_pod_effect remove_pod remove unpreempt
    add_pod_to_node add_pod_effect add_pod one
back_once = refl

preempt_pods-unpreempt_example :
    (once.result ≡ ok (0 ∷ [])) × SameWorld view pins world once.snapshot.world
preempt_pods-unpreempt_example =
    preempt_pods-unpreempt view cluster-Laws pins (0 ∷ []) (begin_transaction cluster snapshot)
      (preempted_of in_transaction) (handle_of in_transaction) (refl, tt) ran_in_transaction given

undo_remove_redirected_example :
    let v = set_node_name cluster (remove_pod_effect cluster 0 (store 0) world).1 0 "n2" in
    let z = undo_remove cluster 0 0 v in
    (z.snap.listed "n2" "a" ≡ 0 + 1) × (z.snap.listed "n1" "a" + 1 ≡ 1)
undo_remove_redirected_example =
    undo_remove_redirected view cluster-Laws 0 0 "n2" world moved store-Located (omega arith)
      (record {
        terms = tt;
        node = "n2";
        has_terms = refl;
        has_key = refl;
        found = refl;
        known = refl;
      })
  where
    moved : ◌≢◌ {A = String} "n1" "n2"
    moved e = false≢true (sym (ap (str_eq "n1") e))

-- A transaction that preempts a pod, schedules it on another node and asks to revert leaves it there.
abbrev moving : List (Call cluster)
moving = preempts (0 ∷ []) ∷ schedules (0 ∷ []) (on ("n2" ∷ [])) plainly ∷ []

abbrev moved : ClusterSnapshot cluster
moved = snapshot_of (transaction cluster (body_of cluster moving [] revert none) snapshot)

left_behind : (moved.world.snap.listed "n1" "a" ≡ 0) × (moved.world.snap.listed "n2" "a" ≡ 1)
unfolding run_calls step_call schedule_pods schedule_seq schedule_loop after_one schedule_one_pod
    framework_for_pod schedule_pod select_host find_nodes_that_fit_pod find_nodes_that_pass_filters
    find_nodes_that_pass_extenders place assume finish_schedule record_result register_operation
    preempt_pods remove_pod_from_node remove_pod_effect remove_pod remove restore restore_state
    restore_loop undo undo_schedule forget add_pod_effect add_pod undo_remove transaction one mark
left_behind = (refl, refl)

-- A pod scheduled after a preemption.
abbrev filled : Option (Scheduled cluster)
filled =
    schedule_pods cluster (1 ∷ []) (on ("n2" ∷ [])) plainly (preempted_of in_transaction).snapshot

abbrev filled_of : Option (Scheduled cluster) → Scheduled cluster
filled_of none = record { results = []; error = none; snapshot = snapshot }
filled_of (some r) = r

was_filled : filled ≡ some (filled_of filled)
unfolding schedule_pods schedule_seq schedule_loop after_one schedule_one_pod framework_for_pod
    schedule_pod select_host find_nodes_that_fit_pod find_nodes_that_pass_filters
    find_nodes_that_pass_extenders place assume finish_schedule record_result register_operation
    preempt_pods remove_pod_from_node remove_pod_effect remove_pod remove
was_filled = refl

log_moved :
    ((preempted_of in_transaction).snapshot.undo_log.state_version
      == (filled_of filled).snapshot.undo_log.state_version)
    ≡ false
unfolding schedule_pods schedule_seq schedule_loop after_one schedule_one_pod framework_for_pod
    schedule_pod select_host find_nodes_that_fit_pod find_nodes_that_pass_filters
    find_nodes_that_pass_extenders place assume finish_schedule record_result register_operation
    preempt_pods remove_pod_from_node remove_pod_effect remove_pod remove
log_moved = refl

handle_valid :
    (handle_of in_transaction).valid_preemption_version
    ≡ (preempted_of in_transaction).snapshot.preemption_version
unfolding preempt_pods remove_pod_from_node remove_pod_effect remove_pod remove
handle_valid = refl

schedule_pods_expires_example :
    Rejected cluster
      (filled_of filled).snapshot
      (unpreempt cluster (some (handle_of in_transaction)) (filled_of filled).snapshot)
schedule_pods_expires_example =
    schedule_pods_expires cluster (1 ∷ []) (on ("n2" ∷ [])) plainly
      (preempted_of in_transaction).snapshot (filled_of filled) (handle_of in_transaction)
      was_filled log_moved handle_valid
