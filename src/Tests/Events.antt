-- ===== src/Tests/Events.antt =====
-- Runs of a client that begins and ends transactions: a preemption that is committed, a question, an
-- attempt to nest, and a reset.
use scheduler_library.Base.{
  ◌≤◌, ◌≡◌, refl, false, not, is_empty, length, Option, none, some, List, [], ◌∷◌, arith,
}
use scheduler_library.UndoLog.{empty_log}
use scheduler_library.Trail.{SameWorld}
use scheduler_library.Scheduler.Types.{PendingPod, new_scheduler}
use scheduler_library.Scheduler.Attempt.{Attempt, schedule_pod}
use scheduler_library.Scheduler.Returns.{schedule_pod-returns}
use scheduler_library.Snapshot.Types.{ClusterSnapshot, commit, new_template_options}
use scheduler_library.Snapshot.Transaction.{begin_transaction, end_transaction, reset_mutations}
use scheduler_library.Session.{Call, preempts, templates, asks, Session, step_call}
use scheduler_library.Session.Events.{
  Event, calls, begins, ends, Client, Step, call, begin, finish, Trace, still, and_then, AllApart,
  CountsUp, began, opened,
}
use scheduler_library.Session.Events.Sound.{one_transaction, reset_mutations-reached}
use scheduler_library.Session.Events.Progress.{never_stuck}
use scheduler_library.Snapshot.Template.{PodTemplate}
use scheduler_library.Tests.Cluster.{a_framework, cluster, view}
use scheduler_library.Tests.Cluster.Assumptions.{
  cluster-Laws, cluster-StatusLaws, cluster-CountLaws, cluster-ScoreLaws,
}
use scheduler_library.Tests.Fixture.{store, world, snapshot, on, whole, pins, pins_known}
use scheduler_library.Mutation.{remove_pod_from_node, remove_pod_effect, remove_pod}
use scheduler_library.Snapshot.Preempt.{preempt_pods}
use scheduler_library.Tests.Cluster.{remove}
use scheduler_library.UndoLog.{register_operation}
use scheduler_library.Profiles.{framework_for_pod}
use scheduler_library.Scheduler.Attempt.{select_host, place}
use scheduler_library.Scheduler.Extenders.{find_nodes_that_pass_extenders}
use scheduler_library.Scheduler.Filters.{find_nodes_that_pass_filters}
use scheduler_library.Scheduler.Fit.{find_nodes_that_fit_pod}
use scheduler_library.Snapshot.Schedule.{
  record_result, after_one, schedule_one_pod, schedule_loop, finish_schedule, schedule_seq,
}
use scheduler_library.Snapshot.Template.{
  template_pods, schedule_pods_by_template, create_pod_from_template, pod_of_template,
}
use scheduler_library.Tests.Cluster.{assume}

abbrev pending : PendingPod cluster
pending = record {
  pod_ref = 1;
  pod_info = record { pod = store 1; terms = tt };
  signature = tt;
  cycle_state = 0;
}

schedule_pod-returns_example :
    (a : Attempt cluster) × (schedule_pod cluster (new_scheduler 0 0 1) a_framework pending world
      ≡ some a)
schedule_pod-returns_example =
    schedule_pod-returns cluster-CountLaws cluster-ScoreLaws a_framework pending refl
      (new_scheduler 0 0 1) world (omega arith)

abbrev session_of : Option (Session cluster) → Session cluster
session_of none = whole
session_of (some s) = s

abbrev inside : Session cluster
inside = record whole { snapshot = begin_transaction cluster snapshot }

abbrev preempted : Session cluster
preempted = session_of (step_call cluster (preempts (0 ∷ [])) inside)

preempts_pod : step_call cluster (preempts (0 ∷ [])) inside ≡ some preempted
unfolding step_call preempt_pods remove_pod_from_node remove_pod_effect remove_pod remove
preempts_pod = refl

abbrev pod_template : PodTemplate cluster
pod_template = record {
  name = "replica";
  namespace = "";
  labels = tt;
  spec = record { node_name = ""; scheduler_name = ""; rest = tt };
}

abbrev filling : Call cluster
filling = templates pod_template (on ("n1" ∷ "n3" ∷ [])) 2 (new_template_options false)

abbrev filled : Session cluster
filled = session_of (step_call cluster filling preempted)

fills : step_call cluster filling preempted ≡ some filled
unfolding step_call schedule_pods_by_template template_pods create_pod_from_template pod_of_template
    schedule_seq schedule_loop after_one schedule_one_pod framework_for_pod schedule_pod select_host
    find_nodes_that_fit_pod find_nodes_that_pass_filters find_nodes_that_pass_extenders place assume
    finish_schedule record_result preempt_pods remove_pod_from_node remove_pod_effect remove_pod
    remove
fills = refl

abbrev closed : Session cluster
closed = record filled {
  snapshot = elim (end_transaction cluster 0 0 commit none filled.snapshot) [
    | none ↦ snapshot
    | some x ↦ x.1
  ];
}

commits : end_transaction cluster 0 0 commit none filled.snapshot ≡ some (none, closed.snapshot)
unfolding end_transaction
commits = refl

abbrev committing : List (Event cluster)
committing = ends commit none ∷ calls filling ∷ calls (preempts (0 ∷ [])) ∷ begins ∷ []

abbrev last : Client cluster
last = record { session = closed; open_ones = [] }

committed : Trace cluster (began cluster whole) committing last
committed =
    and_then (and_then (and_then (and_then still (begin refl)) (call preempts_pod)) (call fills))
      (finish {o = opened cluster snapshot} commits)

committing_apart : AllApart cluster pins committing
committing_apart = (tt, ((refl, tt), tt))

committed-CountsUp : CountsUp cluster committed
unfolding committed step_call register_operation preempt_pods remove_pod_from_node remove_pod_effect
    remove_pod remove
committed-CountsUp = ((((tt, tt), omega arith), omega arith), tt)

one_transaction_example :
    (length last.open_ones ≤ 1)
    × (last.session.snapshot.transaction_in_progress ≡ not (is_empty last.open_ones))
    × (last.session.snapshot.undo_log.state_version
        ≡ length last.session.snapshot.undo_log.undo_operations)
one_transaction_example =
    one_transaction view cluster-Laws cluster-StatusLaws pins whole refl refl pins_known last
      committing committed committing_apart committed-CountsUp

reset_mutations-reached_example :
    (s : ClusterSnapshot cluster) × (reset_mutations cluster last.session.snapshot ≡ some (none, s))
    × (s.undo_log ≡ empty_log)
    × SameWorld view pins whole.snapshot.world s.world
reset_mutations-reached_example =
    reset_mutations-reached view cluster-Laws cluster-StatusLaws pins whole refl refl pins_known
      last committing committed committing_apart committed-CountsUp refl

last_version : last.session.snapshot.undo_log.state_version ≡ 3
unfolding end_transaction step_call schedule_pods_by_template template_pods create_pod_from_template
    pod_of_template schedule_seq schedule_loop after_one schedule_one_pod framework_for_pod
    schedule_pod select_host find_nodes_that_fit_pod find_nodes_that_pass_filters
    find_nodes_that_pass_extenders place assume finish_schedule record_result register_operation
    preempt_pods remove_pod_from_node remove_pod_effect remove_pod remove
last_version = refl

never_stuck_example :
    (next : Client cluster) × Step cluster (calls (asks 1 (on ("n1" ∷ "n2" ∷ [])))) last next
never_stuck_example =
    never_stuck view cluster-Laws cluster-StatusLaws cluster-CountLaws cluster-ScoreLaws pins whole
      refl refl pins_known last committing committed (calls (asks 1 (on ("n1" ∷ "n2" ∷ []))))
      (refl, tt) committing_apart committed-CountsUp (tt, tt) (omega (arith, last_version)) tt
