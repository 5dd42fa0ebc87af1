-- ===== src/Tests/Sessions.antt =====
-- Runs of whole calls: transactions, resets, dry runs and questions.
use scheduler_library.ClusterState.{ClusterState}
use scheduler_library.ClusterState.Synced.{Synced}
use scheduler_library.Tests.Cache.{Nodes, refresh}
use scheduler_library.Tests.Fixture.{listed_once}
use scheduler_library.Base.{ℕ, ◌+◌, String, false, str_eq, ◌&&◌, if◌then◌else◌}
use scheduler_library.Base.{
  ◌||◌, is_some, ◌≡◌, refl, true, Option, none, some, List, [], ◌∷◌, arith,
}
use scheduler_library.UndoLog.{empty_log, restore_state}
use scheduler_library.Snapshot.Types.{ClusterSnapshot, revert}
use scheduler_library.Snapshot.Transaction.{transaction, begin_transaction}
use scheduler_library.Snapshot.Schedule.{schedule_pods, Scheduled}
use scheduler_library.Snapshot.Preempt.{preempt_pods, Preempted}
use scheduler_library.Session.{
  Counts, AllSeparate, Call, schedules, preempts, Session, step_call, run_calls, body_of,
}
use scheduler_library.Tests.Cluster.Assumptions.{cluster-Laws, cluster-StatusLaws}
use scheduler_library.Tests.Cluster.{cluster, view}
use scheduler_library.Mutation.{remove_pod_effect, remove_pod_from_node, remove_pod}
use scheduler_library.Profiles.{framework_for_pod}
use scheduler_library.Scheduler.Attempt.{place, schedule_pod, select_host}
use scheduler_library.Scheduler.Extenders.{find_nodes_that_pass_extenders}
use scheduler_library.Scheduler.Filters.{find_nodes_that_pass_filters}
use scheduler_library.Scheduler.Fit.{find_nodes_that_fit_pod}
use scheduler_library.Snapshot.Schedule.{
  finish_schedule, schedule_one_pod, after_one, schedule_seq, schedule_loop, record_result,
}
use scheduler_library.Tests.Cluster.{assume, remove}
use scheduler_library.UndoLog.{register_operation}
use scheduler_library.Snapshot.Transaction.{reset_mutations}
use scheduler_library.Snapshot.Types.{restore}
use scheduler_library.UndoLog.{undo, restore_loop}
use scheduler_library.Snapshot.Extends.{Unchanged}
use scheduler_library.Snapshot.Template.{
  PodTemplate, create_pod_from_template, pod_of_template, template_pods, schedule_pods_by_template,
}
use scheduler_library.Snapshot.Template.DryRun.{schedule_pods_by_template_rolls_back}
use scheduler_library.Trail.{SameWorld}
use scheduler_library.Snapshot.Preempt.Rollback.{IsPreempted, preempt_pods-IsPreempted}
use scheduler_library.Session.Rollback.{transaction-run_calls, reset_mutations-run_calls}
use scheduler_library.Session.{AllSeparate, Counts}
use scheduler_library.Snapshot.Schedule.DryRun.{schedule_pods_rolls_back}
use scheduler_library.Mutation.{remove_pod_effect}
use scheduler_library.Base.{is_some, ◌||◌}
use scheduler_library.Tests.Fixture.{world, snapshot, on, plainly, dryly, whole, pins, pins_known}

-- A preemption, a pod scheduled in its place, and the preempted pod put back.
abbrev calls : List (Call cluster)
calls = preempts (0 ∷ []) ∷ schedules (1 ∷ []) (on ("n1" ∷ [])) plainly ∷ []

abbrev begun : Session cluster
begun = record { snapshot = begin_transaction cluster snapshot; handles = [] }

abbrev end_of : Session cluster → Option (Session cluster) → Session cluster
end_of s none = s
end_of s (some t) = t

run_begun : run_calls cluster calls begun ≡ some (end_of begun (run_calls cluster calls begun))
unfolding run_calls step_call schedule_pods schedule_seq schedule_loop after_one schedule_one_pod
    framework_for_pod schedule_pod select_host find_nodes_that_fit_pod find_nodes_that_pass_filters
    find_nodes_that_pass_extenders place assume finish_schedule preempt_pods remove_pod_from_node
    remove_pod_effect remove_pod remove
run_begun = refl

run_whole : run_calls cluster calls whole ≡ some (end_of whole (run_calls cluster calls whole))
unfolding run_calls step_call schedule_pods schedule_seq schedule_loop after_one schedule_one_pod
    framework_for_pod schedule_pod select_host find_nodes_that_fit_pod find_nodes_that_pass_filters
    find_nodes_that_pass_extenders place assume finish_schedule preempt_pods remove_pod_from_node
    remove_pod_effect remove_pod remove
run_whole = refl

begun-Counts : Counts cluster calls begun
unfolding step_call schedule_pods schedule_seq schedule_loop after_one schedule_one_pod
    framework_for_pod schedule_pod select_host find_nodes_that_fit_pod find_nodes_that_pass_filters
    find_nodes_that_pass_extenders place assume finish_schedule register_operation preempt_pods
    remove_pod_from_node remove_pod_effect remove_pod remove
begun-Counts = (omega arith, (omega arith, tt))

whole-Counts : Counts cluster calls whole
unfolding step_call schedule_pods schedule_seq schedule_loop after_one schedule_one_pod
    framework_for_pod schedule_pod select_host find_nodes_that_fit_pod find_nodes_that_pass_filters
    find_nodes_that_pass_extenders place assume finish_schedule register_operation preempt_pods
    remove_pod_from_node remove_pod_effect remove_pod remove
whole-Counts = (omega arith, (omega arith, tt))

calls_separate : AllSeparate cluster pins calls
calls_separate = ((refl, tt), ((refl, tt), tt))

transaction-run_calls_example :
    (t : ClusterSnapshot cluster) × (transaction cluster
        (body_of cluster calls [] revert none)
        snapshot
      ≡ some (none, t))
    × Unchanged view pins snapshot t
transaction-run_calls_example =
    transaction-run_calls view cluster-Laws cluster-StatusLaws pins calls [] revert none snapshot
      (end_of begun (run_calls cluster calls begun)) refl (omega arith) pins_known calls_separate
      begun-Counts run_begun refl

reset_mutations-run_calls_example :
    (t : ClusterSnapshot cluster) × (reset_mutations cluster
        (end_of whole (run_calls cluster calls whole)).snapshot
      ≡ some (none, t))
    × (t.undo_log ≡ empty_log)
    × SameWorld view pins world t.world
reset_mutations-run_calls_example =
    reset_mutations-run_calls view cluster-Laws cluster-StatusLaws pins calls [] snapshot
      (end_of whole (run_calls cluster calls whole)) refl refl pins_known calls_separate
      whole-Counts run_whole

-- A dry run.
abbrev scheduled_of : Option (Scheduled cluster) → Scheduled cluster
scheduled_of none = record { results = []; error = none; snapshot = snapshot }
scheduled_of (some r) = r

abbrev dry : Option (Scheduled cluster)
dry = schedule_pods cluster (1 ∷ []) (on ("n2" ∷ [])) dryly snapshot

ran_dry : dry ≡ some (scheduled_of dry)
unfolding schedule_pods schedule_seq schedule_loop after_one schedule_one_pod framework_for_pod
    schedule_pod select_host find_nodes_that_fit_pod find_nodes_that_pass_filters
    find_nodes_that_pass_extenders place assume finish_schedule record_result register_operation
    restore restore_state restore_loop undo
ran_dry = refl

dry_back : (is_some (scheduled_of dry).error || true) ≡ true
unfolding schedule_pods schedule_seq schedule_loop after_one schedule_one_pod framework_for_pod
    schedule_pod select_host find_nodes_that_fit_pod find_nodes_that_pass_filters
    find_nodes_that_pass_extenders place assume finish_schedule record_result register_operation
    restore restore_state restore_loop undo
dry_back = refl

schedule_pods_rolls_back_example : Unchanged view pins snapshot (scheduled_of dry).snapshot
schedule_pods_rolls_back_example =
    schedule_pods_rolls_back view cluster-Laws cluster-StatusLaws pins (1 ∷ []) (on ("n2" ∷ []))
      dryly snapshot (scheduled_of dry) (refl, tt) (omega arith) ran_dry dry_back

-- A dry run of two pods of a template.
abbrev template : PodTemplate cluster
template = record {
  name = "t";
  namespace = "";
  labels = tt;
  spec = record { node_name = ""; scheduler_name = ""; rest = tt };
}

abbrev dry_template : Option (Scheduled cluster)
dry_template =
    schedule_pods_by_template cluster template (on ("n2" ∷ [])) 2 (record { dry_run = true })
      snapshot

ran_template : dry_template ≡ some (scheduled_of dry_template)
unfolding schedule_pods_by_template schedule_seq schedule_loop template_pods after_one
    schedule_one_pod framework_for_pod create_pod_from_template pod_of_template schedule_pod
    select_host find_nodes_that_fit_pod find_nodes_that_pass_filters find_nodes_that_pass_extenders
    place assume finish_schedule record_result register_operation restore restore_state restore_loop
    undo
ran_template = refl

template_back : (is_some (scheduled_of dry_template).error || true) ≡ true
unfolding schedule_pods_by_template schedule_seq schedule_loop template_pods after_one
    schedule_one_pod framework_for_pod create_pod_from_template pod_of_template schedule_pod
    select_host find_nodes_that_fit_pod find_nodes_that_pass_filters find_nodes_that_pass_extenders
    place assume finish_schedule record_result register_operation restore restore_state restore_loop
    undo
template_back = refl

schedule_pods_by_template_rolls_back_example :
    Unchanged view pins snapshot (scheduled_of dry_template).snapshot
schedule_pods_by_template_rolls_back_example =
    schedule_pods_by_template_rolls_back view cluster-Laws cluster-StatusLaws pins template
      (on ("n2" ∷ [])) 2 (record { dry_run = true }) snapshot (scheduled_of dry_template) pins_known
      (omega arith) ran_template template_back

preempt_pods-IsPreempted_example :
    (r : Preempted cluster) × (preempt_pods cluster (0 ∷ []) snapshot ≡ some r)
    × IsPreempted view cluster-Laws pins (0 ∷ []) snapshot r
preempt_pods-IsPreempted_example =
    preempt_pods-IsPreempted view cluster-Laws pins (0 ∷ []) snapshot (refl, tt) (omega arith)

-- After the calls a pod has come to the node "n2" of the cache.
abbrev listed_both : String → String → ℕ
listed_both n k = listed_once n k + (if str_eq n "n2" && str_eq k "c" then 1 else 0)

abbrev state : ClusterState cluster Nodes refresh
state = record { cache = record { pods = listed_once; dirty = false }; snapshot = snapshot }
