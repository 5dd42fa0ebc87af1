-- ===== src/Tests/Reports.antt =====
-- The results of scheduling calls.
use scheduler_library.Base.{
  ℕ, ◌≤◌, ◌≡◌, refl, false, ◌||◌, Option, none, some, [], ◌∷◌, length, map, is_some,
}
use scheduler_library.Snapshot.Types.{SchedulingResult}
use scheduler_library.Snapshot.Schedule.{schedule_pods, Scheduled}
use scheduler_library.Scheduler.Filters.Sound.{All}
use scheduler_library.Snapshot.Schedule.Report.{Reported, Named, Absent}
use scheduler_library.Snapshot.Schedule.Report.Answers.{
  schedule_pods-Reported, schedule_pods_attempts_all, schedule_pods_writes,
  schedule_pods_dry_writes,
}
use scheduler_library.Snapshot.Template.{PodTemplate, schedule_pods_by_template}
use scheduler_library.Snapshot.Template.Bound.{AllButLast, schedule_pods_by_template_bounded}
use scheduler_library.Tests.Cluster.{cluster}
use scheduler_library.Tests.Fixture.{world, snapshot, on, plainly, dryly}
use scheduler_library.Profiles.{framework_for_pod}
use scheduler_library.Scheduler.Attempt.{select_host, place, schedule_pod}
use scheduler_library.Scheduler.Extenders.{find_nodes_that_pass_extenders}
use scheduler_library.Scheduler.Filters.{find_nodes_that_pass_filters}
use scheduler_library.Scheduler.Fit.{find_nodes_that_fit_pod}
use scheduler_library.Snapshot.Schedule.{
  record_result, schedule_loop, schedule_seq, finish_schedule, schedule_one_pod, after_one,
}
use scheduler_library.Snapshot.Template.{create_pod_from_template, pod_of_template, template_pods}
use scheduler_library.Tests.Cluster.{assume}
use scheduler_library.Snapshot.Types.{restore}
use scheduler_library.UndoLog.{register_operation, undo, restore_state, restore_loop}

abbrev answer_of : Option (Scheduled cluster) → Scheduled cluster
answer_of none = record { results = []; error = none; snapshot = snapshot }
answer_of (some r) = r

-- Two pods on one node, in one call.
abbrev both : Option (Scheduled cluster)
both = schedule_pods cluster (1 ∷ 2 ∷ []) (on ("n2" ∷ [])) plainly snapshot

both_ran : both ≡ some (answer_of both)
unfolding schedule_pods schedule_seq schedule_loop after_one schedule_one_pod framework_for_pod
    schedule_pod select_host find_nodes_that_fit_pod find_nodes_that_pass_filters
    find_nodes_that_pass_extenders place assume record_result finish_schedule
both_ran = refl

both_fine : (answer_of both).error ≡ none
unfolding schedule_pods schedule_seq schedule_loop after_one schedule_one_pod framework_for_pod
    schedule_pod select_host find_nodes_that_fit_pod find_nodes_that_pass_filters
    find_nodes_that_pass_extenders place assume record_result finish_schedule
both_fine = refl

schedule_pods-Reported_example :
    Reported cluster false (1 ∷ 2 ∷ []) (answer_of both).results (answer_of both).error
schedule_pods-Reported_example =
    schedule_pods-Reported cluster (1 ∷ 2 ∷ []) (record { nodes = "n2" ∷ [] }) plainly snapshot
      (answer_of both) refl refl both_ran

schedule_pods_attempts_all_example :
    map (λ (x : SchedulingResult cluster). x.pod) (answer_of both).results ≡ 1 ∷ 2 ∷ []
schedule_pods_attempts_all_example =
    schedule_pods_attempts_all cluster (1 ∷ 2 ∷ []) (record { nodes = "n2" ∷ [] }) false snapshot
      (answer_of both) refl refl both_ran both_fine

both_kept : (is_some (answer_of both).error || false) ≡ false
unfolding schedule_pods schedule_seq schedule_loop after_one schedule_one_pod framework_for_pod
    schedule_pod select_host find_nodes_that_fit_pod find_nodes_that_pass_filters
    find_nodes_that_pass_extenders place assume record_result finish_schedule
both_kept = refl

schedule_pods_writes_example :
    All (Named cluster (answer_of both).snapshot.world) (answer_of both).results
    × ((q : ℕ) → Absent q (1 ∷ 2 ∷ []) → (answer_of both).snapshot.world.pods q ≡ world.pods q)
schedule_pods_writes_example =
    schedule_pods_writes cluster (1 ∷ 2 ∷ []) (record { nodes = "n2" ∷ [] }) plainly snapshot
      (answer_of both) refl refl both_ran both_kept ((refl, tt), (tt, tt))

-- A dry run keeps the node names that it has written.
abbrev both_dry : Option (Scheduled cluster)
both_dry = schedule_pods cluster (1 ∷ 2 ∷ []) (some (record { nodes = "n2" ∷ [] })) dryly snapshot

both_dry_ran : both_dry ≡ some (answer_of both_dry)
unfolding schedule_pods schedule_seq schedule_loop after_one schedule_one_pod framework_for_pod
    schedule_pod select_host find_nodes_that_fit_pod find_nodes_that_pass_filters
    find_nodes_that_pass_extenders place assume record_result finish_schedule register_operation
    restore restore_state restore_loop undo
both_dry_ran = refl

schedule_pods_dry_writes_example :
    All (Named cluster (answer_of both_dry).snapshot.world) (answer_of both_dry).results
    × ((q : ℕ) → Absent q (1 ∷ 2 ∷ []) → (answer_of both_dry).snapshot.world.pods q ≡ world.pods q)
schedule_pods_dry_writes_example =
    schedule_pods_dry_writes cluster (1 ∷ 2 ∷ []) (record { nodes = "n2" ∷ [] }) dryly snapshot
      (answer_of both_dry) refl refl both_dry_ran ((refl, tt), (tt, tt)) tt

abbrev template : PodTemplate cluster
template = record {
  name = "t";
  namespace = "";
  labels = tt;
  spec = record { node_name = ""; scheduler_name = ""; rest = tt };
}

abbrev templated : Option (Scheduled cluster)
templated =
    schedule_pods_by_template cluster template (on ("full" ∷ [])) 3 (record { dry_run = false })
      snapshot

templated_ran : templated ≡ some (answer_of templated)
unfolding schedule_pods_by_template schedule_seq schedule_loop template_pods after_one
    schedule_one_pod framework_for_pod create_pod_from_template pod_of_template schedule_pod
    select_host find_nodes_that_fit_pod find_nodes_that_pass_filters find_nodes_that_pass_extenders
    finish_schedule
templated_ran = refl

one_result : length (answer_of templated).results ≡ 1
unfolding schedule_pods_by_template schedule_seq schedule_loop template_pods after_one
    schedule_one_pod framework_for_pod create_pod_from_template pod_of_template schedule_pod
    select_host find_nodes_that_fit_pod find_nodes_that_pass_filters find_nodes_that_pass_extenders
    finish_schedule
one_result = refl

schedule_pods_by_template_bounded_example :
    (length (answer_of templated).results ≤ 3) × AllButLast cluster (answer_of templated).results
schedule_pods_by_template_bounded_example =
    schedule_pods_by_template_bounded cluster template (on ("full" ∷ [])) 3
      (record { dry_run = false }) snapshot (answer_of templated) templated_ran
