-- ===== src/Tests/Attempts.antt =====
-- Runs of a scheduling attempt and of its filtering stage, and of the undo log.
use scheduler_library.Base.{
  is_some, is_empty, ap, sym, suc, ◌+◌, ◌≡◌, refl, String, true, false, Option, none, some, List,
  [], ◌∷◌, arith, str_eq, if◌then◌else◌,
}
use scheduler_library.World.{World}
use mathlib.Core.Bool.{true≢false}
use mathlib.Core.Option.{none-ne-some}
use scheduler_library.Upstream.{Placement}
use scheduler_library.UndoLog.{restore_state}
use scheduler_library.Tests.Cluster.Assumptions.{cluster-Laws, cluster-StatusLaws}
use scheduler_library.Tests.Cluster.{a_framework, cluster, kinds, view}
use scheduler_library.Profiles.{framework_for_pod}
use scheduler_library.Scheduler.Attempt.{Attempt, schedule_pod, select_host}
use scheduler_library.Scheduler.Extenders.{find_nodes_that_pass_extenders}
use scheduler_library.Scheduler.Filters.{Passed, find_nodes_that_pass_filters}
use scheduler_library.Scheduler.Fit.{find_nodes_that_fit_pod}
use scheduler_library.Snapshot.Feasible.{Feasibility, can_schedule_pod}
use scheduler_library.Snapshot.Extends.{Unchanged}
use scheduler_library.Scheduler.Types.{PendingPod, new_scheduler, no_result}
use scheduler_library.Scheduler.Attempt.{Attempt}
use scheduler_library.Scheduler.Reverts.{Placed, schedule_pod_reverts}
use scheduler_library.UndoLog.Restore.{run_undos, restore_state_lem}
use scheduler_library.Snapshot.Feasible.{Feasibility}
use scheduler_library.Snapshot.Feasible.ReadOnly.{PlacementLaws, can_schedule_pod_read_only}
use scheduler_library.Scheduler.Filters.{Passed, nodes_to_find}
use scheduler_library.Scheduler.Filters.Sound.{All, Passes, find_nodes_that_pass_filters_sound}
use scheduler_library.Upstream.{Upstream}
use scheduler_library.Scheduler.Filters.Unfiltered.{find_nodes_unfiltered}
use scheduler_library.Scheduler.Filters.Complete.{passing, find_all_passing}
use scheduler_library.Base.{length, ◌≤◌, is_some}
use scheduler_library.Tests.Cluster.{is_broken, refused, good}
use scheduler_library.Tests.Fixture.{store, world, snapshot, on, pins}

-- The question whether a pod fits.
abbrev feasible_of : Option (Feasibility cluster) → Feasibility cluster
feasible_of none = record { node_names = []; diagnosis = none; error = none; snapshot = snapshot }
feasible_of (some r) = r

abbrev asked : Option (Feasibility cluster)
asked = can_schedule_pod cluster 1 (on ("n2" ∷ "full" ∷ [])) snapshot

ran_asked : asked ≡ some (feasible_of asked)
unfolding framework_for_pod find_nodes_that_fit_pod find_nodes_that_pass_filters
    find_nodes_that_pass_extenders can_schedule_pod
ran_asked = refl

-- The placement of a listing; an empty one is none.
abbrev placed : List String → Option (Placement kinds)
placed [] = none
placed (n ∷ ns) = some (record { nodes = n ∷ ns })

placed-nodes :
    (ns ms : List String) → is_empty ns ≡ false → ns ≡ ms → placed ms ≡ some (record { nodes = ns })
placed-nodes [] ms some_nodes h = absurd (true≢false some_nodes)
placed-nodes (n ∷ ns) ms some_nodes h = rw (sym h) refl

abbrev cluster-PlacementLaws : PlacementLaws cluster
cluster-PlacementLaws = record {
  assumed = λ s. placed s.placement;
  assume_takes = λ s t pl some_nodes h.
      placed-nodes pl.nodes t.placement some_nodes (ap (λ x. x.1.placement) h);
  assume_refused = λ s t pl e h. absurd (none-ne-some _ (ap (λ x. x.0) h));
  forget_frees = λ s. refl;
}

can_schedule_pod_read_only_example :
    Unchanged view pins snapshot (feasible_of asked).snapshot
    × (cluster-PlacementLaws.assumed (feasible_of asked).snapshot.world.snap ≡ none)
can_schedule_pod_read_only_example =
    can_schedule_pod_read_only view cluster-Laws pins cluster-PlacementLaws 1
      (on ("n2" ∷ "full" ∷ [])) snapshot (feasible_of asked) refl ran_asked

answer : (feasible_of asked).node_names ≡ "n2" ∷ []
unfolding framework_for_pod find_nodes_that_fit_pod find_nodes_that_pass_filters
    find_nodes_that_pass_extenders can_schedule_pod
answer = refl

-- One attempt, in a placement of one node.
abbrev pending : PendingPod cluster
pending = record {
  pod_ref = 1;
  pod_info = record { pod = store 1; terms = tt };
  signature = tt;
  cycle_state = 0;
}

abbrev placed_world : World cluster
placed_world = record world { snap = record (world.snap) { placement = "n2" ∷ [] } }

abbrev attempt : Option (Attempt cluster)
attempt = schedule_pod cluster (new_scheduler 0 0 1) a_framework pending placed_world

abbrev attempt_of : Option (Attempt cluster) → Attempt cluster
attempt_of none = (
  record { schedule_result = no_result; pod = 1; status = cluster.nil_status },
  none,
  placed_world,
)
attempt_of (some a) = a

ran_attempt : attempt ≡ some (attempt_of attempt)
unfolding schedule_pod select_host find_nodes_that_fit_pod find_nodes_that_pass_filters
    find_nodes_that_pass_extenders
ran_attempt = refl

schedule_pod_reverts_example :
    Placed view cluster-Laws cluster-StatusLaws pins placed_world (attempt_of attempt)
schedule_pod_reverts_example =
    schedule_pod_reverts view cluster-Laws cluster-StatusLaws pins (new_scheduler 0 0 1) a_framework
      pending placed_world (attempt_of attempt) ran_attempt

restore_state_example :
    restore_state 4
      (record { undo_operations = suc ∷ suc ∷ (λ n. 0) ∷ []; state_version = 4 + 2 })
      7
    ≡ some (
      record { undo_operations = (λ n. 0) ∷ []; state_version = 4 },
      run_undos (suc ∷ suc ∷ []) 7,
    )
restore_state_example = restore_state_lem 4 (suc ∷ suc ∷ []) ((λ n. 0) ∷ []) 7 (omega arith)

-- Filtering.
abbrev three : List String
three = "n1" ∷ "full" ∷ "n2" ∷ []

find_nodes_that_pass_filters_example :
    (r : Passed cluster) × (find_nodes_that_pass_filters cluster world.snap 0
        (new_scheduler 0 0 1)
        a_framework
        0
        (store 1)
        []
        three
        false
      ≡ some r)
    × (length r.nodes ≤ nodes_to_find cluster (new_scheduler 0 0 1) a_framework three false)
    × All (Passes cluster (cluster.run_filter world.snap 0 a_framework 0 (store 1))) r.nodes
find_nodes_that_pass_filters_example =
    find_nodes_that_pass_filters_sound cluster world.snap 0 (new_scheduler 0 0 1) a_framework 0
      (store 1) [] three false refl (omega arith)

find_all_passing_example :
    (r : Passed cluster) × (find_nodes_that_pass_filters cluster world.snap 0
        (new_scheduler 0 1 1)
        a_framework
        0
        (store 1)
        []
        three
        true
      ≡ some r)
    × (r.nodes
        ≡ passing cluster
            (cluster.run_filter world.snap 0 a_framework 0 (store 1))
            three
            1
            (cluster.piece_order 0 3))
    × (r.error ≡ none)
find_all_passing_example =
    find_all_passing cluster world.snap 0 (new_scheduler 0 1 1) a_framework 0 (store 1) [] three
      refl (omega arith) (omega arith) clean
  where
    clean : (n : String) → is_broken (if str_eq n "full" then refused else good) ≡ false
    clean n = ground arith

-- A profile without filter plugins, in a placement that the nodes are not in.
abbrev unfiltered : Upstream
unfiltered = record cluster { has_filter_plugins = λ f. false }

find_nodes_unfiltered_example :
    is_some (
      find_nodes_that_pass_filters unfiltered world.snap 0
        (new_scheduler 0 0 1)
        a_framework
        0
        (store 1)
        []
        []
        false)
    ≡ false
find_nodes_unfiltered_example =
    find_nodes_unfiltered unfiltered world.snap 0 (new_scheduler 0 0 1) a_framework 0 (store 1) []
      [] false refl (omega arith)
