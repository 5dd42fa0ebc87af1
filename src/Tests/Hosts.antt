-- ===== src/Tests/Hosts.antt =====
-- The choice of a host among two nodes that fit.
use mathlib.Core.Path.{subst}
use mathlib.Core.Option.{some-injective}
use scheduler_library.Base.{
  ℕ, ◌≡◌, refl, String, true, Option, none, some, List, [], ◌∷◌, any, str_eq, arith,
}
use scheduler_library.Upstream.{
  NodeScores, NodeScores, NodeScores, NodeScores, NodeScores, NodeScores, NodeScores, NodeScores,
  NodeScores, ExtenderReply,
}
use scheduler_library.World.{World}
use scheduler_library.Upstream.Results.{ok-injective}
use scheduler_library.Scheduler.Types.{PendingPod, new_scheduler, no_result}
use scheduler_library.Scheduler.Attempt.{Attempt, schedule_pod, select_host, place}
use scheduler_library.Scheduler.Filters.Sound.{All, Passes}
use scheduler_library.Scheduler.Choice.{ChoiceLaws}
use scheduler_library.Scheduler.Choice.Host.{All-map}
use scheduler_library.Scheduler.Choice.Suggested.{schedule_pod_suggests}
use scheduler_library.Tests.Cluster.{a_framework, cluster, kinds, best, score}
use scheduler_library.Tests.Cluster.Assumptions.{cluster-StatusLaws}
use scheduler_library.Tests.Fixture.{store, world}
use scheduler_library.Scheduler.Extenders.{find_nodes_that_pass_extenders}
use scheduler_library.Scheduler.Filters.{find_nodes_that_pass_filters}
use scheduler_library.Scheduler.Fit.{find_nodes_that_fit_pod}
use scheduler_library.Scheduler.Prioritize.{prioritize_nodes}
use scheduler_library.Tests.Cluster.{assume}

abbrev two : World cluster
two = record world { snap = record (world.snap) { placement = "full" ∷ "n2" ∷ "n3" ∷ [] } }

abbrev InPlacement : String → Type 0
InPlacement n = any (str_eq n) (two.snap.placement) ≡ true

pub best-All :
    (B : String → Type 0) (ss : List NodeScores) (host : String)
    → best ss ≡ some host
    → All (λ (s : NodeScores). B s.name) ss
    → B host
best-All B [] host e h = cc
best-All B (s ∷ ss) host e h = subst B (some-injective _ _ e) h.0

two-ChoiceLaws : ChoiceLaws cluster (two.snap) InPlacement
two-ChoiceLaws = record {
  listed = λ ns e. subst (All InPlacement) (ok-injective e) (refl, (refl, (refl, tt)));
  looked_up = λ name n e. ground arith;
  subset = λ B env x pod ns reply e h.
      subst (λ (r : ExtenderReply kinds). All B r.feasible) (ok-injective e) h;
  scored = λ B env f cs pod ns h. All-map (λ (s : NodeScores). B s.name) score ns h;
  popped = best-All;
}

abbrev next : PendingPod cluster
next = record {
  pod_ref = 1;
  pod_info = record { pod = store 1; terms = tt };
  signature = tt;
  cycle_state = 0;
}

abbrev tried : Option (Attempt cluster)
tried = schedule_pod cluster (new_scheduler 0 0 2) a_framework next two

abbrev attempt_of : Option (Attempt cluster) → Attempt cluster
attempt_of none =
    (record { schedule_result = no_result; pod = 1; status = cluster.nil_status }, none, two)
attempt_of (some a) = a

ran_tried : tried ≡ some (attempt_of tried)
unfolding schedule_pod select_host find_nodes_that_fit_pod find_nodes_that_pass_filters
    find_nodes_that_pass_extenders prioritize_nodes
ran_tried = refl

succeeded : cluster.is_success (attempt_of tried).0.status ≡ true
unfolding schedule_pod select_host find_nodes_that_fit_pod find_nodes_that_pass_filters
    find_nodes_that_pass_extenders prioritize_nodes place assume
succeeded = refl

schedule_pod_suggests_example :
    (n : String) × (n ≡ (attempt_of tried).0.schedule_result.suggested_host)
    × InPlacement n
    × ((env : ℕ) × Passes cluster (cluster.run_filter (two.snap) env a_framework 0 (store 1)) n)
schedule_pod_suggests_example =
    schedule_pod_suggests cluster-StatusLaws two two-ChoiceLaws a_framework next refl
      (new_scheduler 0 0 2) (attempt_of tried) ran_tried succeeded

chosen : (attempt_of tried).0.schedule_result.suggested_host ≡ "n2"
unfolding schedule_pod select_host find_nodes_that_fit_pod find_nodes_that_pass_filters
    find_nodes_that_pass_extenders prioritize_nodes place assume
chosen = refl
