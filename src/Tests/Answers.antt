-- ===== src/Tests/Answers.antt =====
-- One pod, on a placement of which one node is full: what `CanSchedulePod` and `SchedulePods` answer.
use mathlib.Core.Path.{subst}
use scheduler_library.Base.{
  ℕ, zero, suc, ◌+◌, ◌<◌, ◌≡◌, refl, inl, inr, String, false, none, some, Option, List, [], ◌∷◌,
  length, str_eq, eq_iff, arith, Member, if◌then◌else◌,
}
use scheduler_library.Upstream.{ExtenderReply, NodeScores, Placement, ok}
use scheduler_library.Upstream.Results.{ok-injective}
use scheduler_library.Scheduler.Filters.Sound.{All}
use scheduler_library.Scheduler.Choice.{ChoiceLaws}
use scheduler_library.Scheduler.Choice.Host.{All-map}
use scheduler_library.Scheduler.Choice.Offered.{FixedAnswers}
use scheduler_library.Snapshot.Types.{SchedulingResult}
use scheduler_library.Snapshot.Schedule.{Scheduled, schedule_pods}
use scheduler_library.Snapshot.Feasible.{Feasibility, can_schedule_pod}
use scheduler_library.Snapshot.Feasible.Agrees.{on_placement, schedule_pods-can_schedule_pod}
use scheduler_library.Tests.Cluster.{
  a_framework, cluster, kinds, Verdict, good, refused, count_up, score, find_in,
}
use scheduler_library.Tests.Cluster.Assumptions.{cluster-StatusLaws}
use scheduler_library.Tests.Fixture.{store, snapshot, plainly}
use scheduler_library.Tests.Hosts.{best-All}
use scheduler_library.Profiles.{framework_for_pod}
use scheduler_library.Scheduler.Attempt.{schedule_pod, place, select_host}
use scheduler_library.Scheduler.Extenders.{find_nodes_that_pass_extenders}
use scheduler_library.Scheduler.Filters.{find_nodes_that_pass_filters}
use scheduler_library.Scheduler.Fit.{find_nodes_that_fit_pod}
use scheduler_library.Scheduler.Prioritize.{prioritize_nodes}
use scheduler_library.Snapshot.Schedule.{
  record_result, schedule_seq, schedule_one_pod, finish_schedule, schedule_loop, after_one,
}
use scheduler_library.Tests.Cluster.{assume}
use scheduler_library.UndoLog.{register_operation}

abbrev half_full : Placement kinds
half_full = record { nodes = "full" ∷ "n2" ∷ [] }

abbrev both : List String
both = "full" ∷ "n2" ∷ []

abbrev verdict : String → Verdict
verdict n = if str_eq n "full" then refused else good

length-count_up : (i n : ℕ) → length (count_up i n) ≡ n
length-count_up i zero = refl
length-count_up i (suc n) = omega (arith, length-count_up (i + 1) n)

Member-count_up : (i k n : ℕ) → k < n → Member (i + k) (count_up i n)
Member-count_up i k zero h = absurd (omega (arith, h))
Member-count_up i zero (suc n) h = inl (omega arith)
Member-count_up i (suc k) (suc n) h = inr (
    subst (λ j. Member j (count_up (i + 1) n)) (omega arith)
      (Member-count_up (i + 1) k n (omega (arith, h))))

never_broken : (n : String) → cluster.is_error (verdict n) ≡ false
never_broken n = ground arith

answers :
    FixedAnswers cluster (on_placement cluster half_full snapshot) a_framework (store 1) verdict
answers = record {
  filter = λ env cs. refl;
  clean = never_broken;
  accepts = λ env cs. refl;
  on_all = λ env cs. refl;
  no_extenders = refl;
  once = λ env n. omega (arith, length-count_up 0 n);
  every = λ env n i h. subst (λ j. Member j (count_up 0 n)) (omega arith) (Member-count_up 0 i n h);
}

found_there : (name n : String) → find_in both name ≡ ok n → Member n both
found_there name n e = ground (arith, eq_iff name "full", eq_iff name "n2")

choices : ChoiceLaws cluster (on_placement cluster half_full snapshot) (λ n. Member n both)
choices = record {
  listed =
      λ ns e. subst (All (λ n. Member n both)) (ok-injective e) (inl refl, (inr (inl refl), tt));
  looked_up = found_there;
  subset = λ B env x pod ns reply e h.
      subst (λ (r : ExtenderReply kinds). All B r.feasible) (ok-injective e) h;
  scored = λ B env f cs pod ns h. All-map (λ (s : NodeScores). B s.name) score ns h;
  popped = best-All;
}

abbrev scheduled_of : Option (Scheduled cluster) → Scheduled cluster
scheduled_of none = record { results = []; error = none; snapshot = snapshot }
scheduled_of (some r) = r

abbrev feasible_of : Option (Feasibility cluster) → Feasibility cluster
feasible_of none = record { node_names = []; diagnosis = none; error = none; snapshot = snapshot }
feasible_of (some x) = x

abbrev placed : Option (Scheduled cluster)
placed = schedule_pods cluster (1 ∷ []) (some half_full) plainly snapshot

abbrev asked : Option (Feasibility cluster)
asked = can_schedule_pod cluster 1 (some half_full) snapshot

abbrev success : SchedulingResult cluster
success = record { pod = 1; status = good; selected_node_name = "n2" }

ran : placed ≡ some (scheduled_of placed)
unfolding schedule_pods schedule_seq schedule_loop after_one schedule_one_pod framework_for_pod
    schedule_pod select_host find_nodes_that_fit_pod find_nodes_that_pass_filters
    find_nodes_that_pass_extenders prioritize_nodes place assume finish_schedule record_result
    register_operation
ran = refl

given : Member success (scheduled_of placed).results
unfolding schedule_pods schedule_seq schedule_loop after_one schedule_one_pod framework_for_pod
    schedule_pod select_host find_nodes_that_fit_pod find_nodes_that_pass_filters
    find_nodes_that_pass_extenders prioritize_nodes place assume finish_schedule record_result
    register_operation
given = inl refl

answered : asked ≡ some (feasible_of asked)
unfolding can_schedule_pod framework_for_pod find_nodes_that_fit_pod find_nodes_that_pass_filters
    find_nodes_that_pass_extenders
answered = refl

clean : (feasible_of asked).error ≡ none
unfolding can_schedule_pod framework_for_pod find_nodes_that_fit_pod find_nodes_that_pass_filters
    find_nodes_that_pass_extenders
clean = refl

schedule_pods-can_schedule_pod_example : Member "n2" (feasible_of asked).node_names
unfolding framework_for_pod
schedule_pods-can_schedule_pod_example =
    schedule_pods-can_schedule_pod cluster-StatusLaws 1 half_full snapshot a_framework both verdict
      refl refl refl refl refl (omega arith) answers choices plainly (scheduled_of placed) success
      (feasible_of asked) ran given refl answered clean
