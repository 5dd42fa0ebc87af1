-- ===== src/Snapshot/Feasible/Agrees.antt =====
-- `CanSchedulePod` and `SchedulePods` on the same snapshot, pod and placement.
use mathlib.Core.Path.{subst}
use mathlib.Core.Option.{none-ne-some}
use scheduler_library.Base.{
  ℕ, ◌^◌, ◌<◌, ◌≡◌, refl, sym, ap, ◌∙◌, inl, inr, String, Bool, true, false, not, ◌&&◌, Option,
  none, some, List, [], ◌∷◌, ◌||◌, length, is_some, is_empty, Bool-cases, Option-cases, Member,
  Member-map,
}
use scheduler_library.Upstream.{Upstream, Placement, ok}
use scheduler_library.Upstream.Laws.{StatusLaws}
use scheduler_library.World.{World, Undo}
use scheduler_library.Upstream.Results.{Result-cases, ok-injective, err-ne-ok}
use scheduler_library.Trail.{OnReturn}
use scheduler_library.Profiles.{framework_for_pod}
use scheduler_library.Scheduler.Types.{
  Scheduler, AlgorithmResult, PendingPod, Fit, new_scheduler, max_int32,
}
use scheduler_library.Scheduler.Filters.Sound.{All}
use scheduler_library.Scheduler.Attempt.{Attempt, schedule_pod}
use scheduler_library.Scheduler.Choice.{ChoiceLaws}
use scheduler_library.Scheduler.Choice.Suggested.{schedule_pod_suggests}
use scheduler_library.Scheduler.Choice.Offered.{FixedAnswers, find_all_nodes_that_fit_pod-Offers}
use scheduler_library.Snapshot.Types.{
  ClusterSnapshot, SchedulePodsOptions, SchedulingResult, restore,
}
use scheduler_library.Snapshot.Schedule.{
  one_pod_of, OnePod, Scheduled, new_cycle, schedule_one_pod, after_one, schedule_loop,
  finish_schedule, and_finish, forget, schedule_seq, schedule_pods, set_snap,
}
use scheduler_library.Snapshot.Feasible.{
  Feasibility, can_schedule_pod, find_feasible, feasibility_of,
}

pub All-Member : {A : Type 0} (P : A → Type 0) (a : A) (xs : List A) → All P xs → Member a xs → P a
All-Member P a [] h m = absurd m
All-Member P a (x ∷ xs) h (inl e) = subst P (sym e) h.0
All-Member P a (x ∷ xs) h (inr m) = All-Member P a xs h.1 m

-- The scheduler snapshot with the placement.
abbrev pub on_placement : (U : Upstream) → Placement U.kinds → ClusterSnapshot U → U.Snap
on_placement U pl s = (U.assume_placement s.world.snap pl).1

module _ {U : Upstream} (S : StatusLaws U) (r : ℕ) (pl : Placement U.kinds) (s : ClusterSnapshot U)
    (f : U.Framework) (all : List U.Node) (verdict : U.Node → U.Status)
    (some_nodes : is_empty pl.nodes ≡ false)
    (placed : (U.assume_placement s.world.snap pl).0 ≡ none)
    (listed : U.list_nodes_in_placement (on_placement U pl s) ≡ ok all)
    (profile : framework_for_pod U s.profiles (s.world.pods r) ≡ ok f)
    (has : U.has_filter_plugins f ≡ true) (few : length all < 2 ^ 31)
    (F : FixedAnswers U (on_placement U pl s) f (s.world.pods r) verdict)
    (L : ChoiceLaws U (on_placement U pl s) (λ n. Member n all)) where
  open U use {kinds, Node}

  -- The host is a node of the placement that passes the filters.
  abbrev IsGood : String → Type 0
  IsGood host =
      (n : Node) × (U.node_name n ≡ host) × Member n all × (U.is_success (verdict n) ≡ true)

  abbrev Names : String → Feasibility U → Type 0
  Names host x = x.error ≡ none → Member host x.node_names

  feasibility_of-Names :
      (n : Node) (w : World U) (fit : Option (Fit U))
      → OnReturn (λ (x : Fit U). Member n x.nodes) fit
      → OnReturn (Names (U.node_name n)) (feasibility_of U w s fit)
  feasibility_of-Names n w none h = tt
  feasibility_of-Names n w (some fit) h = elim (Option-cases fit.error) [
    | inr (e, q) ↦ rw q (λ c. absurd (none-ne-some _ (sym c)))
    | inl q ↦ rw q (λ _. Member-map U.node_name n fit.nodes h)
  ]

  -- Every node that passes is among the answers of `CanSchedulePod`.
  can_schedule_pod-Names :
      (n : Node)
      → Member n all
      → U.is_success (verdict n) ≡ true
      → OnReturn (Names (U.node_name n)) (can_schedule_pod U r (some pl) s)
  unfolding can_schedule_pod find_feasible
  can_schedule_pod-Names n there good = elim (Result-cases (U.pod_terms (s.world.pods r))) [
    | inr (e, q) ↦
        rw (some_nodes, profile, can_schedule_pod, q) (λ c. absurd (none-ne-some _ (sym c)))
    | inl (t, q) ↦
        let p : PendingPod U = record {
          pod_ref = r;
          pod_info = record { pod = s.world.pods r; terms = t };
          signature = U.empty_signature;
          cycle_state = (U.new_cycle_state s.world.env).0;
        } in
        rw (some_nodes, profile, can_schedule_pod, q, placed, find_feasible)
          (feasibility_of-Names n
            (record (s.world) {
              snap = on_placement U pl s;
              env = (U.new_cycle_state s.world.env).1;
            })
            _
            (find_all_nodes_that_fit_pod-Offers p F all n there good few has _
              (new_scheduler 0 0 max_int32) listed refl))
  ]

  abbrev Picks : List (SchedulingResult U) → Type 0
  Picks = All (λ x. U.is_success x.status ≡ true → IsGood x.selected_node_name)

  abbrev PicksOne : OnePod U → Type 0
  PicksOne one =
      (x : AlgorithmResult U × Option (Undo U))
      → one.result ≡ ok x
      → U.is_success x.0.status ≡ true
      → IsGood x.0.schedule_result.suggested_host

  abbrev pending : U.Terms → U.CycleRef → PendingPod U
  pending t cs = record {
    pod_ref = r;
    pod_info = record { pod = s.world.pods r; terms = t };
    signature = U.empty_signature;
    cycle_state = cs;
  }

  abbrev moved : World U → World U
  moved w = record w { snap = on_placement U pl s }

  one_pod_of-Picks :
      (sch : Scheduler) (t : U.Terms) (cs : U.CycleRef) (w : World U) (o : Option (Attempt U))
      → schedule_pod U sch f (pending t cs) (moved w) ≡ o
      → OnReturn PicksOne (one_pod_of U o)
  one_pod_of-Picks sch t cs w none ran = tt
  one_pod_of-Picks sch t cs w (some a) ran = λ x e good.
      let same : a.0 ≡ x.0 = ap (λ z. z.0) (ok-injective e) in
      let (n, name, m, (env, passes)) =
        schedule_pod_suggests S (moved w) L f (pending t cs) has sch a ran
          (ap (λ (z : AlgorithmResult U). U.is_success z.status) same ∙ good) in
      (
        n,
        name ∙ ap (λ (z : AlgorithmResult U). z.schedule_result.suggested_host) same,
        m,
        ap (λ (g : Node → U.Status). U.is_success (g n)) (sym (F.filter env cs)) ∙ passes.1,
      )

  schedule_one_pod-Picks :
      (sch : Scheduler) → OnReturn PicksOne (schedule_one_pod U s.profiles sch r (moved s.world))
  unfolding schedule_one_pod
  schedule_one_pod-Picks sch = elim (Result-cases (U.pod_terms (s.world.pods r))) [
    | inr (e, q) ↦ rw (profile, schedule_one_pod, q) (λ x c good. absurd (err-ne-ok c))
    | inl (t, q) ↦
        rw (profile, schedule_one_pod, q) (one_pod_of-Picks sch t _ (new_cycle U s.world).1 _ refl)
  ]

  abbrev PicksAll : Scheduled U → Type 0
  PicksAll x = Picks x.results

  after_one-Picks :
      (o : SchedulePodsOptions) (t : ClusterSnapshot U) (one : Option (OnePod U))
      → OnReturn PicksOne one
      → OnReturn PicksAll (after_one U o r [] t (schedule_loop U o 1 []) one)
  unfolding after_one schedule_loop
  after_one-Picks o t none h = tt
  after_one-Picks o t (some one) h = elim (Result-cases one.result) [
    | inr (e, q) ↦ rw (q, after_one) tt
    | inl (x, q) ↦ elim (Bool-cases (not (U.is_success x.0.status) && o.stop_on_failure)) [
      | inl q1 ↦ rw (q, after_one, q1) (h x q, tt)
      | inr q1 ↦ rw (q, after_one, q1) (h x q, tt)
    ]
  ]

  finish-Picks :
      (dry : Bool) (v : ℕ) (x : Option (Scheduled U))
      → OnReturn PicksAll x
      → OnReturn PicksAll (and_finish U dry v (forget U x))
  unfolding finish_schedule
  finish-Picks dry v none h = tt
  finish-Picks dry v (some x) h = elim (Bool-cases (is_some x.error || dry)) [
    | inr q ↦ rw q h
    | inl q ↦
        elim (Option-cases
          (restore U v (set_snap U (U.forget_placement x.snapshot.world.snap) x.snapshot))) [
            | inl q1 ↦ rw (q, q1) tt
            | inr (t, q1) ↦ rw (q, q1) h
          ]
  ]

  schedule_pods-Picks :
      (o : SchedulePodsOptions) → OnReturn PicksAll (schedule_pods U (r ∷ []) (some pl) o s)
  unfolding schedule_pods schedule_seq schedule_loop
  schedule_pods-Picks o =
      rw (some_nodes, schedule_seq, placed)
        (finish-Picks o.dry_run s.undo_log.state_version _ (
          after_one-Picks o (set_snap U (on_placement U pl s) s) _
            (schedule_one_pod-Picks (new_scheduler 0 0 1))))

  -- Let `SchedulePods` for one pod on a placement with nodes, which `AssumePlacement` accepts, give a
  -- result with a success, and let `CanSchedulePod` for the same pod and placement on the same snapshot
  -- return without an error. Then the node that the result selects is among those that
  -- `CanSchedulePod` names. The profile has filter plugins and no extenders, PreFilter accepts the pod
  -- on all nodes, the answers of Filter depend on the node only and are never errors, the parallelizer
  -- runs every piece once, and there are fewer than 2 ^ 31 nodes. The score plugins are relied on to
  -- score the nodes that they are given, and the heap to give one of them.
  pub schedule_pods-can_schedule_pod :
      (o : SchedulePodsOptions) (x : Scheduled U) (res : SchedulingResult U) (y : Feasibility U)
      → schedule_pods U (r ∷ []) (some pl) o s ≡ some x
      → Member res x.results
      → U.is_success res.status ≡ true
      → can_schedule_pod U r (some pl) s ≡ some y
      → y.error ≡ none
      → Member res.selected_node_name y.node_names
  schedule_pods-can_schedule_pod o x res y ran given good asked clean =
      let picks : Picks x.results = rw ran at (schedule_pods-Picks o) in
      let (n, name, there, passes) = All-Member _ res x.results picks given good in
      let names : Names (U.node_name n) y = rw asked at (can_schedule_pod-Names n there passes) in
      subst (λ host. Member host y.node_names) name (names clean)
