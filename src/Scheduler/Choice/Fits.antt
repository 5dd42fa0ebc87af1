-- ===== src/Scheduler/Choice/Fits.antt =====
-- The nodes that findNodesThatFitPod returns are in the placement and pass the filters.
use scheduler_library.Base.{
  ◌≡◌, inl, inr, String, Bool, true, not, ◌&&◌, ◌||◌, Option, List, length, str_eq, is_empty,
  Bool-cases, Option-cases, if◌then◌else◌,
}
use scheduler_library.Upstream.{Upstream, PreFilterReply, Result, ok, err}
use scheduler_library.Upstream.Results.{Result-cases}
use scheduler_library.Trail.{OnReturn}
use scheduler_library.Scheduler.Types.{Scheduler, PendingPod, Fit}
use scheduler_library.Scheduler.Filters.Sound.{All}
use scheduler_library.Scheduler.Fit.{
  evaluate_nominated_node, nominated_nodes, fit_nodes, fit_after_pre_filter,
  find_nodes_that_fit_pod,
}
use scheduler_library.Scheduler.Choice.{
  ChoiceLaws, Suits, OnOk, FitSuits, found-Suits, evaluate-Suits, finish_fit-Suits,
  nodes_in_placement-All,
}

module _ {U : Upstream} {snap : U.Snap} {A : U.Node → Type 0} (L : ChoiceLaws U snap A)
    (f : U.Framework) (p : PendingPod U) (has : U.has_filter_plugins f ≡ true) where
  open U use {kinds, Node, Env, Diagnosis}

  abbrev FitGood : Fit U → Type 0
  FitGood = FitSuits L f p.cycle_state p.pod_info.pod

  abbrev pub Good : Node → Type 0
  Good = Suits L f p.cycle_state p.pod_info.pod

  fit_nodes-Suits :
      (env : Env) (s : Scheduler) (hint : String) (d : Diagnosis) (all : List Node)
      (pre : U.PreResult) (plugins : List String) (find_all : Bool)
      → All A all
      → OnReturn FitGood (fit_nodes U snap env s f p hint d all pre plugins find_all)
  unfolding fit_nodes
  fit_nodes-Suits env s hint d all pre plugins find_all a = elim (Bool-cases (U.all_nodes pre)) [
    | inl q ↦ rw q (
        finish_fit-Suits L f p.cycle_state p.pod_info.pod env s hint (length all) _
          (found-Suits L f p.cycle_state p.pod_info.pod has env s d all find_all a))
    | inr q ↦ rw q (
        finish_fit-Suits L f p.cycle_state p.pod_info.pod env s hint (length all) _ (
          found-Suits L f p.cycle_state p.pod_info.pod has env s _ _ find_all
            (nodes_in_placement-All L f p.cycle_state p.pod_info.pod (U.node_names pre))))
  ]

  nominated-Suits :
      (r : Result kinds (List Node))
      → OnOk L f p.cycle_state p.pod_info.pod r
      → All Good (nominated_nodes U r)
  nominated-Suits (err e) h = tt
  nominated-Suits (ok ns) h = h

  fit_after_pre_filter-Suits :
      (env : Env) (s : Scheduler) (d : Diagnosis) (all : List Node) (pre : U.PreResult)
      (plugins : List String) (find_all : Bool)
      → All A all
      → OnReturn FitGood (fit_after_pre_filter U snap env s f p d all pre plugins find_all)
  unfolding fit_after_pre_filter
  fit_after_pre_filter-Suits env s d all pre plugins find_all a =
      elim (Bool-cases (not find_all && nominated)) [
        | inr q ↦ rw q (fit_nodes-Suits _ s _ d all pre plugins find_all a)
        | inl q ↦ elim (Option-cases call) [
          | inl q1 ↦ rw (q, q1, fit_after_pre_filter) tt
          | inr (x, q1) ↦
              let good : All Good (nominated_nodes U x.0) = nominated-Suits x.0 (
                rw q1 at (evaluate-Suits L f p.cycle_state p.pod_info.pod has hint.1 s hint.0 d)) in
              elim (Bool-cases (is_empty (nominated_nodes U x.0))) [
                | inl q2 ↦
                    rw (q, q1, fit_after_pre_filter, q2)
                      (fit_nodes-Suits _ s _ _ all pre plugins find_all a)
                | inr q2 ↦ rw (q, q1, fit_after_pre_filter, q2) good
              ]
        ]
      ]
    where
      hint : String × Env
      hint =
          if U.opportunistic_batching
          then U.get_node_hint snap env f p.cycle_state p.pod_info.pod p.signature s.current_cycle
          else ("", env)

      nominated : Bool
      nominated = not (str_eq p.pod_info.pod.nominated_node_name "") || not (str_eq hint.0 "")

      call : Option (Result kinds (List Node) × Diagnosis × Env)
      call = evaluate_nominated_node U snap hint.1 s f p.cycle_state p.pod_info.pod hint.0 d

  pub fit-Suits :
      (env : Env) (s : Scheduler) (find_all : Bool)
      → OnReturn FitGood (find_nodes_that_fit_pod U snap env s f p find_all)
  unfolding find_nodes_that_fit_pod
  fit-Suits env s find_all = elim (Result-cases (U.list_nodes_in_placement snap)) [
    | inr (e, q) ↦ rw (q, find_nodes_that_fit_pod) tt
    | inl (all, q) ↦ elim (Bool-cases (U.is_success reply.0.status)) [
      | inl q1 ↦
          rw (q, find_nodes_that_fit_pod, q1)
            (fit_after_pre_filter-Suits reply.1 s _ all reply.0.result reply.0.plugins find_all
              (L.listed all q))
      | inr q1 ↦ elim (Bool-cases (U.is_rejected reply.0.status)) [
        | inl q2 ↦ rw (q, find_nodes_that_fit_pod, q1, q2) tt
        | inr q2 ↦ rw (q, find_nodes_that_fit_pod, q1, q2) tt
      ]
    ]
  ]
    where
      reply : PreFilterReply kinds × Env
      reply = U.run_pre_filter snap env f p.cycle_state p.pod_info.pod
