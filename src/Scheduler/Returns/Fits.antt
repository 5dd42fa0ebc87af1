-- ===== src/Scheduler/Returns/Fits.antt =====
-- `findNodesThatFitPod` returns: its index is never computed modulo 0, and no list of a negative length
-- is made.
use mathlib.Core.Bool.{false≢true}
use scheduler_library.Base.{
  ℕ, ◌^◌, ◌≤◌, ◌<◌, ◌≡◌, refl, inl, inr, String, Bool, true, false, not, ◌&&◌, ◌||◌, Option, none,
  some, List, [], ◌∷◌, length, ◌==◌, str_eq, is_some, is_empty, arith, Bool-cases, Option-cases,
  if◌then◌else◌, ◌<>◌,
}
use scheduler_library.Upstream.{Upstream, Pod, Placement, PreFilterReply, Result, ok}
use scheduler_library.Upstream.Results.{Result-cases}
use scheduler_library.Scheduler.Types.{Scheduler, PendingPod}
use scheduler_library.Scheduler.Filters.{Passed, nodes_to_find, find_nodes_that_pass_filters}
use scheduler_library.Scheduler.Filters.Sound.{find_nodes_that_pass_filters_sound}
use scheduler_library.Scheduler.Extenders.{find_nodes_that_pass_extenders}
use scheduler_library.Scheduler.Fit.{
  nodes_in_placement, evaluate_nominated_node, nominated_nodes, finish_fit, fit_nodes,
  extend_nominated, joined_by, fit_after_pre_filter, find_nodes_that_fit_pod,
}

-- What the filtering stages rely on: the list of the nodes in the placement is as long as their
-- number, an accepted placement with nodes has some, and neither it nor the names that PreFilter
-- gives are too many for an int32.
pub record CountLaws (U : Upstream) : Type 0 where
  pub listed :
      (snap : U.Snap) (ns : List U.Node)
      → U.list_nodes_in_placement snap ≡ ok ns
      → length ns ≡ U.num_nodes_in_placement snap
  pub placed :
      (snap t : U.Snap) (pl : Placement U.kinds)
      → is_empty pl.nodes ≡ false
      → U.assume_placement snap pl ≡ (none, t)
      → (U.num_nodes_in_placement t == 0) ≡ false
  pub few_nodes : (snap : U.Snap) → U.num_nodes_in_placement snap < 2 ^ 31
  pub few_names : (pre : U.PreResult) → length (U.node_names pre) < 2 ^ 31

module _ {U : Upstream} (C : CountLaws U) (snap : U.Snap) (f : U.Framework)
    (has : U.has_filter_plugins f ≡ true) where
  open U use {kinds, Node, Env, CycleRef, Diagnosis}

  filters-return :
      (env : Env) (s : Scheduler) (cs : CycleRef) (pod : Pod kinds) (d : Diagnosis)
      (nodes : List Node) (find_all : Bool)
      → length nodes < 2 ^ 31
      → s.num_nodes_to_find < 2 ^ 31
      → (r : Passed U) × (find_nodes_that_pass_filters U snap env s f cs pod d nodes find_all
          ≡ some r)
  filters-return env s cs pod d nodes find_all b few =
      let want : nodes_to_find U s f nodes find_all < 2 ^ 31 = ground arith in
      let (r, e, _, _) =
        find_nodes_that_pass_filters_sound U snap env s f cs pod d nodes find_all has want in
      (r, e)

  nodes_in_placement-length :
      (names : List String) → length (nodes_in_placement U snap names) ≤ length names
  unfolding nodes_in_placement
  nodes_in_placement-length [] = omega arith
  nodes_in_placement-length (n ∷ ns) = elim (Result-cases (U.get_node_in_placement snap n)) [
    | inl (ni, q) ↦ rw (q, nodes_in_placement) (omega (arith, nodes_in_placement-length ns))
    | inr (e, q) ↦ rw (q, nodes_in_placement) (omega (arith, nodes_in_placement-length ns))
  ]

  finish_fit-returns :
      (env : Env) (s : Scheduler) (pod : Pod kinds) (hint : String) (total : ℕ) (p : Passed U)
      → (total == 0) ≡ false
      → is_some (finish_fit U env s f pod hint total (some p)) ≡ true
  unfolding finish_fit
  finish_fit-returns env s pod hint total p pos = elim (Option-cases p.error) [
    | inr (e, q) ↦ rw (pos, q) refl
    | inl q ↦
        elim (Result-cases
          (find_nodes_that_pass_extenders U env (U.extenders f) pod p.nodes p.diagnosis).0) [
            | inr (e, q1) ↦ rw (pos, q, q1) refl
            | inl (ns, q1) ↦ rw (pos, q, q1) refl
          ]
  ]

  extend_nominated-returns :
      (env : Env) (pod : Pod kinds) (r : Passed U)
      → is_some (extend_nominated U env f pod (some r)) ≡ true
  extend_nominated-returns env pod r = elim (Option-cases r.error) [
    | inr (e, q) ↦ rw q refl
    | inl q ↦ rw q refl
  ]

  evaluate_nominated_node-returns :
      (env : Env) (s : Scheduler) (cs : CycleRef) (pod : Pod kinds) (hint : String) (d : Diagnosis)
      → s.num_nodes_to_find < 2 ^ 31
      → is_some (evaluate_nominated_node U snap env s f cs pod hint d) ≡ true
  unfolding evaluate_nominated_node
  evaluate_nominated_node-returns env s cs pod hint d few =
      elim (Result-cases (U.get_node_in_placement snap nnn)) [
        | inr (e, q) ↦ elim (Result-cases (U.get snap nnn)) [
          | inr (e', q1) ↦ rw (q, evaluate_nominated_node, q1) refl
          | inl (n, q1) ↦ rw (q, evaluate_nominated_node, q1) refl
        ]
        | inl (n, q) ↦
            let (r, q1) = filters-return env s cs pod d (n ∷ []) false (omega arith) few in
            rw (q, evaluate_nominated_node, q1) (extend_nominated-returns env pod r)
      ]
    where
      nnn : String
      nnn = if str_eq pod.nominated_node_name "" then hint else pod.nominated_node_name

  module _ (p : PendingPod U) (s : Scheduler) (few : s.num_nodes_to_find < 2 ^ 31) where
    fit_nodes-returns :
        (env : Env) (hint : String) (d : Diagnosis) (all : List Node) (pre : U.PreResult)
        (plugins : List String) (find_all : Bool)
        → length all < 2 ^ 31
        → (length all == 0) ≡ false
        → is_some (fit_nodes U snap env s f p hint d all pre plugins find_all) ≡ true
    unfolding fit_nodes
    fit_nodes-returns env hint d all pre plugins find_all b pos =
        elim (Bool-cases (U.all_nodes pre)) [
          | inl q ↦
              let (r, q1) =
                filters-return env s p.cycle_state p.pod_info.pod d all find_all b few in
              rw (q, q1) (finish_fit-returns env s p.pod_info.pod hint (length all) r pos)
          | inr q ↦
              let (r, q1) =
                filters-return env s p.cycle_state p.pod_info.pod (U.set_absent_status d absent)
                  (nodes_in_placement U snap (U.node_names pre)) find_all
                  (omega (arith, nodes_in_placement-length (U.node_names pre), C.few_names pre))
                  few in
              rw (q, q1) (finish_fit-returns env s p.pod_info.pod hint (length all) r pos)
        ]
      where
        absent : U.Status
        absent =
            U.new_status U.unresolvable
              (("node(s) didn't satisfy plugin(s) [" <> (joined_by U plugins <> "]")) ∷ [])

    fit_after_pre_filter-returns :
        (env : Env) (d : Diagnosis) (all : List Node) (pre : U.PreResult) (plugins : List String)
        (find_all : Bool)
        → length all < 2 ^ 31
        → (length all == 0) ≡ false
        → is_some (fit_after_pre_filter U snap env s f p d all pre plugins find_all) ≡ true
    unfolding fit_after_pre_filter
    fit_after_pre_filter-returns env d all pre plugins find_all b pos =
        elim (Bool-cases (not find_all && nominated)) [
          | inr q ↦ rw q (fit_nodes-returns _ _ d all pre plugins find_all b pos)
          | inl q ↦ elim (Option-cases call) [
            | inl q1 ↦ absurd (
                false≢true (
                  rw q1 at (
                    evaluate_nominated_node-returns hint.1 s p.cycle_state p.pod_info.pod hint.0 d
                      few)))
            | inr (x, q1) ↦ elim (Bool-cases (is_empty (nominated_nodes U x.0))) [
              | inl q2 ↦
                  rw (q, q1, fit_after_pre_filter, q2)
                    (fit_nodes-returns _ _ _ all pre plugins find_all b pos)
              | inr q2 ↦ rw (q, q1, fit_after_pre_filter, q2) refl
            ]
          ]
        ]
      where
        hint : String × Env
        hint =
            if U.opportunistic_batching
            then U.get_node_hint snap env f p.cycle_state p.pod_info.pod p.signature s.current_cycle
            else ("", env)

        nominated : Bool
        nominated = not (str_eq p.pod_info.pod.nominated_node_name "") || not (str_eq hint.0 "")

        call : Option (Result kinds (List Node) × Diagnosis × Env)
        call = evaluate_nominated_node U snap hint.1 s f p.cycle_state p.pod_info.pod hint.0 d

    -- On a placement with nodes, the whole stage.
    pub find_nodes_that_fit_pod-returns :
        (env : Env) (find_all : Bool)
        → (U.num_nodes_in_placement snap == 0) ≡ false
        → is_some (find_nodes_that_fit_pod U snap env s f p find_all) ≡ true
    unfolding find_nodes_that_fit_pod
    find_nodes_that_fit_pod-returns env find_all pos =
        elim (Result-cases (U.list_nodes_in_placement snap)) [
          | inr (e, q) ↦ rw (q, find_nodes_that_fit_pod) refl
          | inl (all, q) ↦ elim (Bool-cases (U.is_success reply.0.status)) [
            | inl q1 ↦
                let n = C.listed snap all q in
                rw (q, find_nodes_that_fit_pod, q1)
                  (fit_after_pre_filter-returns reply.1 _ all reply.0.result reply.0.plugins
                    find_all (omega (arith, n, C.few_nodes snap)) (rw n pos))
            | inr q1 ↦ elim (Bool-cases (U.is_rejected reply.0.status)) [
              | inl q2 ↦ rw (q, find_nodes_that_fit_pod, q1, q2) refl
              | inr q2 ↦ rw (q, find_nodes_that_fit_pod, q1, q2) refl
            ]
          ]
        ]
      where
        reply : PreFilterReply kinds × Env
        reply = U.run_pre_filter snap env f p.cycle_state p.pod_info.pod
