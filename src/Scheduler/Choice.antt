-- ===== src/Scheduler/Choice.antt =====
-- The nodes that `findNodesThatFitPod` returns are in the placement and pass the filters.
pub mod Fits
pub mod Host
pub mod Suggested
pub mod Offered
use mathlib.Core.Path.{subst}
use scheduler_library.Base.{
  ℕ, ◌+◌, ◌≡◌, refl, sym, ◌∙◌, inl, inr, String, Bool, true, false, not, ◌&&◌, ◌||◌, Option, none,
  some, List, [], ◌∷◌, length, str_eq, ◌==◌, is_empty, arith, Bool-cases, Option-cases,
  if◌then◌else◌,
}
use scheduler_library.Upstream.{Upstream, Pod, Error, NodeScores, ExtenderReply, Result, ok, err}
use scheduler_library.Upstream.Results.{Result-cases}
use scheduler_library.Trail.{OnReturn}
use scheduler_library.Scheduler.Types.{Scheduler, PendingPod, Fit}
use scheduler_library.Scheduler.Filters.{Passed, find_nodes_that_pass_filters}
use scheduler_library.Scheduler.Filters.Sound.{All, Passes}
use scheduler_library.Scheduler.Filters.Among.{find_nodes_among, All-both}
use scheduler_library.Scheduler.Extenders.{Extended, find_nodes_that_pass_extenders}
use scheduler_library.Scheduler.Fit.{
  nodes_in_placement, evaluate_nominated_node, extend_nominated, nominated_nodes, finish_fit,
  fit_nodes, fit_after_pre_filter, find_nodes_that_fit_pod, no_fit,
}

-- What the choice of a host relies on: `A` holds of the nodes of the placement, an extender returns
-- some of the nodes that it is given, the score plugins score the nodes that they are given, and the
-- heap of scores gives one of its elements.
pub record ChoiceLaws (U : Upstream) (snap : U.Snap) (A : U.Node → Type 0) : Type 1 where
  pub listed : (ns : List U.Node) → U.list_nodes_in_placement snap ≡ ok ns → All A ns
  pub looked_up : (name : String) (n : U.Node) → U.get_node_in_placement snap name ≡ ok n → A n
  pub subset :
      (B : U.Node → Type 0) (env : U.Env) (x : U.Extender) (pod : Pod U.kinds) (ns : List U.Node)
      (reply : ExtenderReply U.kinds)
      → (U.extender_filter env x pod ns).0 ≡ ok reply
      → All B ns
      → All B reply.feasible
  pub scored :
      (B : String → Type 0) (env : U.Env) (f : U.Framework) (cs : U.CycleRef) (pod : Pod U.kinds)
      (ns : List U.Node)
      → All (λ n. B (U.node_name n)) ns
      → All (λ (s : NodeScores). B s.name) (U.run_score snap env f cs pod ns).0
  pub popped :
      (B : String → Type 0) (ss : List NodeScores) (host : String)
      → U.pop_best ss ≡ some host
      → All (λ (s : NodeScores). B s.name) ss
      → B host

module _ {U : Upstream} {snap : U.Snap} {A : U.Node → Type 0} (L : ChoiceLaws U snap A)
    (f : U.Framework) (cs : U.CycleRef) (pod : Pod U.kinds) where
  open U use {kinds, Node, Env, Diagnosis, Extender}

  -- The node is in the placement and passes the filters, run in some state of the plugins.
  abbrev pub Suits : Node → Type 0
  Suits n = A n × ((env : Env) × Passes U (U.run_filter snap env f cs pod) n)

  abbrev pub OnOk : Result kinds (List Node) → Type 0
  OnOk (ok ns) = All Suits ns
  OnOk (err e) = Unit

  pub extenders-Suits :
      (xs : List Extender) (env : Env) (nodes : List Node) (d : Diagnosis)
      → All Suits nodes
      → OnOk (find_nodes_that_pass_extenders U env xs pod nodes d).0
  unfolding find_nodes_that_pass_extenders
  extenders-Suits [] env nodes d h = h
  extenders-Suits (x ∷ xs) env nodes d h = elim (Bool-cases (is_empty nodes)) [
    | inl q ↦ rw q h
    | inr q ↦ elim (Bool-cases (U.is_interested x pod)) [
      | inr q1 ↦ rw (q, q1) (extenders-Suits xs env nodes d h)
      | inl q1 ↦ elim (Result-cases (U.extender_filter env x pod nodes).0) [
        | inl (reply, q2) ↦
            rw (q, q1, q2, find_nodes_that_pass_extenders)
              (extenders-Suits xs _ reply.feasible _ (L.subset Suits env x pod nodes reply q2 h))
        | inr (e, q2) ↦ elim (Bool-cases (U.is_ignorable x)) [
          | inl q3 ↦
              rw (q, q1, q2, find_nodes_that_pass_extenders, q3) (extenders-Suits xs _ nodes d h)
          | inr q3 ↦ rw (q, q1, q2, find_nodes_that_pass_extenders, q3) tt
        ]
      ]
    ]
  ]

  pub nodes_in_placement-All : (names : List String) → All A (nodes_in_placement U snap names)
  unfolding nodes_in_placement
  nodes_in_placement-All [] = tt
  nodes_in_placement-All (n ∷ ns) = elim (Result-cases (U.get_node_in_placement snap n)) [
    | inl (ni, q) ↦ rw (q, nodes_in_placement) (L.looked_up n ni q, nodes_in_placement-All ns)
    | inr (e, q) ↦ rw (q, nodes_in_placement) (nodes_in_placement-All ns)
  ]

  abbrev pub FitSuits : Fit U → Type 0
  FitSuits fit = All Suits fit.nodes

  abbrev pub PassedSuits : Passed U → Type 0
  PassedSuits r = All Suits r.nodes

  pub finish_fit-Suits :
      (env : Env) (s : Scheduler) (hint : String) (total : ℕ) (p : Option (Passed U))
      → OnReturn PassedSuits p
      → OnReturn FitSuits (finish_fit U env s f pod hint total p)
  unfolding finish_fit
  finish_fit-Suits env s hint total none h = tt
  finish_fit-Suits env s hint total (some p) h =
      let call = find_nodes_that_pass_extenders U env (U.extenders f) pod p.nodes p.diagnosis in
      let good = extenders-Suits (U.extenders f) env p.nodes p.diagnosis h in
      elim (Bool-cases (total == 0)) [
        | inl q ↦ rw q tt
        | inr q ↦ elim (Option-cases p.error) [
          | inr (e, q1) ↦ rw (q, q1) tt
          | inl q1 ↦ elim (Result-cases call.0) [
            | inr (e, q2) ↦ rw (q, q1, q2) tt
            | inl (ns, q2) ↦ rw (q, q1, q2) (subst OnOk q2 good)
          ]
        ]
      ]

  module _ (has : U.has_filter_plugins f ≡ true) where
    pub found-Suits :
        (env : Env) (s : Scheduler) (d : Diagnosis) (nodes : List Node) (find_all : Bool)
        → All A nodes
        → OnReturn PassedSuits (find_nodes_that_pass_filters U snap env s f cs pod d nodes find_all)
    found-Suits env s d nodes find_all a =
        elim (Option-cases (find_nodes_that_pass_filters U snap env s f cs pod d nodes find_all)) [
          | inl q ↦ rw q tt
          | inr (r, q) ↦
              let (x, y) = find_nodes_among U A snap env s f cs pod d nodes find_all r has a q in
              rw q (All-both A _ Suits r.nodes (λ n b c. (b, (env, c))) x y)
        ]

    pub evaluate-Suits :
        (env : Env) (s : Scheduler) (hint : String) (d : Diagnosis)
        → OnReturn
            (λ (x : Extended U). OnOk x.0)
            (evaluate_nominated_node U snap env s f cs pod hint d)
    unfolding evaluate_nominated_node
    evaluate-Suits env s hint d = elim (Result-cases (U.get_node_in_placement snap nnn)) [
      | inr (e, q) ↦ elim (Result-cases (U.get snap nnn)) [
        | inr (e', q1) ↦ rw (q, evaluate_nominated_node, q1) tt
        | inl (n, q1) ↦ rw (q, evaluate_nominated_node, q1) tt
      ]
      | inl (n, q) ↦
          rw (q, evaluate_nominated_node)
            (extended env _ (found-Suits env s d (n ∷ []) false (L.looked_up nnn n q, tt)))
    ]
      where
        nnn : String
        nnn = if str_eq pod.nominated_node_name "" then hint else pod.nominated_node_name

        extended :
            (env : Env) (p : Option (Passed U))
            → OnReturn PassedSuits p
            → OnReturn (λ (x : Extended U). OnOk x.0) (extend_nominated U env f pod p)
        extended env none h = tt
        extended env (some p) h = elim (Option-cases p.error) [
          | inr (e, q) ↦ rw q tt
          | inl q ↦ rw q (extenders-Suits (U.extenders f) env p.nodes p.diagnosis h)
        ]
