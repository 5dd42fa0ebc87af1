-- ===== src/Scheduler/Returns.antt =====
-- `SchedulePod` and `FindAllNodesThatFitPod` return: no index is out of range, no number is divided by 0
-- and no empty heap is popped.
pub mod Fits
use mathlib.Core.Bool.{false≢true}
use mathlib.Core.Path.{subst}
use scheduler_library.Base.{
  suc, ℕ, ◌^◌, ◌<◌, ◌≡◌, refl, inl, inr, true, false, not, ◌&&◌, Option, none, some, List, [], ◌∷◌,
  length, ltb, lookup, ◌==◌, is_some, is_some-some, is_empty, map, arith, Bool-cases, Option-cases,
}
use scheduler_library.Upstream.{Upstream, Placement, NodeScores, Result, ok, err}
use scheduler_library.World.{World}
use scheduler_library.Upstream.Results.{Result-cases}
use scheduler_library.Scheduler.Types.{Scheduler, PendingPod, Fit}
use scheduler_library.Scheduler.Prioritize.{
  Totals, add_totals, or_panic, prioritize_nodes, run_extenders, interested, score_of_one,
}
use scheduler_library.Scheduler.Fit.{find_nodes_that_fit_pod}
use scheduler_library.Scheduler.Attempt.{
  Attempt, Chosen, choose, choose_best, select_host, attempt_with, schedule_pod,
}
use scheduler_library.Scheduler.Returns.Fits.{CountLaws, find_nodes_that_fit_pod-returns}

-- What the choice of a host relies on: the score plugins give one score for each node, and a heap
-- that is not empty has a first element.
pub record ScoreLaws (U : Upstream) : Type 0 where
  pub one_each :
      (snap : U.Snap) (env : U.Env) (f : U.Framework) (p : PendingPod U) (ns : List U.Node)
      → U.is_success (U.run_score snap env f p.cycle_state p.pod_info.pod ns).1 ≡ true
      → length (U.run_score snap env f p.cycle_state p.pod_info.pod ns).0 ≡ length ns
  pub some_best : (s : NodeScores) (ss : List NodeScores) → is_some (U.pop_best (s ∷ ss)) ≡ true

module _ {U : Upstream} (C : CountLaws U) (R : ScoreLaws U) (f : U.Framework) (p : PendingPod U)
    (has : U.has_filter_plugins f ≡ true) where
  open U use {kinds, Node, Env, Snap}

  -- As many totals as there are scores.
  abbrev Long : ℕ → Option (List NodeScores) → Type 0
  Long n none = ⊥
  Long n (some ss) = length ss ≡ n

  cons-Long :
      (s : NodeScores) (n : ℕ) (o : Option (List NodeScores))
      → Long n o
      → Long (suc n) (elim o [ none ↦ none | some rs ↦ some (s ∷ rs) ])
  cons-Long s n none h = h
  cons-Long s n (some rs) h = omega (arith, h)

  -- One total for each score, as long as there is a node for each of them.
  add_totals-Long :
      (env : Env) (ts : Totals U) (ss : List NodeScores) (nodes : List Node)
      → length ss ≡ length nodes
      → Long (length ss) (add_totals U env ts ss nodes).0
  unfolding add_totals
  add_totals-Long env ts [] nodes e = refl
  add_totals-Long env ts (s ∷ ss) [] e = omega (arith, e)
  add_totals-Long env ts (s ∷ ss) (n ∷ ns) e =
      let rest : length ss ≡ length ns = omega (arith, e) in
      elim (Option-cases (lookup (U.node_name n) ts)) [
        | inl q ↦ rw (q, add_totals) (cons-Long s _ _ (add_totals-Long env ts ss ns rest))
        | inr (t, q) ↦
            rw (q, add_totals)
              (cons-Long _ _ (add_totals U (U.random env).1 ts ss ns).0
                (add_totals-Long (U.random env).1 ts ss ns rest))
      ]

  -- The stage returns an error, or one score for each node.
  abbrev Scores : ℕ → Option (Result kinds (List NodeScores) × Env) → Type 0
  Scores n none = ⊥
  Scores n (some (err e, env)) = Unit
  Scores n (some (ok ss, env)) = length ss ≡ n

  or_panic-Scores :
      (n : ℕ) (x : Option (List NodeScores) × Env) → Long n x.0 → Scores n (or_panic U x)
  or_panic-Scores n (none, env) h = h
  or_panic-Scores n (some ss, env) h = h

  length-map : (nodes : List Node) → length (map (score_of_one U) nodes) ≡ length nodes
  length-map [] = refl
  length-map (n ∷ ns) = omega (arith, length-map ns)

  prioritize_nodes-Scores :
      (snap : Snap) (env : Env) (nodes : List Node)
      → Scores
          (length nodes)
          (prioritize_nodes U snap env (U.extenders f) f p.cycle_state p.pod_info.pod nodes)
  unfolding prioritize_nodes
  prioritize_nodes-Scores snap env nodes =
      let xs = U.extenders f in
      let pod = p.pod_info.pod in
      let pre = U.run_pre_score snap env f p.cycle_state pod nodes in
      let scored = U.run_score snap pre.1 f p.cycle_state pod nodes in
      let totals =
        run_extenders U scored.2 (U.lock_order scored.2 (interested U pod xs)) pod nodes [] in
      elim (Bool-cases (is_empty xs && not (U.has_score_plugins f))) [
        | inl q ↦ rw q (length-map nodes)
        | inr q ↦ elim (Bool-cases (U.is_success pre.0)) [
          | inr q1 ↦ rw (q, q1) tt
          | inl q1 ↦ elim (Bool-cases (U.is_success scored.1)) [
            | inr q2 ↦ rw (q, q1, q2) tt
            | inl q2 ↦
                let n = R.one_each snap pre.1 f p nodes q2 in
                elim (Bool-cases (not (is_empty xs) && not (is_empty nodes))) [
                  | inr q3 ↦ rw (q, q1, q2, q3) n
                  | inl q3 ↦
                      rw (q, q1, q2, q3)
                        (or_panic-Scores (length nodes)
                          (add_totals U totals.1 totals.0 scored.0 nodes)
                          (subst (λ k. Long k (add_totals U totals.1 totals.0 scored.0 nodes).0) n
                            (add_totals-Long totals.1 totals.0 scored.0 nodes n)))
                ]
          ]
        ]
      ]

  choose_best-returns :
      (fit : Fit U) (n : ℕ) (x : Option (Result kinds (List NodeScores) × Env))
      → Scores (suc n) x
      → is_some (choose_best U f p fit x) ≡ true
  choose_best-returns fit n none h = absurd h
  choose_best-returns fit n (some (err e, env)) h = refl
  choose_best-returns fit n (some (ok [], env)) h = absurd (omega (arith, h))
  choose_best-returns fit n (some (ok (s ∷ ss), env)) h =
      elim (Option-cases (U.pop_best (s ∷ ss))) [
        | inl q ↦ absurd (false≢true (rw q at (R.some_best s ss)))
        | inr (host, q) ↦ rw (q, choose_best) refl
      ]

  choose-returns :
      (snap : Snap) (fit : Fit U) (nodes : List Node) → is_some (choose U snap f p fit nodes) ≡ true
  unfolding choose
  choose-returns snap fit [] = refl
  choose-returns snap fit (n ∷ []) = refl
  choose-returns snap fit (n ∷ m ∷ ns) =
      choose_best-returns fit _ _ (prioritize_nodes-Scores snap fit.env (n ∷ m ∷ ns))

  select_host-returns :
      (snap : Snap) (env : Env) (s : Scheduler)
      → s.num_nodes_to_find < 2 ^ 31
      → is_some (select_host U snap env s f p) ≡ true
  unfolding select_host
  select_host-returns snap env s few = elim (Bool-cases (U.num_nodes_in_placement snap == 0)) [
    | inl q ↦ rw q refl
    | inr q ↦ elim (Option-cases (find_nodes_that_fit_pod U snap env s f p false)) [
      | inl q1 ↦
          absurd (
            false≢true
              (rw q1 at (find_nodes_that_fit_pod-returns C snap f has p s few env false q)))
      | inr (fit, q1) ↦ elim (Option-cases fit.error) [
        | inr (e, q2) ↦ rw (q, q1, select_host, q2) refl
        | inl q2 ↦ rw (q, q1, select_host, q2) (choose-returns snap fit fit.nodes)
      ]
    ]
  ]

  attempt_with-returns :
      (w : World U) (c : Chosen U) → is_some (attempt_with U f p w (some c)) ≡ true
  attempt_with-returns w c = elim (Result-cases c.result) [
    | inr (e, q) ↦ rw q refl
    | inl (r, q) ↦ rw q refl
  ]

  -- `SchedulePod` returns, for a profile with filter plugins and a scheduler that is to find fewer
  -- than 2 ^ 31 nodes, on every placement, the empty one included. Relied on are: the list of the nodes
  -- in the placement is as long as their number, which is below 2 ^ 31, as is the number of the names
  -- that PreFilter gives; the score plugins, when they succeed, give one score for each node; a heap
  -- that is not empty has a first element.
  pub schedule_pod-returns :
      (s : Scheduler) (w : World U)
      → s.num_nodes_to_find < 2 ^ 31
      → (a : Attempt U) × (schedule_pod U s f p w ≡ some a)
  unfolding schedule_pod
  schedule_pod-returns s w few =
      let (c, q) =
        is_some-some (select_host U w.snap w.env s f p) (select_host-returns w.snap w.env s few) in
      is_some-some (schedule_pod U s f p w) (rw (q, schedule_pod) (attempt_with-returns w c))
