-- ===== src/Scheduler/Choice/Host.antt =====
-- The host that `SchedulePod` suggests is a node of the placement that passes the filters.
use scheduler_library.Base.{
  lookup, ◌≡◌, refl, inl, inr, String, true, false, not, ◌&&◌, Option, none, some, List, [], ◌∷◌,
  ◌==◌, is_empty, map, Bool-cases, Option-cases,
}
use scheduler_library.Upstream.{Upstream, NodeScores, Result, ok, err}
use scheduler_library.Trail.{OnReturn}
use scheduler_library.Scheduler.Types.{Scheduler, PendingPod, Fit, ScheduleResult}
use scheduler_library.Scheduler.Filters.Sound.{All}
use scheduler_library.Scheduler.Prioritize.{
  prioritize_nodes, add_totals, Totals, score_of_one, or_panic,
}
use scheduler_library.Scheduler.Fit.{find_nodes_that_fit_pod}
use scheduler_library.Scheduler.Attempt.{Chosen, choose, choose_best, select_host}
use scheduler_library.Scheduler.Choice.{ChoiceLaws}
use scheduler_library.Scheduler.Choice.Fits.{Good, fit-Suits}

pub All-map {ℓ} :
    {A : Type ℓ} {C : Type 0} (P : C → Type 0) (g : A → C) (xs : List A)
    → All (λ x. P (g x)) xs
    → All P (map g xs)
All-map P g [] h = tt
All-map P g (x ∷ xs) h = (h.0, All-map P g xs h.1)

pub All-imp {ℓ} :
    {A : Type ℓ} (P Q : A → Type 0) (xs : List A) → ((x : A) → P x → Q x) → All P xs → All Q xs
All-imp P Q [] f h = tt
All-imp P Q (x ∷ xs) f h = (f x h.0, All-imp P Q xs f h.1)

module _ {U : Upstream} {snap : U.Snap} {A : U.Node → Type 0} (L : ChoiceLaws U snap A)
    (f : U.Framework) (p : PendingPod U) (has : U.has_filter_plugins f ≡ true) where
  open U use {Node, Env, kinds}

  abbrev Fitting : Node → Type 0
  Fitting = Good L f p has

  -- The name of a node that is in the placement and passes the filters.
  abbrev pub IsHost : String → Type 0
  IsHost host = (n : Node) × (U.node_name n ≡ host) × Fitting n

  abbrev Scored : List NodeScores → Type 0
  Scored ss = All (λ (s : NodeScores). IsHost s.name) ss

  add_totals-Scored :
      (env : Env) (ts : Totals U) (ss : List NodeScores) (nodes : List Node)
      → Scored ss
      → OnReturn Scored (add_totals U env ts ss nodes).0
  unfolding add_totals
  add_totals-Scored env ts [] nodes h = tt
  add_totals-Scored env ts (s ∷ ss) [] h = tt
  add_totals-Scored env ts (s ∷ ss) (n ∷ ns) h = elim (Option-cases (lookup (U.node_name n) ts)) [
    | inl q ↦
        rw (q, add_totals)
          (kept s (add_totals U env ts ss ns).0 h.0 (add_totals-Scored env ts ss ns h.1))
    | inr (t, q) ↦
        rw (q, add_totals)
          (kept _ (add_totals U (U.random env).1 ts ss ns).0 h.0
            (add_totals-Scored (U.random env).1 ts ss ns h.1))
  ]
    where
      kept :
          (s : NodeScores) (o : Option (List NodeScores))
          → IsHost s.name
          → OnReturn Scored o
          → OnReturn Scored (elim o [ none ↦ none | some rs ↦ some (s ∷ rs) ])
      kept s none a b = tt
      kept s (some rs) a b = (a, b)

  OkScored : Result kinds (List NodeScores) × Env → Type 0
  OkScored (ok ss, env) = Scored ss
  OkScored (err e, env) = Unit

  or_panic-Scored :
      (x : Option (List NodeScores) × Env) → OnReturn Scored x.0 → OnReturn OkScored (or_panic U x)
  unfolding OkScored
  or_panic-Scored (none, env) h = tt
  or_panic-Scored (some ss, env) h = h

  prioritize-Scored :
      (env : Env) (nodes : List Node)
      → All Fitting nodes
      → OnReturn OkScored
          (prioritize_nodes U snap env (U.extenders f) f p.cycle_state p.pod_info.pod nodes)
  unfolding prioritize_nodes OkScored
  prioritize-Scored env nodes h =
      elim (Bool-cases (is_empty (U.extenders f) && not (U.has_score_plugins f))) [
        | inl q ↦ rw q (All-map (λ (s : NodeScores). IsHost s.name) (score_of_one U) nodes named)
        | inr q ↦ elim (Bool-cases (U.is_success pre.0)) [
          | inr q1 ↦ rw (q, q1) tt
          | inl q1 ↦ elim (Bool-cases (U.is_success scores.1)) [
            | inr q2 ↦ rw (q, q1, q2) tt
            | inl q2 ↦ elim (Bool-cases (not (is_empty (U.extenders f)) && not (is_empty nodes))) [
              | inr q3 ↦ rw (q, q1, q2, q3) good
              | inl q3 ↦
                  rw (q, q1, q2, q3) (or_panic-Scored _ (add_totals-Scored _ _ scores.0 nodes good))
            ]
          ]
        ]
      ]
    where
      named : All (λ n. IsHost (U.node_name n)) nodes
      named = All-imp Fitting (λ n. IsHost (U.node_name n)) nodes (λ n g. (n, refl, g)) h

      pre : U.Status × Env
      pre = U.run_pre_score snap env f p.cycle_state p.pod_info.pod nodes

      scores : List NodeScores × U.Status × Env
      scores = U.run_score snap pre.1 f p.cycle_state p.pod_info.pod nodes

      good : Scored scores.0
      good = L.scored IsHost pre.1 f p.cycle_state p.pod_info.pod nodes named

  abbrev pub OnHost : Result kinds ScheduleResult → Type 0
  OnHost (ok r) = IsHost r.suggested_host
  OnHost (err e) = Unit

  abbrev pub OkHost : Chosen U → Type 0
  OkHost c = OnHost c.result

  choose_best-OkHost :
      (fit : Fit U) (x : Option (Result kinds (List NodeScores) × Env))
      → OnReturn OkScored x
      → OnReturn OkHost (choose_best U f p fit x)
  unfolding OkScored
  choose_best-OkHost fit none h = tt
  choose_best-OkHost fit (some (err e, env)) h = tt
  choose_best-OkHost fit (some (ok ss, env)) h = elim (Option-cases (U.pop_best ss)) [
    | inl q ↦ rw (q, choose_best) tt
    | inr (host, q) ↦ rw (q, choose_best) (L.popped IsHost ss host q h)
  ]

  choose-OkHost :
      (fit : Fit U) (nodes : List Node)
      → All Fitting nodes
      → OnReturn OkHost (choose U snap f p fit nodes)
  unfolding choose
  choose-OkHost fit [] h = tt
  choose-OkHost fit (n ∷ []) h = (n, refl, h.0)
  choose-OkHost fit (n ∷ m ∷ ns) h =
      choose_best-OkHost fit _ (prioritize-Scored fit.env (n ∷ m ∷ ns) h)

  pub select_host-OkHost :
      (env : Env) (s : Scheduler) → OnReturn OkHost (select_host U snap env s f p)
  unfolding select_host
  select_host-OkHost env s = elim (Bool-cases (U.num_nodes_in_placement snap == 0)) [
    | inl q ↦ rw q tt
    | inr q ↦ elim (Option-cases (find_nodes_that_fit_pod U snap env s f p false)) [
      | inl q1 ↦ rw (q, q1, select_host) tt
      | inr (fit, q1) ↦ elim (Option-cases fit.error) [
        | inr (e, q2) ↦ rw (q, q1, select_host, q2) tt
        | inl q2 ↦
            rw (q, q1, select_host, q2)
              (choose-OkHost fit fit.nodes (rw q1 at (fit-Suits L f p has env s false)))
      ]
    ]
  ]
