-- ===== src/Scheduler/Prioritize/Order.antt =====
-- The order in which the goroutines of `prioritizeNodes` take the lock does not matter.
use mathlib.Core.List.{Perm}
use scheduler_library.Base.{
  ℕ, ◌+◌, ◌%◌, ◌^◌, ◌<◌, ◌≡◌, refl, ap, String, Option, none, some, List, [], ◌∷◌,
}
use scheduler_library.Upstream.{Upstream, Pod, NodeScores, Prioritized, Result, ok, err}
use scheduler_library.Scheduler.Prioritize.{add_totals, interested, run_extenders}
use scheduler_library.Scheduler.Prioritize.Sums.{extenders_sum}

-- An int64, as its bit pattern.
abbrev pub InRange : NodeScores → Type 0
InRange s = s.total_score < 2 ^ 64

abbrev pub totals : List NodeScores → List ℕ
totals [] = []
totals (s ∷ ss) = s.total_score ∷ totals ss

module _ (U : Upstream) where
  open U use {kinds, Node, Env, Extender, Snap, Framework, CycleRef}

  -- The plugins' totals and what is added to them, by position.
  abbrev pub combined : (String → ℕ) → List NodeScores → List Node → List ℕ
  combined g [] ns = []
  combined g (s ∷ ss) [] = s.total_score ∷ combined g ss []
  combined g (s ∷ ss) (n ∷ ns) = (s.total_score + g (U.node_name n)) % 2 ^ 64 ∷ combined g ss ns

  combined-cong :
      (g f : String → ℕ) (ss : List NodeScores) (ns : List Node)
      → ((h : String) → g h ≡ f h)
      → combined g ss ns ≡ combined f ss ns
  combined-cong g f [] ns e = refl
  combined-cong g f (s ∷ ss) [] e = ap (λ l. s.total_score ∷ l) (combined-cong g f ss [] e)
  combined-cong g f (s ∷ ss) (n ∷ ns) e = rw (e (U.node_name n), combined-cong g f ss ns e) refl

  abbrev OnScores :
      (List NodeScores → Type 0) → Option (Result kinds (List NodeScores) × Env) → Type 0
  OnScores Q none = Unit
  OnScores Q (some (err e, env)) = Unit
  OnScores Q (some (ok rs, env)) = Q rs

module _ (U : Upstream) (pod : Pod U.kinds) (nodes : List U.Node)
    (reply : U.Extender → Result U.kinds Prioritized)
    (fixed : (env : U.Env) (x : U.Extender) → (U.extender_prioritize env x pod nodes).0 ≡ reply x)
    (locked : (env : U.Env) (xs : List U.Extender) → Perm (U.lock_order env xs) xs) where
  open U use {kinds, Node, Env, Extender, Snap, Framework, CycleRef}

  -- What the interested extenders give a node, in the order of the configuration.
  abbrev pub given_to : List Extender → String → ℕ
  given_to xs h = extenders_sum U reply h (interested U pod xs)

  abbrev plugin_scores : Snap → Env → Framework → CycleRef → List NodeScores
  plugin_scores snap env f cs =
      (U.run_score snap (U.run_pre_score snap env f cs pod nodes).1 f cs pod nodes).0

  abbrev merge : List Extender → List NodeScores → Env → Option (List NodeScores) × Env
  merge xs ss env =
      let (ts, env3) = run_extenders U env (U.lock_order env (interested U pod xs)) pod nodes [] in
      add_totals U env3 ts ss nodes
