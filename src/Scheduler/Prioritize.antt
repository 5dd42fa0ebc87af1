-- ===== src/Scheduler/Prioritize.antt =====
-- `prioritizeNodes`. The goroutines of the extenders take the lock in an order that the
-- environment chooses; scores are added as int64. Log lines are left out.
pub mod Sums
pub mod Order
use scheduler_library.Base.{
  ℕ, ◌+◌, ◌*◌, ◌%◌, ◌^◌, String, not, ◌&&◌, Option, none, some, List, [], ◌∷◌, ◌++◌, map, lookup,
  insert, is_empty, if◌then◌else◌,
}
use scheduler_library.Upstream.{Upstream, Pod, NodeScores, Result, ok, err}

module _ (U : Upstream) where
  open U use {kinds, Node, Env, Snap, Framework, Extender, CycleRef}

  -- `allNodeExtendersScores`
  abbrev pub Totals : Type 0
  Totals = List (String × NodeScores)

  abbrev pub blank : String → NodeScores
  blank n = record { name = n; scores = []; total_score = 0; randomizer = 0 }

  abbrev pub add_score : String → ℕ → NodeScores → NodeScores
  add_score plugin score t = record t {
    scores = t.scores ++ ((plugin, score) ∷ []);
    total_score = (t.total_score + score) % 2 ^ 64;
  }

  -- `score * weight * (fwk.MaxScore / extenderv1.MaxExtenderPriority)`
  abbrev pub final_score : ℕ → ℕ → ℕ
  final_score score weight = score * weight * U.score_scale % 2 ^ 64

  -- The loop over one extender's `prioritizedList`, under the lock.
  unfoldable pub add_hosts : String → ℕ → List (String × ℕ) → Totals → Totals
  add_hosts plugin weight [] ts = ts
  add_hosts plugin weight ((host, score) ∷ hs) ts =
      let old : NodeScores = elim (lookup host ts) [ none ↦ blank host | some t ↦ t ] in
      add_hosts plugin weight hs (insert host (add_score plugin (final_score score weight) old) ts)

  -- An extender that fails gives no score.
  unfoldable pub run_extenders : Env → List Extender → Pod kinds → List Node → Totals → Totals × Env
  unfolding add_hosts
  run_extenders env [] pod nodes ts = (ts, env)
  run_extenders env (x ∷ xs) pod nodes ts =
      let (r, env') = U.extender_prioritize env x pod nodes in
      run_extenders env' xs pod nodes
        (elim r [ err e ↦ ts | ok p ↦ add_hosts (U.extender_name x) p.weight p.hosts ts ])

  -- The last loop: the totals are joined to the scores by position in `nodes`.
  unfoldable pub add_totals :
      Env → Totals → List NodeScores → List Node → Option (List NodeScores) × Env
  add_totals env ts [] nodes = (some [], env)
  add_totals env ts (s ∷ ss) [] = (none, env)
  add_totals env ts (s ∷ ss) (n ∷ ns) = elim (lookup (U.node_name n) ts) [
    | none ↦
        let (rest, env') = add_totals env ts ss ns in
        (elim rest [ none ↦ none | some rs ↦ some (s ∷ rs) ], env')
    | some t ↦
        let (k, env') = U.random env in
        let (rest, env'') = add_totals env' ts ss ns in
        let s' : NodeScores = record s {
          scores = s.scores ++ t.scores;
          total_score = (s.total_score + t.total_score) % 2 ^ 64;
          randomizer = k;
        } in
        (elim rest [ none ↦ none | some rs ↦ some (s' ∷ rs) ], env'')
  ]

  abbrev pub score_of_one : Node → NodeScores
  score_of_one n = record { name = U.node_name n; scores = []; total_score = 1; randomizer = 0 }

  abbrev pub interested : Pod kinds → List Extender → List Extender
  interested pod [] = []
  interested pod (x ∷ xs) =
      let rest = interested pod xs in if U.is_interested x pod then x ∷ rest else rest

  abbrev pub or_panic :
      Option (List NodeScores) × Env → Option (Result kinds (List NodeScores) × Env)
  or_panic (none, env) = none
  or_panic (some ss, env) = some (ok ss, env)

  unfoldable pub prioritize_nodes :
      Snap
      → Env
      → List Extender
      → Framework
      → CycleRef
      → Pod kinds
      → List Node
      → Option (Result kinds (List NodeScores) × Env)
  unfolding run_extenders add_totals
  prioritize_nodes snap env xs f cs pod nodes =
      if is_empty xs && not (U.has_score_plugins f)
      then some (ok (map score_of_one nodes), env)
      else (let (pre, env1) = U.run_pre_score snap env f cs pod nodes in
          if U.is_success pre
          then (let (ss, st, env2) = U.run_score snap env1 f cs pod nodes in
              if U.is_success st
              then (if not (is_empty xs) && not (is_empty nodes)
                  then (let (ts, env3) =
                        run_extenders env2 (U.lock_order env2 (interested pod xs)) pod nodes [] in
                      or_panic (add_totals env3 ts ss nodes))
                  else some (ok ss, env2))
              else some (err (U.as_error st), env2))
          else some (err (U.as_error pre), env1))
