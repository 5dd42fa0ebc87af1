-- ===== src/Scheduler/Filters/Unfiltered.antt =====
-- The filtering stage of a profile without filter plugins.
use scheduler_library.Base.{
  ℕ, zero, suc, ◌+◌, ◌%◌, ◌^◌, ◌<◌, ◌≡◌, refl, ap, Bool, true, false, not, Option, none, some, List,
  [], ◌∷◌, length, ltb, ◌==◌, ◌||◌, get_elem?-lt, is_some, is_empty, arith,
}
use scheduler_library.Upstream.{Upstream, Pod}
use scheduler_library.Scheduler.Types.{Scheduler}
use scheduler_library.Scheduler.Filters.{
  take_cyclic, find_nodes_that_pass_filters, nodes_to_find, Passed,
}

module _ (U : Upstream) where
  open U use {kinds, Node, Snap, Env, Framework, CycleRef, Diagnosis}

  take_cyclic-some :
      (nodes : List Node) (next i k : ℕ)
      → 0 < length nodes
      → (ns : List Node) × (take_cyclic U nodes next i k ≡ some ns)
  unfolding take_cyclic
  take_cyclic-some nodes next i zero h = ([], refl)
  take_cyclic-some nodes next i (suc k) h =
      let (n, q) = get_elem?-lt nodes ((next + i) % length nodes) (omega arith) in
      let (ns, q1) = take_cyclic-some nodes next (i + 1) k h in (n ∷ ns, rw (q, q1, take_cyclic))

  take_cyclic_answers :
      (nodes : List Node) (next k : ℕ)
      → is_some (take_cyclic U nodes next 0 k) ≡ (not (is_empty nodes) || (k == 0))
  unfolding take_cyclic
  take_cyclic_answers [] next zero = refl
  take_cyclic_answers [] next (suc k) = ground arith
  take_cyclic_answers (n ∷ ns) next k =
      let (ms, q) = take_cyclic-some (n ∷ ns) next 0 k (omega arith) in ap is_some q

  answers :
      (d : Diagnosis) (o : Option (List Node))
      → is_some (elim o as (λ x. Option (Passed U)) [
        | none ↦ none
        | some ns ↦ some (record { nodes = ns; diagnosis = d; error = none })
      ])
        ≡ is_some o
  answers d none = refl
  answers d (some ns) = refl

  -- Without filter plugins, and asked for fewer than 2 ^ 31 nodes, `findNodesThatPassFilters` returns
  -- exactly when it is given a node or asked for none; otherwise it panics.
  pub find_nodes_unfiltered :
      (snap : Snap) (env : Env) (s : Scheduler) (f : Framework) (cs : CycleRef) (pod : Pod kinds)
      (d : Diagnosis) (nodes : List Node) (find_all : Bool)
      → U.has_filter_plugins f ≡ false
      → nodes_to_find U s f nodes find_all < 2 ^ 31
      → is_some (find_nodes_that_pass_filters U snap env s f cs pod d nodes find_all)
        ≡ (not (is_empty nodes) || (nodes_to_find U s f nodes find_all == 0))
  unfolding find_nodes_that_pass_filters
  find_nodes_unfiltered snap env s f cs pod d nodes find_all bare small =
      let want = nodes_to_find U s f nodes find_all in
      let in_range : ltb want (2 ^ 31) ≡ true = ground arith in
      rw (in_range, find_nodes_that_pass_filters, bare)
        (rw (answers d (take_cyclic U nodes s.next_start_node_index 0 want))
          (take_cyclic_answers nodes s.next_start_node_index want))
