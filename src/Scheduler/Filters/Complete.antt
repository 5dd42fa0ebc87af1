-- ===== src/Scheduler/Filters/Complete.antt =====
-- Asked for all nodes, the parallel search finds what a plain filter would.
use scheduler_library.Base.{
  ℕ, ◌+◌, ◌%◌, ◌^◌, ◌≤◌, ◌<◌, ◌≡◌, refl, sym, ap, ◌∙◌, inl, inr, Bool, true, false, not, ◌&&◌,
  Option, none, some, List, [], ◌∷◌, ◌++◌, length, length-append, ltb, get_elem?, arith, Bool-cases,
  Option-cases, if◌then◌else◌, append-nil, append_assoc,
}
use scheduler_library.Upstream.{Upstream, Pod}
use scheduler_library.Scheduler.Types.{Scheduler}
use scheduler_library.Scheduler.Filters.{
  Search, judge, check_node, run_pieces, report, start_search, Passed, find_nodes_that_pass_filters,
}

module _ (U : Upstream) where
  open U use {kinds, Node, Status, Snap, Env, Framework, CycleRef, Diagnosis}

  -- The specification: the node that a piece is about, if it passes.
  abbrev pub keep_passing : (Node → Status) → Option Node → List Node
  keep_passing filter none = []
  keep_passing filter (some n) = if U.is_success (filter n) then n ∷ [] else []

  unfoldable pub passing : (Node → Status) → List Node → ℕ → List ℕ → List Node
  passing filter nodes next [] = []
  passing filter nodes next (i ∷ is) =
      keep_passing filter (get_elem? nodes ((next + i) % length nodes))
      ++ passing filter nodes next is

  -- One piece of a search that is not cancelled and has room.
  check_node-passing :
      (filter : Node → Status) (nodes : List Node) (next want i : ℕ) (c : Search U)
      → ((n : Node) → U.is_error (U.code (filter n)) ≡ false)
      → c.cancelled ≡ false
      → c.failure ≡ none
      → length c.feasible + 1 ≤ want
      → ((check_node U filter nodes next want i c).feasible
          ≡ c.feasible ++ keep_passing filter (get_elem? nodes ((next + i) % length nodes)))
        × ((check_node U filter nodes next want i c).cancelled ≡ false)
        × ((check_node U filter nodes next want i c).failure ≡ none)
        × (length (check_node U filter nodes next want i c).feasible ≤ length c.feasible + 1)
  unfolding check_node judge
  check_node-passing filter nodes next want i c clean live quiet room =
      elim (Option-cases (get_elem? nodes ((next + i) % length nodes))) [
        | inl q ↦ rw (q, check_node) (sym (append-nil c.feasible), live, quiet, omega arith)
        | inr (n, q) ↦ elim (Bool-cases (U.is_success (filter n))) [
          | inr q1 ↦
              rw (q, check_node, clean n, q1)
                (sym (append-nil c.feasible), live, quiet, omega arith)
          | inl q1 ↦
              let fits : ltb want (length c.feasible + 1) ≡ false = ground arith in
              rw (q, check_node, clean n, q1, fits)
                (refl, live, quiet, omega (arith, length-append c.feasible (n ∷ [])))
        ]
      ]

  goes_on :
      (c d : Search U) (cancelled late : Bool)
      → cancelled ≡ false
      → (if cancelled && late then c else d) ≡ d
  goes_on c d cancelled late h = rw h

  run_pieces-passing :
      (filter : Node → Status) (late : ℕ → Bool) (nodes : List Node) (next want : ℕ)
      (order : List ℕ) (c : Search U)
      → ((n : Node) → U.is_error (U.code (filter n)) ≡ false)
      → c.cancelled ≡ false
      → c.failure ≡ none
      → length c.feasible + length order ≤ want
      → ((run_pieces U filter late nodes next want order c).feasible
          ≡ c.feasible ++ passing filter nodes next order)
        × ((run_pieces U filter late nodes next want order c).failure ≡ none)
  unfolding run_pieces passing
  run_pieces-passing filter late nodes next want [] c clean live quiet room =
      (sym (append-nil c.feasible), quiet)
  run_pieces-passing filter late nodes next want (i ∷ is) c clean live quiet room =
      let (a, b, e, l) =
        check_node-passing filter nodes next want i c clean live quiet (omega arith) in
      let (x, y) =
        run_pieces-passing filter late nodes next want is (check_node U filter nodes next want i c)
          clean b e (omega arith) in
      let e = goes_on c (check_node U filter nodes next want i c) c.cancelled (not (late i)) live in
      let rest : Search U → Search U = run_pieces U filter late nodes next want is in
      (
        ap (λ (z : Search U). (rest z).feasible) e
            ∙ (x ∙ (ap (λ l. l ++ passing filter nodes next is) a ∙ append_assoc c.feasible _ _)),
        ap (λ (z : Search U). (rest z).failure) e ∙ y,
      )

  -- Asked for all nodes, with filter plugins that never fail, fewer than 2 ^ 31 nodes and at most as many
  -- pieces as nodes, `findNodesThatPassFilters` returns without an error, and the nodes are exactly
  -- those that pass the filters, in the order of the pieces from the start index on.
  pub find_all_passing :
      (snap : Snap) (env : Env) (s : Scheduler) (f : Framework) (cs : CycleRef) (pod : Pod kinds)
      (d : Diagnosis) (nodes : List Node)
      → U.has_filter_plugins f ≡ true
      → length nodes < 2 ^ 31
      → length (U.piece_order env (length nodes)) ≤ length nodes
      → ((n : Node) → U.is_error (U.code (U.run_filter snap env f cs pod n)) ≡ false)
      → (r : Passed U) × (find_nodes_that_pass_filters U snap env s f cs pod d nodes true ≡ some r)
        × (r.nodes
            ≡ passing
                (U.run_filter snap env f cs pod)
                nodes
                s.next_start_node_index
                (U.piece_order env (length nodes)))
        × (r.error ≡ none)
  unfolding find_nodes_that_pass_filters
  find_all_passing snap env s f cs pod d nodes has small pieces clean =
      let want = length nodes % 2 ^ 32 in
      let in_range : ltb want (2 ^ 31) ≡ true = ground arith in
      let (x, y) =
        run_pieces-passing (U.run_filter snap env f cs pod) (U.under_way env) nodes
          s.next_start_node_index want (U.piece_order env (length nodes))
          (start_search U (length nodes)) clean refl refl (omega arith) in
      let c =
        run_pieces U (U.run_filter snap env f cs pod) (U.under_way env) nodes
          s.next_start_node_index want (U.piece_order env (length nodes))
          (start_search U (length nodes)) in
      (
        record { nodes = c.feasible; diagnosis = report U c.rejected d; error = c.failure },
        rw (in_range, find_nodes_that_pass_filters, has) refl,
        x,
        y,
      )
