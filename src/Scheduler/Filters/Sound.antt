-- ===== src/Scheduler/Filters/Sound.antt =====
-- Whatever the order of the pieces, and wherever the search is cut off: the nodes found pass the
-- filters, and there are at most as many as asked for.
use scheduler_library.Base.{
  ℕ, ◌+◌, ◌%◌, ◌^◌, ◌≤◌, ◌<◌, ◌≡◌, refl, inl, inr, Bool, true, false, not, ◌&&◌, some, List, [],
  ◌∷◌, ◌++◌, length, length-append, ltb, get_elem?, arith, Bool-cases, Option-cases,
}
use scheduler_library.Upstream.{Upstream, Pod}
use scheduler_library.Scheduler.Types.{Scheduler}
use scheduler_library.Scheduler.Filters.{
  Search, judge, check_node, run_pieces, report, start_search, Passed, find_nodes_that_pass_filters,
  nodes_to_find,
}

-- What holds of every member of a list.
abbrev pub All {ℓ} : {A : Type ℓ} → (A → Type 0) → List A → Type 0
All P [] = Unit
All P (x ∷ xs) = P x × All P xs

pub All-append {ℓ} :
    {A : Type ℓ} (P : A → Type 0) (xs ys : List A) → All P xs → All P ys → All P (xs ++ ys)
All-append P [] ys h g = g
All-append P (x ∷ xs) ys h g = (h.0, All-append P xs ys h.1 g)

module _ (U : Upstream) where
  open U use {kinds, Node, Status, Snap, Env, Framework, CycleRef, Diagnosis}

  -- The node passes the filter: no plugin fails on it, and none rejects it.
  abbrev pub Passes : (Node → Status) → Node → Type 0
  Passes filter n = (U.is_error (U.code (filter n)) ≡ false) × (U.is_success (filter n) ≡ true)

  pub record Good (filter : Node → Status) (want : ℕ) (c : Search U) : Type 0 where
    pub bounded : length c.feasible ≤ want
    pub passing : All (Passes filter) c.feasible

  judge-Good :
      (filter : Node → Status) (want i : ℕ) (n : Node) (c : Search U)
      → Good filter want c
      → Good filter want (judge U want i n (filter n) c)
  unfolding judge
  judge-Good filter want i n c g = elim (Bool-cases (U.is_error (U.code (filter n)))) [
    | inl q ↦ rw q (record { bounded = g.bounded; passing = g.passing })
    | inr q ↦ elim (Bool-cases (U.is_success (filter n))) [
      | inr q1 ↦ rw (q, q1) (record { bounded = g.bounded; passing = g.passing })
      | inl q1 ↦ elim (Bool-cases (ltb want (length c.feasible + 1))) [
        | inl q2 ↦ rw (q, q1, q2) (record { bounded = g.bounded; passing = g.passing })
        | inr q2 ↦
            rw (q, q1, q2)
              (record {
                bounded = ground (arith, length-append c.feasible (n ∷ []));
                passing = All-append (Passes filter) c.feasible (n ∷ []) g.passing ((q, q1), tt);
              })
      ]
    ]
  ]

  check_node-Good :
      (filter : Node → Status) (nodes : List Node) (next want i : ℕ) (c : Search U)
      → Good filter want c
      → Good filter want (check_node U filter nodes next want i c)
  unfolding check_node
  check_node-Good filter nodes next want i c g =
      elim (Option-cases (get_elem? nodes ((next + i) % length nodes))) [
        | inl q ↦ rw (q, check_node) g
        | inr (n, q) ↦ rw (q, check_node) (judge-Good filter want i n c g)
      ]

  pub run_pieces-Good :
      (filter : Node → Status) (late : ℕ → Bool) (nodes : List Node) (next want : ℕ)
      (order : List ℕ) (c : Search U)
      → Good filter want c
      → Good filter want (run_pieces U filter late nodes next want order c)
  unfolding run_pieces
  run_pieces-Good filter late nodes next want [] c g = g
  run_pieces-Good filter late nodes next want (i ∷ is) c g =
      run_pieces-Good filter late nodes next want is _
        (elim (Bool-cases (c.cancelled && not (late i))) [
          | inl q ↦ rw q g
          | inr q ↦ rw q (check_node-Good filter nodes next want i c g)
        ])

  -- With filter plugins, and a number of nodes to find below 2 ^ 31, `findNodesThatPassFilters` returns
  -- whatever the order of the pieces and wherever the search is cut off: at most that many nodes, and
  -- each of them passes the filters without an error.
  pub find_nodes_that_pass_filters_sound :
      (snap : Snap) (env : Env) (s : Scheduler) (f : Framework) (cs : CycleRef) (pod : Pod kinds)
      (d : Diagnosis) (nodes : List Node) (find_all : Bool)
      → U.has_filter_plugins f ≡ true
      → nodes_to_find U s f nodes find_all < 2 ^ 31
      → (r : Passed U) × (find_nodes_that_pass_filters U snap env s f cs pod d nodes find_all
          ≡ some r)
        × (length r.nodes ≤ nodes_to_find U s f nodes find_all)
        × All (Passes (U.run_filter snap env f cs pod)) r.nodes
  unfolding find_nodes_that_pass_filters
  find_nodes_that_pass_filters_sound snap env s f cs pod d nodes find_all has small =
      let want = nodes_to_find U s f nodes find_all in
      let filter = U.run_filter snap env f cs pod in
      let in_range : ltb want (2 ^ 31) ≡ true = ground arith in
      let start : Good filter want (start_search U (length nodes)) = record {
        bounded = omega arith;
        passing = tt;
      } in
      let g =
        run_pieces-Good filter (U.under_way env) nodes s.next_start_node_index want
          (U.piece_order env (length nodes)) (start_search U (length nodes)) start in
      let c =
        run_pieces U filter (U.under_way env) nodes s.next_start_node_index want
          (U.piece_order env (length nodes)) (start_search U (length nodes)) in
      (
        record { nodes = c.feasible; diagnosis = report U c.rejected d; error = c.failure },
        rw (in_range, find_nodes_that_pass_filters, has) refl,
        g.bounded,
        g.passing,
      )
