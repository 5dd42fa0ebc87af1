-- ===== src/Scheduler/Filters/Among.antt =====
-- The nodes that the filtering stage returns are among those that it is given.
use scheduler_library.Base.{
  ℕ, zero, suc, ◌+◌, ◌%◌, ◌^◌, ◌≡◌, inl, inr, Bool, true, not, ◌&&◌, some, List, [], ◌∷◌, length,
  ltb, get_elem?, arith, Bool-cases, Option-cases,
}
use mathlib.Core.Option.{some-injective, none-ne-some}
use mathlib.Core.Path.{subst}
use scheduler_library.Upstream.{Upstream, Pod}
use scheduler_library.Scheduler.Types.{Scheduler}
use scheduler_library.Scheduler.Filters.{
  Search, judge, check_node, run_pieces, start_search, Passed, find_nodes_that_pass_filters,
  nodes_to_find,
}
use scheduler_library.Scheduler.Filters.Sound.{All, All-append, Passes, run_pieces-Good}

pub All-get_elem? {ℓ} :
    {A : Type ℓ} (Q : A → Type 0) (xs : List A) (i : ℕ) (x : A)
    → All Q xs
    → get_elem? xs i ≡ some x
    → Q x
All-get_elem? Q [] i x h e = absurd (none-ne-some _ e)
All-get_elem? Q (y ∷ ys) zero x h e = subst Q (some-injective _ _ e) h.0
All-get_elem? Q (y ∷ ys) (suc i) x h e = All-get_elem? Q ys i x h.1 e

pub All-both {ℓ} :
    {A : Type ℓ} (P Q R : A → Type 0) (xs : List A)
    → ((x : A) → P x → Q x → R x)
    → All P xs
    → All Q xs
    → All R xs
All-both P Q R [] f h g = tt
All-both P Q R (x ∷ xs) f h g = (f x h.0 g.0, All-both P Q R xs f h.1 g.1)

module _ (U : Upstream) where
  open U use {kinds, Node, Status, Snap, Env, Framework, CycleRef, Diagnosis}

  judge-All :
      (Q : Node → Type 0) (want i : ℕ) (n : Node) (st : Status) (c : Search U)
      → Q n
      → All Q c.feasible
      → All Q (judge U want i n st c).feasible
  unfolding judge
  judge-All Q want i n st c q h = elim (Bool-cases (U.is_error (U.code st))) [
    | inl e ↦ rw e h
    | inr e ↦ elim (Bool-cases (U.is_success st)) [
      | inr e1 ↦ rw (e, e1) h
      | inl e1 ↦ elim (Bool-cases (ltb want (length c.feasible + 1))) [
        | inl e2 ↦ rw (e, e1, e2) h
        | inr e2 ↦ rw (e, e1, e2) (All-append Q c.feasible (n ∷ []) h (q, tt))
      ]
    ]
  ]

  check_node-All :
      (Q : Node → Type 0) (filter : Node → Status) (nodes : List Node) (next want i : ℕ)
      (c : Search U)
      → All Q nodes
      → All Q c.feasible
      → All Q (check_node U filter nodes next want i c).feasible
  unfolding check_node
  check_node-All Q filter nodes next want i c a h =
      elim (Option-cases (get_elem? nodes ((next + i) % length nodes))) [
        | inl q ↦ rw (q, check_node) h
        | inr (n, q) ↦
            rw (q, check_node) (judge-All Q want i n (filter n) c (All-get_elem? Q nodes _ n a q) h)
      ]

  run_pieces-All :
      (Q : Node → Type 0) (filter : Node → Status) (late : ℕ → Bool) (nodes : List Node)
      (next want : ℕ) (order : List ℕ) (c : Search U)
      → All Q nodes
      → All Q c.feasible
      → All Q (run_pieces U filter late nodes next want order c).feasible
  unfolding run_pieces
  run_pieces-All Q filter late nodes next want [] c a h = h
  run_pieces-All Q filter late nodes next want (i ∷ is) c a h =
      run_pieces-All Q filter late nodes next want is _ a
        (elim (Bool-cases (c.cancelled && not (late i))) [
          | inl q ↦ rw q h
          | inr q ↦ rw q (check_node-All Q filter nodes next want i c a h)
        ])

  -- Whenever the stage returns, its nodes are among the given ones, and they pass the filters.
  pub find_nodes_among :
      (Q : Node → Type 0) (snap : Snap) (env : Env) (s : Scheduler) (f : Framework) (cs : CycleRef)
      (pod : Pod kinds) (d : Diagnosis) (nodes : List Node) (find_all : Bool) (r : Passed U)
      → U.has_filter_plugins f ≡ true
      → All Q nodes
      → find_nodes_that_pass_filters U snap env s f cs pod d nodes find_all ≡ some r
      → All Q r.nodes × All (Passes U (U.run_filter snap env f cs pod)) r.nodes
  unfolding find_nodes_that_pass_filters
  find_nodes_among Q snap env s f cs pod d nodes find_all r has a ran =
      let want = nodes_to_find U s f nodes find_all in
      let filter = U.run_filter snap env f cs pod in
      let c =
        run_pieces U filter (U.under_way env) nodes s.next_start_node_index want
          (U.piece_order env (length nodes)) (start_search U (length nodes)) in
      elim (Bool-cases (ltb want (2 ^ 31))) [
        | inr q ↦ absurd (none-ne-some _ (rw (q, find_nodes_that_pass_filters) at ran))
        | inl q ↦
            let same = some-injective _ _ (rw (q, find_nodes_that_pass_filters, has) at ran) in
            subst (λ (x : Passed U). All Q x.nodes × All (Passes U filter) x.nodes) same
              (
                run_pieces-All Q filter (U.under_way env) nodes s.next_start_node_index want
                    (U.piece_order env (length nodes)) (start_search U (length nodes)) a tt,
                (run_pieces-Good U filter (U.under_way env) nodes s.next_start_node_index want
                    (U.piece_order env (length nodes)) (start_search U (length nodes))
                    (record { bounded = omega arith; passing = tt })).passing,
              )
      ]
