-- ===== src/Scheduler/Choice/Offered.antt =====
-- A node of the placement that passes the filters is among those that `FindAllNodesThatFitPod` gives,
-- when the answers of the plugins are fixed and no extender has a say.
use mathlib.Core.Path.{subst}
use native.Mathlib.Nat.{mod-eq_of_lt}
use scheduler_library.Base.{
  if◌then◌else◌, ℕ, ◌+◌, ◌%◌, ◌^◌, ◌≤◌, ◌<◌, ◌≡◌, refl, sym, ap, ◌∙◌, inl, inr, String, true, false,
  none, some, List, [], ◌∷◌, length, get_elem?, ◌==◌, arith, Bool-cases, Member, Member-append,
  Member-get_elem?,
}
use scheduler_library.Upstream.{Upstream, Pod, ok}
use scheduler_library.Trail.{OnReturn}
use scheduler_library.Scheduler.Types.{Scheduler, PendingPod, Fit}
use scheduler_library.Scheduler.Filters.{Passed, find_nodes_that_pass_filters}
use scheduler_library.Scheduler.Filters.Complete.{passing, keep_passing, find_all_passing}
use scheduler_library.Scheduler.Extenders.{find_nodes_that_pass_extenders}
use scheduler_library.Scheduler.Fit.{
  finish_fit, fit_nodes, fit_after_pre_filter, find_nodes_that_fit_pod, find_all_nodes_that_fit_pod,
}

-- Plugins whose answers for the pod do not depend on their state: PreFilter accepts it on all nodes,
-- and Filter says `verdict`, which is never an error. There is no extender, and the parallelizer runs
-- every piece once.
pub record FixedAnswers (U : Upstream) (snap : U.Snap) (f : U.Framework) (pod : Pod U.kinds)
    (verdict : U.Node → U.Status) : Type 0 where
  pub filter : (env : U.Env) (cs : U.CycleRef) → U.run_filter snap env f cs pod ≡ verdict
  pub clean : (n : U.Node) → U.is_error (U.code (verdict n)) ≡ false
  pub accepts :
      (env : U.Env) (cs : U.CycleRef)
      → U.is_success (U.run_pre_filter snap env f cs pod).0.status ≡ true
  pub on_all :
      (env : U.Env) (cs : U.CycleRef)
      → U.all_nodes (U.run_pre_filter snap env f cs pod).0.result ≡ true
  pub no_extenders : U.extenders f ≡ []
  pub once : (env : U.Env) (n : ℕ) → length (U.piece_order env n) ≤ n
  pub every : (env : U.Env) (n i : ℕ) → i < n → Member i (U.piece_order env n)

module _ (U : Upstream) where
  open U use {Node, Status}

  passing-Member :
      (filter : Node → Status) (nodes : List Node) (next i : ℕ) (n : Node) (order : List ℕ)
      → Member i order
      → get_elem? nodes ((next + i) % length nodes) ≡ some n
      → U.is_success (filter n) ≡ true
      → Member n (passing U filter nodes next order)
  unfolding passing
  passing-Member filter nodes next i n [] h q good = absurd h
  passing-Member filter nodes next i n (j ∷ js) (inl e) q good =
      let here : get_elem? nodes ((next + j) % length nodes) ≡ some n = rw (sym e) q in
      let kept : Member n (keep_passing U filter (get_elem? nodes ((next + j) % length nodes))) =
        rw (here, good) (inl refl) in
      Member-append n (keep_passing U filter (get_elem? nodes ((next + j) % length nodes)))
        (passing U filter nodes next js) (inl kept)
  passing-Member filter nodes next i n (j ∷ js) (inr h) q good =
      Member-append n (keep_passing U filter (get_elem? nodes ((next + j) % length nodes))) _
        (inr (passing-Member filter nodes next i n js h q good))

module _ {U : Upstream} {snap : U.Snap} {f : U.Framework} (p : PendingPod U)
    {verdict : U.Node → U.Status} (F : FixedAnswers U snap f p.pod_info.pod verdict)
    (all : List U.Node) (n : U.Node) (there : Member n all) (good : U.is_success (verdict n) ≡ true)
    (few : length all < 2 ^ 31) (has : U.has_filter_plugins f ≡ true) where
  open U use {kinds, Node, Env, Diagnosis}

  abbrev pub Offers : Fit U → Type 0
  Offers fit = Member n fit.nodes

  filtered :
      (env : Env) (s : Scheduler) (d : Diagnosis)
      → s.next_start_node_index ≡ 0
      → (r : Passed U) × (find_nodes_that_pass_filters U snap env s f p.cycle_state p.pod_info.pod d
            all true
          ≡ some r)
        × Member n r.nodes
        × (r.error ≡ none)
  unfolding passing
  filtered env s d zero =
      let filter = U.run_filter snap env f p.cycle_state p.pod_info.pod in
      let same : filter ≡ verdict = F.filter env p.cycle_state in
      let (r, e, nodes, quiet) =
        find_all_passing U snap env s f p.cycle_state p.pod_info.pod d all has few
          (F.once env (length all))
          (λ m. ap (λ (g : Node → U.Status). U.is_error (U.code (g m))) same ∙ F.clean m) in
      let (i, b, q) = Member-get_elem? n all there in
      let place : (s.next_start_node_index + i) % length all ≡ i =
        ap (λ k. k % length all) (omega (arith, zero)) ∙ mod-eq_of_lt b in
      let here : get_elem? all ((s.next_start_node_index + i) % length all) ≡ some n =
        ap (get_elem? all) place ∙ q in
      let found =
        passing-Member U filter all s.next_start_node_index i n (U.piece_order env (length all))
          (F.every env (length all) i b) here
          (ap (λ (g : Node → U.Status). U.is_success (g n)) same ∙ good) in
      (r, e, subst (Member n) (sym nodes) found, quiet)

  finish_fit-Offers :
      (env : Env) (s : Scheduler) (hint : String) (total : ℕ) (r : Passed U)
      → r.error ≡ none
      → Member n r.nodes
      → OnReturn Offers (finish_fit U env s f p.pod_info.pod hint total (some r))
  unfolding finish_fit find_nodes_that_pass_extenders
  finish_fit-Offers env s hint total r q h = elim (Bool-cases (total == 0)) [
    | inl z ↦ rw z tt
    | inr z ↦ rw (z, q, F.no_extenders) h
  ]

  -- With the search starting at the first node.
  pub find_all_nodes_that_fit_pod-Offers :
      (env : Env) (s : Scheduler)
      → U.list_nodes_in_placement snap ≡ ok all
      → s.next_start_node_index ≡ 0
      → OnReturn Offers (find_all_nodes_that_fit_pod U snap env s f p)
  unfolding find_nodes_that_fit_pod fit_after_pre_filter fit_nodes
  find_all_nodes_that_fit_pod-Offers env s listed zero =
      let reply = U.run_pre_filter snap env f p.cycle_state p.pod_info.pod in
      let d = U.set_plugins U.new_diagnosis reply.0.plugins in
      let hint : String × Env =
        if U.opportunistic_batching
        then U.get_node_hint snap reply.1 f p.cycle_state p.pod_info.pod p.signature s.current_cycle
        else ("", reply.1) in
      let (r, e, h, q) = filtered hint.1 s d zero in
      rw
        (
          listed,
          find_nodes_that_fit_pod,
          F.accepts env p.cycle_state,
          F.on_all env p.cycle_state,
          e,
        )
        (finish_fit-Offers hint.1 s hint.0 (length all) r q h)
