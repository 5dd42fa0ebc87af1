-- ===== src/Scheduler/Attempt.antt =====
-- `schedulePod`, `assume`, `assumeAndReserve`, `unreserveAndForget` and `SchedulePod`. Traces,
-- log lines and `HandleErrorWithContext` are left out.
use scheduler_library.Base.{
  ℕ, ◌+◌, String, false, Option, none, some, List, [], ◌∷◌, length, ◌==◌, if◌then◌else◌,
}
use scheduler_library.Upstream.{
  Upstream, PodInfo, NodeScores, Error, message, wrap, joined, no_nodes_available, fit_error,
  Result, ok, err,
}
use scheduler_library.World.{World, Undo, with_node_name}
use scheduler_library.Scheduler.Types.{
  Scheduler, ScheduleResult, no_result, PendingPod, AlgorithmResult, Fit,
}
use scheduler_library.Scheduler.Prioritize.{prioritize_nodes}
use scheduler_library.Scheduler.Fit.{find_nodes_that_fit_pod}

module _ (U : Upstream) where
  open U use {kinds, Node, Env, Snap, Framework, CycleRef, Status}

  pub record Chosen : Type 0 where
    pub result : Result kinds ScheduleResult
    pub env : Env
    pub sched : Scheduler

  -- `StoreScheduleResults`, behind its feature gate.
  abbrev pub store :
      Env → Framework → PendingPod U → String → String → Option (List NodeScores) → Scheduler → Env
  store env f p hint node rest s =
      if U.opportunistic_batching
      then U.store_results env f p.signature hint node rest s.current_cycle
      else env

  abbrev pub result_at : String → ℕ → ℕ → ScheduleResult
  result_at node n rejected = record {
    suggested_host = node;
    evaluated_nodes = n + rejected;
    feasible_nodes = n;
  }

  -- The host with the best score; an empty heap panics.
  abbrev pub choose_best :
      Framework
      → PendingPod U
      → Fit U
      → Option (Result kinds (List NodeScores) × Env)
      → Option Chosen
  choose_best f p fit none = none
  choose_best f p fit (some (err e, env)) =
      some (record { result = err e; env = env; sched = fit.sched })
  choose_best f p fit (some (ok ss, env)) = elim (U.pop_best ss) [
    | none ↦ none
    | some node ↦ some (record {
      result = ok (result_at node (length fit.nodes) (U.num_statuses fit.diagnosis));
      env = store env f p fit.hint node (some ss) fit.sched;
      sched = fit.sched;
    })
  ]

  -- The choice among the nodes that fit.
  unfoldable pub choose : Snap → Framework → PendingPod U → Fit U → List Node → Option Chosen
  choose snap f p fit [] = some (record {
    result = err (fit_error p.pod_info.pod (U.num_nodes_in_placement snap) fit.diagnosis);
    env = fit.env;
    sched = fit.sched;
  })
  choose snap f p fit (n ∷ []) = some (record {
    result = ok (result_at (U.node_name n) 1 (U.num_statuses fit.diagnosis));
    env = store fit.env f p fit.hint (U.node_name n) none fit.sched;
    sched = fit.sched;
  })
  choose snap f p fit (n ∷ m ∷ ns) =
      choose_best f p fit (
        prioritize_nodes U snap fit.env (U.extenders f) f p.cycle_state p.pod_info.pod (n ∷ m ∷ ns))

  -- `schedulePod`
  unfoldable pub select_host : Snap → Env → Scheduler → Framework → PendingPod U → Option Chosen
  unfolding choose
  select_host snap env s f p =
      if U.num_nodes_in_placement snap == 0
      then some (record { result = err no_nodes_available; env = env; sched = s })
      else elim (find_nodes_that_fit_pod U snap env s f p false) [
        | none ↦ none
        | some fit ↦ elim fit.error [
          | some e ↦ some (record { result = err e; env = fit.env; sched = fit.sched })
          | none ↦ choose snap f p fit fit.nodes
        ]
      ]

  -- What `assume` makes of the copied pod.
  abbrev pub assumed_pod_info : World U → CycleRef → PodInfo kinds → String → PodInfo kinds
  assumed_pod_info w cs pi host =
      let p = with_node_name U pi.pod host in
      if U.dra_node_allocatable
      then record pi { pod = record p { claim_statuses = U.extract_claim_statuses w.env cs host } }
      else record pi { pod = p }

  unfoldable pub unreserve_and_forget :
      CycleRef → Framework → PodInfo kinds → String → World U → Option (Error kinds) × World U
  unreserve_and_forget cs f pi node w =
      let env = U.run_unreserve w.snap w.env f cs pi.pod node in
      let (e, s) = U.forget_pod w.snap pi.pod in (e, record w { snap = s; env = env })

  -- What a Reserve plugin that fails comes to.
  abbrev pub reserve_failure : PodInfo kinds → String → Status → Status
  reserve_failure pi host st =
      let d = U.add_plugin_status (U.set_status U.new_diagnosis host st) st in
      if U.is_rejected st
      then U.with_error (U.new_status (U.code st) []) (fit_error pi.pod 1 d)
      else st

  unfoldable pub assume_and_reserve :
      CycleRef
      → Framework
      → PodInfo kinds
      → ScheduleResult
      → World U
      → PodInfo kinds × Status × World U
  assume_and_reserve cs f pi r w =
      let host = r.suggested_host in
      let assumed = assumed_pod_info w cs pi host in
      let (e, s) = U.assume_pod w.snap assumed in
      elim e [
        | some x ↦ (assumed, U.as_status x, record w { snap = s })
        | none ↦
            let (st, env) = U.run_reserve s w.env f cs assumed.pod host in
            let w' = record w { snap = s; env = env } in
            if U.is_success st then (assumed, U.nil_status, w') else (
              assumed,
              reserve_failure pi host st,
              (unreserve_and_forget cs f assumed host w').1,
            )
      ]

  -- The status for an error of `schedulePod`.
  abbrev pub error_status : Error kinds → Status
  error_status no_nodes_available = U.with_error (U.new_status U.unresolvable []) no_nodes_available
  error_status (fit_error p n d) = U.with_error (U.new_status U.unschedulable []) (fit_error p n d)
  error_status (message s) = U.as_status (message s)
  error_status (wrap s e) = U.as_status (wrap s e)
  error_status (joined es) = U.as_status (joined es)

  abbrev pub Attempt : Type 0
  Attempt = AlgorithmResult U × Option (Undo U) × World U

  -- `revertFn`
  unfoldable pub undo_schedule : CycleRef → Framework → PodInfo kinds → String → Undo U
  unfolding unreserve_and_forget
  undo_schedule cs f pi host w = (unreserve_and_forget cs f pi host w).1

  abbrev pub outcome :
      Framework → PendingPod U → ScheduleResult → PodInfo kinds × Status × World U → Attempt
  outcome f p r (assumed, st, w) =
      if U.is_success st
      then (
        record { schedule_result = r; pod = p.pod_ref; status = U.nil_status },
        some (undo_schedule p.cycle_state f assumed r.suggested_host),
        w,
      )
      else (record { schedule_result = no_result; pod = p.pod_ref; status = st }, none, w)

  -- The second half of `SchedulePod`: a host is chosen.
  unfoldable pub place : Framework → PendingPod U → ScheduleResult → World U → Attempt
  unfolding assume_and_reserve
  place f p r w = outcome f p r (assume_and_reserve p.cycle_state f p.pod_info r w)

  abbrev pub attempt_with : Framework → PendingPod U → World U → Option Chosen → Option Attempt
  attempt_with f p w none = none
  attempt_with f p w (some c) = elim c.result [
    | err e ↦ some (
      record { schedule_result = no_result; pod = p.pod_ref; status = error_status e },
      none,
      record w { env = c.env },
    )
    | ok r ↦ some (place f p r (record w { env = c.env }))
  ]

  -- `SchedulePod`
  unfoldable pub schedule_pod : Scheduler → Framework → PendingPod U → World U → Option Attempt
  schedule_pod s f p w = attempt_with f p w (select_host w.snap w.env s f p)
