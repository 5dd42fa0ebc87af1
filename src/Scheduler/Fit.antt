-- ===== src/Scheduler/Fit.antt =====
-- `findNodesThatFitPod`, `FindAllNodesThatFitPod` and `evaluateNominatedNode`.
use scheduler_library.Base.{
  ℕ, ◌+◌, ◌%◌, String, Bool, true, false, not, ◌&&◌, ◌||◌, Option, none, some, List, [], ◌∷◌,
  length, ◌==◌, str_eq, ◌<>◌, is_empty, if◌then◌else◌,
}
use scheduler_library.Upstream.{Upstream, Pod, Error, Result, ok, err}
use scheduler_library.Scheduler.Types.{Scheduler, PendingPod, Fit}
use scheduler_library.Scheduler.Filters.{Passed, find_nodes_that_pass_filters}
use scheduler_library.Scheduler.Extenders.{Extended, find_nodes_that_pass_extenders}

module _ (U : Upstream) where
  open U use {kinds, Node, Env, Snap, Diagnosis, Framework, CycleRef}

  -- The nodes that the PreFilter result names and the placement has.
  unfoldable pub nodes_in_placement : Snap → List String → List Node
  nodes_in_placement s [] = []
  nodes_in_placement s (n ∷ ns) = elim (U.get_node_in_placement s n) [
    | ok ni ↦ ni ∷ nodes_in_placement s ns
    | err _ ↦ nodes_in_placement s ns
  ]

  -- The extenders, once the filters have passed; the diagnosis is the callee's copy.
  abbrev pub extend_nominated :
      Env → Framework → Pod kinds → Option (Passed U) → Option (Extended U)
  extend_nominated env f pod none = none
  extend_nominated env f pod (some p) = elim p.error [
    | some e ↦ some (err e, p.diagnosis, env)
    | none ↦ some (find_nodes_that_pass_extenders U env (U.extenders f) pod p.nodes p.diagnosis)
  ]

  unfoldable pub evaluate_nominated_node :
      Snap
      → Env
      → Scheduler
      → Framework
      → CycleRef
      → Pod kinds
      → String
      → Diagnosis
      → Option (Extended U)
  evaluate_nominated_node snap env s f cs pod hint d =
      let nnn = if str_eq pod.nominated_node_name "" then hint else pod.nominated_node_name in
      elim (U.get_node_in_placement snap nnn) [
        | err _ ↦ elim (U.get snap nnn) [
          | err e ↦ some (err e, d, env)
          | ok _ ↦ some (ok [], d, env)
        ]
        | ok ni ↦
            extend_nominated env f pod
              (find_nodes_that_pass_filters U snap env s f cs pod d (ni ∷ []) false)
      ]

  -- An evaluation that failed is reported and counts as no node.
  abbrev pub nominated_nodes : Result kinds (List Node) → List Node
  nominated_nodes (err _) = []
  nominated_nodes (ok ns) = ns

  -- The end of the function, after the filters.
  unfoldable pub finish_fit :
      Env → Scheduler → Framework → Pod kinds → String → ℕ → Option (Passed U) → Option (Fit U)
  finish_fit env s f pod hint total none = none
  finish_fit env s f pod hint total (some p) =
      let processed = length p.nodes + U.num_statuses p.diagnosis in
      let s' : Scheduler = record s {
        next_start_node_index = (s.next_start_node_index + processed) % total;
      } in
      if total == 0 then none else elim p.error [
        | some e ↦ some (record {
          nodes = [];
          diagnosis = p.diagnosis;
          hint = hint;
          error = some e;
          env = env;
          sched = s';
        })
        | none ↦
            let (r, d, env') =
              find_nodes_that_pass_extenders U env (U.extenders f) pod p.nodes p.diagnosis in
            elim r [
              | err e ↦ some (record {
                nodes = [];
                diagnosis = d;
                hint = hint;
                error = some e;
                env = env';
                sched = s';
              })
              | ok ns ↦ some (record {
                nodes = ns;
                diagnosis =
                    if length ns == length p.nodes then d else U.insert_plugin d U.extender_plugin;
                hint = hint;
                error = none;
                env = env';
                sched = s';
              })
            ]
      ]

  abbrev pub joined_by : List String → String
  joined_by [] = ""
  joined_by (n ∷ []) = n
  joined_by (n ∷ ns) = n <> (" " <> joined_by ns)

  -- From the choice of the nodes to the end of the function.
  unfoldable pub fit_nodes :
      Snap
      → Env
      → Scheduler
      → Framework
      → PendingPod U
      → String
      → Diagnosis
      → List Node
      → U.PreResult
      → List String
      → Bool
      → Option (Fit U)
  unfolding nodes_in_placement finish_fit
  fit_nodes snap env s f p hint d all pre plugins find_all =
      let pod = p.pod_info.pod in
      let absent =
        U.new_status U.unresolvable
          (("node(s) didn't satisfy plugin(s) [" <> (joined_by plugins <> "]")) ∷ []) in
      if U.all_nodes pre
      then finish_fit env s f pod hint (length all)
          (find_nodes_that_pass_filters U snap env s f p.cycle_state pod d all find_all)
      else finish_fit env s f pod hint (length all) (
          find_nodes_that_pass_filters U snap env s f p.cycle_state pod
            (U.set_absent_status d absent) (nodes_in_placement snap (U.node_names pre)) find_all)

  abbrev pub no_fit : Diagnosis → String → Option (Error kinds) → Env → Scheduler → Fit U
  no_fit d hint e env s = record {
    nodes = [];
    diagnosis = d;
    hint = hint;
    error = e;
    env = env;
    sched = s;
  }

  -- The nominated node first, unless every node is wanted.
  unfoldable pub fit_after_pre_filter :
      Snap
      → Env
      → Scheduler
      → Framework
      → PendingPod U
      → Diagnosis
      → List Node
      → U.PreResult
      → List String
      → Bool
      → Option (Fit U)
  unfolding evaluate_nominated_node fit_nodes
  fit_after_pre_filter snap env s f p d all pre plugins find_all =
      let pod = p.pod_info.pod in
      let (hint, env') : String × Env =
        if U.opportunistic_batching
        then U.get_node_hint snap env f p.cycle_state pod p.signature s.current_cycle
        else ("", env) in
      let nominated = not (str_eq pod.nominated_node_name "") || not (str_eq hint "") in
      if not find_all && nominated
      then elim (evaluate_nominated_node snap env' s f p.cycle_state pod hint d) [
        | none ↦ none
        | some (r, d', env'') ↦
            let seen = U.after_copy d d' in
            if is_empty (nominated_nodes r)
            then fit_nodes snap env'' s f p hint seen all pre plugins find_all
            else some (record {
              nodes = nominated_nodes r;
              diagnosis = seen;
              hint = hint;
              error = none;
              env = env'';
              sched = s;
            })
      ]
      else fit_nodes snap env' s f p hint d all pre plugins find_all

  unfoldable pub find_nodes_that_fit_pod :
      Snap → Env → Scheduler → Framework → PendingPod U → Bool → Option (Fit U)
  unfolding fit_after_pre_filter
  find_nodes_that_fit_pod snap env s f p find_all = elim (U.list_nodes_in_placement snap) [
    | err e ↦ some (no_fit U.new_diagnosis "" (some e) env s)
    | ok all ↦
        let (reply, env') = U.run_pre_filter snap env f p.cycle_state p.pod_info.pod in
        let d = U.set_plugins U.new_diagnosis reply.plugins in
        let st = reply.status in
        if U.is_success st
        then fit_after_pre_filter snap env' s f p d all reply.result reply.plugins find_all
        else if U.is_rejected st
        then some (
            no_fit
              (U.add_plugin_status
                (U.set_pre_filter_message (U.set_absent_status d st) (U.status_message st)) st)
              "" none env' s)
        else some (no_fit d "" (some (U.as_error st)) env' s)
  ]

  -- `FindAllNodesThatFitPod`
  abbrev pub find_all_nodes_that_fit_pod :
      Snap → Env → Scheduler → Framework → PendingPod U → Option (Fit U)
  find_all_nodes_that_fit_pod snap env s f p = find_nodes_that_fit_pod snap env s f p true
