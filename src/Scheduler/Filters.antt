-- ===== src/Scheduler/Filters.antt =====
-- `findNodesThatPassFilters`. The pieces of the parallel loop take effect one by one, in an order
-- that the parallelizer chooses; once the context is cancelled only pieces already under way run.
pub mod Sound
pub mod Complete
pub mod Unfiltered
pub mod Among
use scheduler_library.Base.{
  ℕ, zero, suc, ◌+◌, ◌%◌, ◌^◌, String, Bool, true, false, not, ◌&&◌, Option, none, some, List, [],
  ◌∷◌, ◌++◌, length, ltb, get_elem?, set, replicate, if◌then◌else◌,
}
use scheduler_library.Upstream.{Upstream, Pod, Error}
use scheduler_library.Scheduler.Types.{Scheduler, has_scoring, has_extender_filters}

module _ (U : Upstream) where
  open U use {kinds, Node, Env, Snap, Status, Diagnosis, Framework, CycleRef}

  -- The variables that the pieces share. `feasible` is `feasibleNodes[:feasibleNodesLen]`.
  pub record Search : Type 0 where
    pub feasible : List Node
    pub rejected : List (Option (String × Status))
    pub failure : Option (Error kinds)
    pub cancelled : Bool

  -- `errCh` keeps the first error.
  abbrev pub first_error : Option (Error kinds) → Error kinds → Option (Error kinds)
  first_error none e = some e
  first_error (some d) e = some d

  -- What a piece does with the status of its node.
  unfoldable pub judge : ℕ → ℕ → Node → Status → Search → Search
  judge want i ni st c =
      if U.is_error (U.code st)
      then record c { failure = first_error c.failure (U.as_error st); cancelled = true }
      else if U.is_success st
      then (if ltb want (length c.feasible + 1)
          then record c { cancelled = true }
          else record c { feasible = c.feasible ++ (ni ∷ []) })
      else record c { rejected = set c.rejected i (some (U.node_name ni, st)) }

  -- `checkNode`
  unfoldable pub check_node : (Node → Status) → List Node → ℕ → ℕ → ℕ → Search → Search
  check_node filter nodes next want i c = elim (get_elem? nodes ((next + i) % length nodes)) [
    | none ↦ c
    | some ni ↦ judge want i ni (filter ni) c
  ]

  unfoldable pub run_pieces :
      (Node → Status) → (ℕ → Bool) → List Node → ℕ → ℕ → List ℕ → Search → Search
  run_pieces filter late nodes next want [] c = c
  run_pieces filter late nodes next want (i ∷ is) c =
      run_pieces filter late nodes next want is
        (if c.cancelled && not (late i) then c else check_node filter nodes next want i c)

  abbrev pub start_search : ℕ → Search
  start_search n = record {
    feasible = [];
    rejected = replicate n none;
    failure = none;
    cancelled = false;
  }

  -- The loop over `result`.
  unfoldable pub report : List (Option (String × Status)) → Diagnosis → Diagnosis
  report [] d = d
  report (none ∷ rs) d = report rs d
  report (some (n, st) ∷ rs) d = report rs (U.add_plugin_status (U.set_status d n st) st)

  -- The nodes taken when there is no filter plugin. `% 0` panics, and so does the index.
  unfoldable pub take_cyclic : List Node → ℕ → ℕ → ℕ → Option (List Node)
  take_cyclic nodes next i zero = some []
  take_cyclic nodes next i (suc k) = elim (get_elem? nodes ((next + i) % length nodes)) [
    | none ↦ none
    | some ni ↦ elim (take_cyclic nodes next (i + 1) k) [ none ↦ none | some ns ↦ some (ni ∷ ns) ]
  ]

  -- `numNodesToFind`
  abbrev pub nodes_to_find : Scheduler → Framework → List Node → Bool → ℕ
  nodes_to_find s f nodes find_all =
      if find_all
      then length nodes % 2 ^ 32
      else if not (has_extender_filters U f) && not (has_scoring U f)
      then 1
      else s.num_nodes_to_find

  pub record Passed : Type 0 where
    pub nodes : List Node
    pub diagnosis : Diagnosis
    pub error : Option (Error kinds)

  -- A negative length makes `make` panic.
  unfoldable pub find_nodes_that_pass_filters :
      Snap
      → Env
      → Scheduler
      → Framework
      → CycleRef
      → Pod kinds
      → Diagnosis
      → List Node
      → Bool
      → Option Passed
  unfolding run_pieces report take_cyclic check_node judge
  find_nodes_that_pass_filters snap env s f cs pod d nodes find_all =
      let want = nodes_to_find s f nodes find_all in
      if ltb want (2 ^ 31)
      then (if U.has_filter_plugins f
          then (let c =
                run_pieces (U.run_filter snap env f cs pod) (U.under_way env) nodes
                  s.next_start_node_index want (U.piece_order env (length nodes))
                  (start_search (length nodes)) in
              some
                (record { nodes = c.feasible; diagnosis = report c.rejected d; error = c.failure }))
          else elim (take_cyclic nodes s.next_start_node_index 0 want) [
            | none ↦ none
            | some ns ↦ some (record { nodes = ns; diagnosis = d; error = none })
          ])
      else none
