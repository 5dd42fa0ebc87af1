-- ===== src/Snapshot/Feasible.antt =====
-- `CanSchedulePod` and `MakePlacement`.
pub mod ReadOnly
pub mod Returns
pub mod Agrees
use scheduler_library.Base.{
  ℕ, String, Option, none, some, List, [], ◌∷◌, map, is_empty, if◌then◌else◌,
}
use scheduler_library.Upstream.{Upstream, Placement, Error, wrap, Result, ok, err}
use scheduler_library.World.{World}
use scheduler_library.Profiles.{framework_for_pod}
use scheduler_library.Scheduler.Types.{PendingPod, Fit, new_scheduler, max_int32}
use scheduler_library.Scheduler.Fit.{find_all_nodes_that_fit_pod}
use scheduler_library.Snapshot.Types.{ClusterSnapshot}

module _ (U : Upstream) where
  open U use {kinds, Env, Framework, Node, Diagnosis}

  -- The nodes of the names, up to the first that is not there.
  unfoldable pub nodes_of : U.Snap → List String → Result kinds (List Node)
  nodes_of s [] = ok []
  nodes_of s (n ∷ ns) = elim (U.get s n) [
    | err e ↦ err (wrap "error getting node from snapshot" e)
    | ok ni ↦ elim (nodes_of s ns) [ err e ↦ err e | ok nis ↦ ok (ni ∷ nis) ]
  ]

  unfoldable pub make_placement : List String → ClusterSnapshot U → Result kinds (Placement kinds)
  unfolding nodes_of
  make_placement names s = elim (nodes_of s.world.snap names) [
    | err e ↦ err e
    | ok ns ↦ ok (record { nodes = ns })
  ]

  pub record Feasibility : Type 0 where
    pub node_names : List String
    pub diagnosis : Option Diagnosis
    pub error : Option (Error kinds)
    pub snapshot : ClusterSnapshot U

  abbrev pub with_world : World U → ClusterSnapshot U → ClusterSnapshot U
  with_world w s = record s { world = w }

  -- After `AssumePlacement`, the deferred `ForgetPlacement` included.
  abbrev pub feasibility_of : World U → ClusterSnapshot U → Option (Fit U) → Option Feasibility
  feasibility_of w s none = none
  feasibility_of w s (some fit) =
      let s' = with_world (record w { snap = U.forget_placement w.snap; env = fit.env }) s in
      elim fit.error [
        | some e ↦ some (record {
          node_names = [];
          diagnosis = some fit.diagnosis;
          error = some (wrap "failed to find nodes that fit pod" e);
          snapshot = s';
        })
        | none ↦ some (record {
          node_names = map U.node_name fit.nodes;
          diagnosis = some fit.diagnosis;
          error = none;
          snapshot = s';
        })
      ]

  abbrev pub no_feasibility : Option (Error kinds) → ClusterSnapshot U → Option Feasibility
  no_feasibility e s = some (record { node_names = []; diagnosis = none; error = e; snapshot = s })

  -- The pod with its framework and its cycle state, on the placement.
  unfoldable pub find_feasible :
      PendingPod U → Framework → Placement kinds → Env → ClusterSnapshot U → Option Feasibility
  find_feasible p f pl env s =
      let (e, sn) = U.assume_placement s.world.snap pl in
      let w = record (s.world) { snap = sn; env = env } in
      elim e [
        | some x ↦ no_feasibility (some (wrap "failed to assume placement" x)) (with_world w s)
        | none ↦
            feasibility_of w s
              (find_all_nodes_that_fit_pod U w.snap w.env (new_scheduler 0 0 max_int32) f p)
      ]

  unfoldable pub can_schedule_pod :
      ℕ → Option (Placement kinds) → ClusterSnapshot U → Option Feasibility
  unfolding find_feasible
  can_schedule_pod r none s = no_feasibility none s
  can_schedule_pod r (some pl) s =
      if is_empty pl.nodes
      then no_feasibility none s
      else elim (framework_for_pod U s.profiles (s.world.pods r)) [
        | err e ↦ no_feasibility (some (wrap "failed to get framework" e)) s
        | ok f ↦
            let (cs, env) = U.new_cycle_state s.world.env in
            elim (U.pod_terms (s.world.pods r)) [
              | err e ↦
                  no_feasibility (some (wrap "failed to create pod info" e))
                    (with_world (record (s.world) { env = env }) s)
              | ok t ↦
                  let p : PendingPod U = record {
                    pod_ref = r;
                    pod_info = record { pod = s.world.pods r; terms = t };
                    signature = U.empty_signature;
                    cycle_state = cs;
                  } in
                  find_feasible p f pl env s
            ]
      ]
