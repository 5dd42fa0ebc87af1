-- ===== src/Simulator.antt =====
-- `SchedulingSimulator` of pkg/simulator/simulator.go: the informers, and the constructors of the objects
-- that simulations are run against. The type `Simulator` is modelled in Session.
pub mod Constructed
pub mod Synced
use scheduler_library.Base.{ℕ, ◌≡◌, refl, Option, none, some, List, [], ◌∷◌, map}
use scheduler_library.Upstream.{Upstream, Pod, Error, message, wrap, Result, ok, err}
use scheduler_library.World.{World}
use scheduler_library.Profiles.{ProfileMap}
use scheduler_library.Profiles.Platform.{Platform}
use scheduler_library.Profiles.NewProfileMap.{NewMap}
use scheduler_library.Framework.{Configuration, NoOps, informers_or_new, noop_profile_map}
use scheduler_library.Snapshot.Types.{ClusterSnapshot, new}
use scheduler_library.ClusterState.{ClusterState, new_state}

module _ {U : Upstream} (K : Platform U) (new_map : NewMap K) (noops : NoOps K) where
  open U use {kinds, Env}

  pub record SchedulingSimulator : Type 0 where
    pub cfg : Option (Configuration K)
    pub informer_factory : K.InformerFactory
    pub client : K.Client

  -- Starting the informers, and waiting until they are in sync.
  abbrev pub started : K.InformerFactory → Env → Option (Error kinds) × Env
  started f env = K.wait_for_sync f (K.start f env)

  -- `NewSchedulingSimulator`; the zero value of `ReadonlyClient` has no client.
  unfoldable pub new_scheduling_simulator :
      Option (Configuration K)
      → Option K.Client
      → Option K.InformerFactory
      → Env
      → Result kinds SchedulingSimulator × Env
  new_scheduling_simulator cfg none informers env =
      (err (message "client needs to be provided, got nil"), env)
  new_scheduling_simulator cfg (some c) informers env =
      let f = informers_or_new K c informers in
      let (e, env') = started f (K.request_pods f (K.request_nodes f (K.init_metrics_once env))) in
      elim e [
        | some x ↦ (err x, env')
        | none ↦ (ok (record { cfg = cfg; informer_factory = f; client = c }), env')
      ]

  -- The second half of `buildProfileMap`.
  abbrev pub after_map :
      K.InformerFactory → Result kinds (ProfileMap U) × Env → Result kinds (ProfileMap U) × Env
  after_map f (err e, env) = (err (wrap "schedlib: building scheduler" e), env)
  after_map f (ok m, env) =
      let (e, env') = started f env in elim e [ some x ↦ (err x, env') | none ↦ (ok m, env') ]

  unfoldable pub build_profile_map :
      SchedulingSimulator → K.SnapshotRef → Env → Result kinds (ProfileMap U) × Env
  build_profile_map s snap env =
      after_map s.informer_factory
        (noop_profile_map K new_map noops s.client (some s.informer_factory) snap s.cfg env)

  -- A cluster snapshot, with the pointer to its scheduler snapshot.
  pub record Created : Type 0 where
    pub reference : K.SnapshotRef
    pub snapshot : ClusterSnapshot U

  abbrev pub create_on :
      World U
      → K.SnapshotRef
      → U.Snap
      → Result kinds (ProfileMap U) × Env
      → Result kinds Created × World U
  create_on w r sn (err e, env) = (err e, record w { env = env })
  create_on w r sn (ok m, env) =
      let w' = record w { snap = sn; env = env } in
      (ok (record { reference = r; snapshot = new U w' m }), w')

  -- `NewClusterSnapshot`
  unfoldable pub new_cluster_snapshot :
      SchedulingSimulator → List ℕ → List K.NodeObject → World U → Result kinds Created × World U
  new_cluster_snapshot s pods nodes w =
      let (r, sn, env) = K.new_snapshot (map w.pods pods) nodes w.env in
      create_on w r sn (build_profile_map s r env)

  module _
      (update_snapshot : K.SchedulerCache
        → U.Snap
        → Option (Error U.kinds) × U.Snap × K.SchedulerCache) where
    abbrev pub State : Type 0
    State = ClusterState U K.SchedulerCache update_snapshot

    abbrev pub state_on :
        K.SchedulerCache → Result kinds Created × World U → Result kinds State × World U
    state_on c (err e, w) = (err e, w)
    state_on c (ok x, w) = (ok (record { cache = c; snapshot = x.snapshot }), w)

    -- `NewClusterState`
    unfoldable pub new_cluster_state : SchedulingSimulator → World U → Result kinds State × World U
    new_cluster_state s w =
        let (r, sn, env) = K.new_empty_snapshot w.env in
        let cache = K.new_cache none K.generic_workload K.composite_pod_group in
        state_on cache (create_on w r sn (build_profile_map s r env))
