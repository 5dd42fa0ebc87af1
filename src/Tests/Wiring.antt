-- ===== src/Tests/Wiring.antt =====
-- The constructors on a small platform.
use scheduler_library.Upstream.{Error}
use scheduler_library.ClusterState.{ClusterState, sync_snapshot}
use scheduler_library.ClusterState.Synced.{changed, Synced}
use scheduler_library.Tests.Cache.{Nodes, refresh, no_nodes, cache-Laws}
use scheduler_library.Session.{Call, schedules, Session, run_calls}
use scheduler_library.Simulator.{new_cluster_state}
use scheduler_library.Tests.Fixture.{listed_once}
use scheduler_library.Tests.Fixture.{on, plainly, pins}
use scheduler_library.Base.{ℕ, ◌≡◌, refl, ◌⊎◌, false, String, Option, none, some, List, [], ◌∷◌}
use scheduler_library.Upstream.{Result, ok, err}
use scheduler_library.World.{World}
use scheduler_library.Framework.{Configuration, noop_profile_map}
use scheduler_library.Framework.Cacher.{bind_pod, accept, wait_on_finish, wait_on_finish-accept}
use scheduler_library.Framework.Defaults.{noop_profile_map_defaults}
use scheduler_library.Simulator.{SchedulingSimulator, Created, new_cluster_snapshot}
use scheduler_library.Simulator.Constructed.{Ready, new_cluster_snapshot-Ready}
use scheduler_library.Tests.Cluster.{cluster, kinds}
use scheduler_library.Tests.Fixture.{world, snapshot}
use scheduler_library.Profiles.BuildExtenders.{build_extenders}
use scheduler_library.Profiles.NewProfileMap.{dra_manager_of, new_profile_map}
use scheduler_library.Simulator.{build_profile_map}
use scheduler_library.Tests.Platform.{a_profile, platform, new_map, noops, platform-FrameworkLaws}

abbrev a_config : Configuration platform
a_config = record { profiles = a_profile ∷ []; extenders = []; parallelism = 1 }

noop_profile_map_defaults_example :
    noop_profile_map platform new_map noops 3 none 5 none 0
    ≡ noop_profile_map platform new_map noops 3 none 5 (some a_config) 0
noop_profile_map_defaults_example =
    noop_profile_map_defaults platform new_map noops 3 none 5 a_config 0 refl

wait_on_finish-accept_example :
    (r : Option String) × (wait_on_finish String false (some "cancelled") (accept String bind_pod).0
      ≡ some r)
    × ((r ≡ none) ⊎ (r ≡ some "cancelled"))
wait_on_finish-accept_example = wait_on_finish-accept String bind_pod false (some "cancelled")

abbrev simulator : SchedulingSimulator platform new_map noops
simulator = record { cfg = none; informer_factory = 4; client = 3 }

abbrev created : Result kinds (Created platform new_map noops) × World cluster
created = new_cluster_snapshot platform new_map noops simulator (0 ∷ []) ("n1" ∷ []) world

abbrev created_of :
    Result kinds (Created platform new_map noops) × World cluster → Created platform new_map noops
created_of (err e, w) = record { reference = 0; snapshot = snapshot }
created_of (ok x, w) = x

was_created : created ≡ (ok (created_of created), created.1)
unfolding new_cluster_snapshot build_profile_map noop_profile_map new_profile_map build_extenders
    dra_manager_of
was_created = refl

new_cluster_snapshot-Ready_example :
    Ready platform platform-FrameworkLaws noops simulator world
      (0 ∷ [])
      ("n1" ∷ [])
      (created_of created)
new_cluster_snapshot-Ready_example =
    new_cluster_snapshot-Ready platform platform-FrameworkLaws noops simulator (0 ∷ []) ("n1" ∷ [])
      world created.1 (created_of created) was_created

abbrev MadeState : Type 0
MadeState = ClusterState cluster Nodes refresh

abbrev state : Result kinds MadeState × World cluster
state = new_cluster_state platform new_map noops refresh simulator world

abbrev state_of : Result kinds MadeState × World cluster → MadeState
state_of (err e, w) = record { cache = no_nodes; snapshot = snapshot }
state_of (ok x, w) = x

-- A pod scheduled on the snapshot of the state.
abbrev calls : List (Call cluster)
calls = schedules (1 ∷ []) (on ("n2" ∷ [])) plainly ∷ []

abbrev fresh_session : Session cluster
fresh_session = record { snapshot = (state_of state).snapshot; handles = [] }

abbrev last_of : Option (Session cluster) → Session cluster
last_of none = fresh_session
last_of (some t) = t

-- The node "n1" of the cache has got a pod, and the state is synced.
abbrev listed_now : List (String → String → ℕ)
listed_now = listed_once ∷ []

abbrev synced : Option (Option (Error kinds) × MadeState)
synced = sync_snapshot cluster Nodes refresh (record {
  cache = changed cache-Laws pins listed_now (state_of state).cache;
  snapshot = (last_of (run_calls cluster calls fresh_session)).snapshot;
})

abbrev state_in : Option (Option (Error kinds) × MadeState) → MadeState
state_in none = state_of state
state_in (some x) = x.1

abbrev again : Session cluster
again = record { snapshot = (state_in synced).snapshot; handles = [] }
