-- ===== src/Profiles/Platform.antt =====
-- The external code that NewProfileMap of pkg/upstreamsync and pkg/framework, and the constructors of
-- pkg/simulator, call: client-go, the informers, feature gates, and the constructors of kube-scheduler.
-- A pointer to a scheduler snapshot is a `SnapshotRef`. Contexts, loggers and metrics are left out.
use scheduler_library.Base.{ℕ, String, Bool, Option, List}
use scheduler_library.Upstream.{Upstream, Pod, Error, Result}
use scheduler_library.Profiles.BuildExtenders.{ExtenderConfig, Profile}

-- `schedulerapi.KubeSchedulerProfile`
pub record KubeProfile (A R : Type 0) : Type 0 where
  pub plugin_config : Profile A
  pub rest : R

pub record Platform (U : Upstream) : Type 1 where
  -- the rest of an extender's configuration, of plugin arguments and of a profile
  pub ExtenderRest : Type 0
  pub Args : Type 0
  pub ProfileRest : Type 0
  pub Client : Type 0
  pub InformerFactory : Type 0
  pub RecorderFactory : Type 0
  pub PodNominator : Type 0
  pub PodActivator : Type 0
  pub ApiCacher : Type 0
  pub SnapshotRef : Type 0
  pub Registry : Type 0
  pub Capturer : Type 0
  pub SliceTracker : Type 0
  pub DraManager : Type 0
  pub CsiManager : Type 0
  pub Dispatcher : Type 0
  pub SchedulerCache : Type 0
  pub NodeObject : Type 0
  -- the defaults of the configuration scheme
  pub default_profiles : Result U.kinds (List (KubeProfile Args ProfileRest))
  pub default_parallelism : ℕ
  pub in_tree_registry : Registry
  pub nil_registry : Registry
  pub merge : Registry → Registry → Option (Error U.kinds) × Registry
  pub new_http_extender : ExtenderConfig ExtenderRest → Result U.kinds U.Extender
  pub node_resources_fit_name : String
  -- feature gates
  pub dynamic_resource_allocation : Bool
  pub dra_device_taint_rules : Bool
  pub dra_consumable_capacity : Bool
  pub scheduler_async_api_calls : Bool
  pub generic_workload : Bool
  pub composite_pod_group : Bool
  -- `resourceslicetracker.StartTracker`, on the two gates, and the two managers
  pub start_tracker :
      Client → InformerFactory → Bool → Bool → U.Env → Result U.kinds SliceTracker × U.Env
  pub new_dra_manager : InformerFactory → SliceTracker → U.Env → DraManager × U.Env
  pub new_csi_manager : InformerFactory → CsiManager
  pub new_dispatcher : Client → ℕ → Dispatcher
  pub new_cache : Option Dispatcher → Bool → Bool → SchedulerCache
  pub set_api_cacher : ApiCacher → U.Framework → U.Framework
  -- `scheduler.NewInformerFactory`, and the calls of a factory
  pub new_informer_factory : Client → InformerFactory
  pub request_nodes : InformerFactory → U.Env → U.Env
  pub request_pods : InformerFactory → U.Env → U.Env
  pub start : InformerFactory → U.Env → U.Env
  pub wait_for_sync : InformerFactory → U.Env → Option (Error U.kinds) × U.Env
  pub init_metrics_once : U.Env → U.Env
  pub new_snapshot : List (Pod U.kinds) → List NodeObject → U.Env → SnapshotRef × U.Snap × U.Env
  pub new_empty_snapshot : U.Env → SnapshotRef × U.Snap × U.Env
