-- ===== src/Tests/Platform.antt =====
-- A small platform: pointers, clients and caches are numbers.
use scheduler_library.Tests.Cache.{Nodes, no_nodes}
use mathlib.Core.Path.{subst}
use scheduler_library.Upstream.Results.{ok-injective}
use scheduler_library.Base.{ap, ℕ, ◌+◌, ◌≡◌, refl, true, false, String, none, List, [], ◌∷◌}
use scheduler_library.Upstream.{ok, err, message}
use scheduler_library.Profiles.{ProfileMap}
use scheduler_library.Profiles.Platform.{KubeProfile, Platform}
use scheduler_library.Profiles.NewProfileMap.{RuntimeOptions, NewMap}
use scheduler_library.Framework.{NoOps}
use scheduler_library.Framework.Wired.{AllFrameworks, FrameworkLaws}
use scheduler_library.Tests.Cluster.{cluster, Wiring}

abbrev pub a_profile : KubeProfile (Unit {0}) String
a_profile = record { plugin_config = []; rest = "default-scheduler" }

abbrev pub platform : Platform cluster
platform = record {
  ExtenderRest = Unit {0};
  Args = Unit {0};
  ProfileRest = String;
  Client = ℕ;
  InformerFactory = ℕ;
  RecorderFactory = Unit {0};
  PodNominator = Unit {0};
  PodActivator = Unit {0};
  ApiCacher = ℕ;
  SnapshotRef = ℕ;
  Registry = Unit {0};
  Capturer = Unit {0};
  SliceTracker = Unit {0};
  DraManager = Unit {0};
  CsiManager = Unit {0};
  Dispatcher = Unit {0};
  SchedulerCache = Nodes;
  NodeObject = String;
  default_profiles = ok (a_profile ∷ []);
  default_parallelism = 16;
  in_tree_registry = tt;
  nil_registry = tt;
  merge = λ a b. (none, tt);
  new_http_extender = λ c. err (message "no extender");
  node_resources_fit_name = "NodeResourcesFit";
  dynamic_resource_allocation = true;
  dra_device_taint_rules = false;
  dra_consumable_capacity = false;
  scheduler_async_api_calls = true;
  generic_workload = false;
  composite_pod_group = false;
  start_tracker = λ c f a b e. (ok tt, e + 1);
  new_dra_manager = λ f t e. (tt, e);
  new_csi_manager = λ f. tt;
  new_dispatcher = λ c n. tt;
  new_cache = λ d a b. no_nodes;
  set_api_cacher = λ c f. record f { cacher = c };
  new_informer_factory = λ c. c;
  request_nodes = λ f e. e;
  request_pods = λ f e. e;
  start = λ f e. e;
  wait_for_sync = λ f e. (none, e);
  init_metrics_once = λ e. e;
  new_snapshot =
      λ ps ns e. (e + 1, record { listed = λ n k. 0; marked = λ k. 0; placement = [] }, e + 2);
  new_empty_snapshot =
      λ e. (e + 1, record { listed = λ n k. 0; marked = λ k. 0; placement = [] }, e + 2);
}

abbrev pub frameworks_for :
    List (KubeProfile (Unit {0}) String) → RuntimeOptions platform → ProfileMap cluster
frameworks_for [] o = []
frameworks_for (p ∷ ps) o =
    (
      p.rest,
      record { snapshot = o.snapshot; client = o.client; cacher = 0; extenders = o.extenders },
    )
    ∷ frameworks_for ps o

abbrev pub new_map : NewMap platform
new_map ps registry recorders o e = (ok (frameworks_for ps o), e)

abbrev pub noops : NoOps platform
noops = record { recorders = tt; nominator = tt; activator = tt; cacher = 7 }

abbrev pub Connected : RuntimeOptions platform → Wiring → Type 0
Connected o f = (f.snapshot ≡ o.snapshot) × (f.client ≡ o.client) × (f.extenders ≡ o.extenders)

frameworks_for-Connected :
    (ps : List (KubeProfile (Unit {0}) String)) (o : RuntimeOptions platform)
    → AllFrameworks cluster (Connected o) (frameworks_for ps o)
frameworks_for-Connected [] o = tt
frameworks_for-Connected (p ∷ ps) o = ((refl, refl, refl), frameworks_for-Connected ps o)

pub platform-FrameworkLaws : FrameworkLaws platform new_map
platform-FrameworkLaws = record {
  reads = λ f. f.snapshot;
  calls = λ f. f.client;
  caches_with = λ f. f.cacher;
  keeps_options = λ ps g r o e e' m q.
      subst (AllFrameworks cluster (Connected o)) (ok-injective (ap (λ c. c.0) q))
        (frameworks_for-Connected ps o);
  sets_cacher = λ c f. refl;
  same_snapshot = λ c f. refl;
  same_client = λ c f. refl;
  same_extenders = λ c f. refl;
}
