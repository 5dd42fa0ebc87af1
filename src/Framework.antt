-- ===== src/Framework.antt =====
-- `NewProfileMap` of pkg/framework/framework.go. Its no-op extension points are handed to the frameworks
-- as interface values; what the API cacher does is in Cacher.
pub mod Cacher
pub mod Wired
pub mod Defaults
use scheduler_library.Base.{ℕ, Option, none, some, List, [], ◌∷◌}
use scheduler_library.Upstream.{Upstream, Result}
use scheduler_library.Profiles.{ProfileMap}
use scheduler_library.Profiles.Platform.{KubeProfile, Platform}
use scheduler_library.Profiles.BuildExtenders.{ExtenderConfig}
use scheduler_library.Profiles.NewProfileMap.{
  FrameworkOptions, with_profiles, NewMap, new_profile_map,
}

module _ {U : Upstream} (K : Platform U) where
  -- `schedulerapi.KubeSchedulerConfiguration`, as far as it concerns the frameworks.
  pub record Configuration : Type 0 where
    pub profiles : List (KubeProfile K.Args K.ProfileRest)
    pub extenders : List (ExtenderConfig K.ExtenderRest)
    pub parallelism : ℕ

  -- `&discardEventRecorder{}`, `&noopPodNominator{}`, `&noopPodActivator{}`, `&noopAPICacher{}`
  pub record NoOps : Type 0 where
    pub recorders : K.RecorderFactory
    pub nominator : K.PodNominator
    pub activator : K.PodActivator
    pub cacher : K.ApiCacher

  abbrev pub options_of : Option Configuration → List (FrameworkOptions K → FrameworkOptions K)
  options_of none = []
  options_of (some cfg) = with_profiles K cfg.profiles ∷ []

  abbrev pub informers_or_new : K.Client → Option K.InformerFactory → K.InformerFactory
  informers_or_new client none = K.new_informer_factory client
  informers_or_new client (some f) = f

  unfoldable pub noop_profile_map :
      NewMap K
      → NoOps
      → K.Client
      → Option K.InformerFactory
      → K.SnapshotRef
      → Option Configuration
      → U.Env
      → Result U.kinds (ProfileMap U) × U.Env
  noop_profile_map new_map noops client informers snap cfg env =
      new_profile_map K new_map client (informers_or_new client informers) noops.recorders
        noops.nominator noops.activator noops.cacher snap (options_of cfg) (K.init_metrics_once env)
