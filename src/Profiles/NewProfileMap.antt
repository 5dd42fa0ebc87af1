-- ===== src/Profiles/NewProfileMap.antt =====
-- `NewProfileMap` of pkg/upstreamsync/framework.go, with its options.
use scheduler_library.Base.{
  ℕ, Bool, true, false, Option, none, some, List, [], ◌∷◌, map, if◌then◌else◌,
}
use scheduler_library.Upstream.{Upstream, wrap, Result, ok, err}
use scheduler_library.Profiles.{ProfileMap}
use scheduler_library.Profiles.Platform.{KubeProfile, Platform}
use scheduler_library.Profiles.BuildExtenders.{ExtenderConfig, Profile, build_extenders}

module _ {U : Upstream} (K : Platform U) where
  open U use {kinds, Env, Extender, Framework}
  open K use {
    ExtenderRest, Args, ProfileRest, Client, InformerFactory, RecorderFactory, PodNominator,
    PodActivator, ApiCacher, SnapshotRef, Registry, Capturer, DraManager, CsiManager, Dispatcher,
    SchedulerCache,
  }

  -- `frameworkOptions`
  pub record FrameworkOptions : Type 0 where
    pub profiles : List (KubeProfile Args ProfileRest)
    pub out_of_tree_registry : Registry
    pub apply_default_profile : Bool
    pub extenders : List (ExtenderConfig ExtenderRest)
    pub framework_capturer : Option Capturer
    pub parallelism : ℕ

  -- `WithProfiles`
  abbrev pub with_profiles :
      List (KubeProfile Args ProfileRest) → FrameworkOptions → FrameworkOptions
  with_profiles p o = record o { profiles = p; apply_default_profile = false }

  abbrev pub initial_options : FrameworkOptions
  initial_options = record {
    profiles = [];
    out_of_tree_registry = K.nil_registry;
    apply_default_profile = true;
    extenders = [];
    framework_capturer = none;
    parallelism = K.default_parallelism;
  }

  abbrev pub apply_options :
      List (FrameworkOptions → FrameworkOptions) → FrameworkOptions → FrameworkOptions
  apply_options [] o = o
  apply_options (opt ∷ opts) o = apply_options opts (opt o)

  -- The profiles to build; the default profile only if no option has set profiles.
  abbrev pub profiles_of : FrameworkOptions → Result kinds (List (KubeProfile Args ProfileRest))
  profiles_of o = if o.apply_default_profile then K.default_profiles else ok o.profiles

  -- The options of `frameworkruntime` that `profile.NewMap` is called with.
  pub record RuntimeOptions : Type 0 where
    pub client : Client
    pub informer_factory : InformerFactory
    pub pod_nominator : PodNominator
    pub pod_activator : PodActivator
    pub dra_manager : Option DraManager
    pub snapshot : SnapshotRef
    pub capturer : Option Capturer
    pub parallelism : ℕ
    pub extenders : List Extender
    pub dispatcher : Option Dispatcher
    pub csi_manager : CsiManager
    pub pod_group_manager : SchedulerCache

  -- `profile.NewMap`
  abbrev pub NewMap : Type 0
  NewMap =
      List (KubeProfile Args ProfileRest)
      → Registry
      → RecorderFactory
      → RuntimeOptions
      → Env
      → Result kinds (ProfileMap U) × Env

  -- The plugin configurations as `buildExtenders` leaves them.
  abbrev pub configured :
      List (KubeProfile Args ProfileRest)
      → List (Profile Args)
      → List (KubeProfile Args ProfileRest)
  configured [] cs = []
  configured (p ∷ ps) [] = p ∷ ps
  configured (p ∷ ps) (c ∷ cs) = record p { plugin_config = c } ∷ configured ps cs

  -- The manager of dynamic resources, behind its feature gate.
  unfoldable pub dra_manager_of :
      Client → InformerFactory → Env → Result kinds (Option DraManager) × Env
  dra_manager_of client informers env =
      if K.dynamic_resource_allocation
      then (let (t, env1) =
            K.start_tracker client informers K.dra_device_taint_rules K.dra_consumable_capacity
              env in
          elim t [
            | err e ↦ (err (wrap "couldn't start resource slice tracker" e), env1)
            | ok tracker ↦
                let (m, env2) = K.new_dra_manager informers tracker env1 in (ok (some m), env2)
          ])
      else (ok none, env)

  abbrev pub dispatcher_of : Client → ℕ → Option Dispatcher
  dispatcher_of client n =
      if K.scheduler_async_api_calls then some (K.new_dispatcher client n) else none

  abbrev pub cached_in : ApiCacher → ProfileMap U → ProfileMap U
  cached_in c [] = []
  cached_in c ((n, f) ∷ m) = (n, K.set_api_cacher c f) ∷ cached_in c m

  abbrev pub finish_map :
      ApiCacher → Result kinds (ProfileMap U) × Env → Result kinds (ProfileMap U) × Env
  finish_map c (err e, env) = (err e, env)
  finish_map c (ok m, env) = (ok (cached_in c m), env)

  module _ (new_map : NewMap) (client : Client) (informers : InformerFactory)
      (recorders : RecorderFactory) (nominator : PodNominator) (activator : PodActivator)
      (cacher : ApiCacher) (snapshot : SnapshotRef) where
    abbrev pub runtime_options :
        FrameworkOptions → List Extender → Option DraManager → RuntimeOptions
    runtime_options o xs dra =
        let dispatcher = dispatcher_of client o.parallelism in
        record {
          client = client;
          informer_factory = informers;
          pod_nominator = nominator;
          pod_activator = activator;
          dra_manager = dra;
          snapshot = snapshot;
          capturer = o.framework_capturer;
          parallelism = o.parallelism;
          extenders = xs;
          dispatcher = dispatcher;
          csi_manager = K.new_csi_manager informers;
          pod_group_manager = K.new_cache dispatcher K.generic_workload K.composite_pod_group;
        }

    -- From the profiles on.
    unfoldable pub build_map :
        FrameworkOptions
        → List (KubeProfile Args ProfileRest)
        → Env
        → Result kinds (ProfileMap U) × Env
    build_map o ps env =
        let (merge_error, registry) = K.merge K.in_tree_registry o.out_of_tree_registry in
        elim merge_error [
          | some e ↦ (err e, env)
          | none ↦
              let (built, configs) =
                build_extenders U ExtenderRest Args K.new_http_extender K.node_resources_fit_name
                  o.extenders (map (λ (p : KubeProfile Args ProfileRest). p.plugin_config) ps) in
              elim built [
                | err e ↦ (err (wrap "couldn't build extenders" e), env)
                | ok xs ↦
                    let (dra, env1) = dra_manager_of client informers env in
                    elim dra [
                      | err e ↦ (err e, env1)
                      | ok d ↦ finish_map cacher (
                          new_map (configured ps configs) registry recorders
                            (runtime_options o xs d) env1)
                    ]
              ]
        ]

    unfoldable pub new_profile_map :
        List (FrameworkOptions → FrameworkOptions) → Env → Result kinds (ProfileMap U) × Env
    unfolding build_map
    new_profile_map opts env =
        let o = apply_options opts initial_options in
        elim (profiles_of o) [
          | err e ↦ (err e, env)
          | ok ps ↦ build_map (record o { profiles = ps }) ps env
        ]
