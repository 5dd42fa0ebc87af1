-- ===== src/Framework/Wired.antt =====
-- What the frameworks of a profile map are connected to.
use scheduler_library.Base.{
  ◌≡◌, refl, ◌∙◌, inl, inr, Option, none, some, List, [], ◌∷◌, map, Option-cases,
}
use scheduler_library.Upstream.{Upstream, Result, ok, err}
use scheduler_library.Upstream.Results.{Result-cases}
use scheduler_library.Profiles.{ProfileMap}
use scheduler_library.Profiles.Platform.{KubeProfile, Platform}
use scheduler_library.Profiles.BuildExtenders.{build_extenders}
use scheduler_library.Profiles.NewProfileMap.{
  FrameworkOptions, RuntimeOptions, NewMap, configured, with_profiles, cached_in, finish_map,
  runtime_options, dra_manager_of, initial_options, build_map, new_profile_map,
}
use scheduler_library.Framework.{Configuration, NoOps, informers_or_new, noop_profile_map}

abbrev pub AllFrameworks : (U : Upstream) → (U.Framework → Type 0) → ProfileMap U → Type 0
AllFrameworks U Q [] = Unit
AllFrameworks U Q ((n, f) ∷ m) = Q f × AllFrameworks U Q m

-- What is relied on of frameworks: they keep what they are built with, and `SetAPICacher` sets the
-- cacher and nothing else.
pub record FrameworkLaws {U : Upstream} (K : Platform U) (new_map : NewMap K) : Type 0 where
  pub reads : U.Framework → K.SnapshotRef
  pub calls : U.Framework → K.Client
  pub caches_with : U.Framework → K.ApiCacher
  pub keeps_options :
      (ps : List (KubeProfile K.Args K.ProfileRest)) (registry : K.Registry)
      (recorders : K.RecorderFactory) (o : RuntimeOptions K) (env env' : U.Env) (m : ProfileMap U)
      → new_map ps registry recorders o env ≡ (ok m, env')
      → AllFrameworks U
          (λ f. (reads f ≡ o.snapshot) × (calls f ≡ o.client) × (U.extenders f ≡ o.extenders))
          m
  pub sets_cacher : (c : K.ApiCacher) (f : U.Framework) → caches_with (K.set_api_cacher c f) ≡ c
  pub same_snapshot : (c : K.ApiCacher) (f : U.Framework) → reads (K.set_api_cacher c f) ≡ reads f
  pub same_client : (c : K.ApiCacher) (f : U.Framework) → calls (K.set_api_cacher c f) ≡ calls f
  pub same_extenders :
      (c : K.ApiCacher) (f : U.Framework) → U.extenders (K.set_api_cacher c f) ≡ U.extenders f

module _ {U : Upstream} (K : Platform U) {new_map : NewMap K} (L : FrameworkLaws K new_map)
    (client : K.Client) (cacher : K.ApiCacher) (snapshot : K.SnapshotRef) where
  open U use {kinds, Env}

  -- The framework reads the snapshot, calls the client, and has the cacher, and it has no extenders.
  pub record Wired (f : U.Framework) : Type 0 where
    pub snapshot_read : L.reads f ≡ snapshot
    pub client_called : L.calls f ≡ client
    pub cacher_set : L.caches_with f ≡ cacher
    pub no_extenders : U.extenders f ≡ []

  abbrev Fresh : U.Framework → Type 0
  Fresh f = (L.reads f ≡ snapshot) × (L.calls f ≡ client) × (U.extenders f ≡ [])

  cached_in-Wired :
      (m : ProfileMap U) → AllFrameworks U Fresh m → AllFrameworks U Wired (cached_in K cacher m)
  cached_in-Wired [] h = tt
  cached_in-Wired ((n, f) ∷ m) h = (
    record {
      snapshot_read = L.same_snapshot cacher f ∙ h.0.0;
      client_called = L.same_client cacher f ∙ h.0.1;
      cacher_set = L.sets_cacher cacher f;
      no_extenders = L.same_extenders cacher f ∙ h.0.2;
    },
    cached_in-Wired m h.1,
  )

  abbrev pub OnMap : Result kinds (ProfileMap U) × Env → Type 0
  OnMap (err e, env) = Unit
  OnMap (ok m, env) = AllFrameworks U Wired m

  finish_map-Wired :
      (c : Result kinds (ProfileMap U) × Env)
      → ((m : ProfileMap U) → c ≡ (ok m, c.1) → AllFrameworks U Fresh m)
      → OnMap (finish_map K cacher c)
  finish_map-Wired (err e, env) h = tt
  finish_map-Wired (ok m, env) h = cached_in-Wired m (h m refl)

  module _ (informers : K.InformerFactory) (recorders : K.RecorderFactory)
      (nominator : K.PodNominator) (activator : K.PodActivator) where
    build_map-Wired :
        (o : FrameworkOptions K) (ps : List (KubeProfile K.Args K.ProfileRest)) (env : Env)
        → OnMap (
            build_map K new_map client informers recorders nominator activator cacher snapshot
              (record o { extenders = [] })
              ps
              env)
    unfolding build_map build_extenders
    build_map-Wired o ps env =
        let merged = K.merge K.in_tree_registry o.out_of_tree_registry in
        elim (Option-cases merged.0) [
          | inr (e, q) ↦ rw (q, build_map) tt
          | inl q ↦
              let dra = dra_manager_of K client informers env in
              elim (Result-cases dra.0) [
                | inr (e, q1) ↦ rw (q, build_map, q1) tt
                | inl (d, q1) ↦
                    rw (q, build_map, q1)
                      (finish_map-Wired (new_map (built_from ps) merged.1 recorders (opts d) dra.1)
                        (λ m e.
                          L.keeps_options (built_from ps) merged.1 recorders (opts d) dra.1 _ m e))
              ]
        ]
      where
        built_from :
            List (KubeProfile K.Args K.ProfileRest) → List (KubeProfile K.Args K.ProfileRest)
        built_from xs =
            configured K xs (map (λ (p : KubeProfile K.Args K.ProfileRest). p.plugin_config) xs)

        opts : Option K.DraManager → RuntimeOptions K
        opts d =
            runtime_options K new_map client informers recorders nominator activator cacher snapshot
              (record o { extenders = [] }) [] d

module _ {U : Upstream} (K : Platform U) {new_map : NewMap K} (L : FrameworkLaws K new_map)
    (client : K.Client) (noops : NoOps K) (snapshot : K.SnapshotRef) where
  pub noop_profile_map-OnMap :
      (informers : Option K.InformerFactory) (cfg : Option (Configuration K)) (env : U.Env)
      → OnMap K L client noops.cacher snapshot
          (noop_profile_map K new_map noops client informers snapshot cfg env)
  unfolding noop_profile_map new_profile_map
  noop_profile_map-OnMap informers none env = elim (Result-cases K.default_profiles) [
    | inr (e, q) ↦ rw (q, new_profile_map) tt
    | inl (ps, q) ↦
        rw (q, new_profile_map)
          (build_map-Wired K L client noops.cacher snapshot (informers_or_new K client informers)
            noops.recorders noops.nominator noops.activator
            (record (initial_options K) { profiles = ps }) ps (K.init_metrics_once env))
  ]
  noop_profile_map-OnMap informers (some cfg) env =
      build_map-Wired K L client noops.cacher snapshot (informers_or_new K client informers)
        noops.recorders noops.nominator noops.activator
        (with_profiles K cfg.profiles (initial_options K)) cfg.profiles (K.init_metrics_once env)
