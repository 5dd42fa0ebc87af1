-- ===== src/Framework/Defaults.antt =====
-- What of a configuration the frameworks are built from.
use scheduler_library.Base.{◌≡◌, refl, Option, none, some}
use scheduler_library.Upstream.{Upstream, ok}
use scheduler_library.Profiles.Platform.{Platform}
use scheduler_library.Profiles.NewProfileMap.{NewMap, new_profile_map, build_map}
use scheduler_library.Framework.{Configuration, NoOps, noop_profile_map}

module _ {U : Upstream} (K : Platform U) where
  -- If the default profiles can be made, then no configuration stands for every configuration with
  -- these profiles: the frameworks, or the error, are the same, whatever extenders and whatever
  -- parallelism the configuration names.
  pub noop_profile_map_defaults :
      (new_map : NewMap K) (noops : NoOps K) (client : K.Client)
      (informers : Option K.InformerFactory) (snap : K.SnapshotRef) (cfg : Configuration K)
      (env : U.Env)
      → K.default_profiles ≡ ok cfg.profiles
      → noop_profile_map K new_map noops client informers snap none env
        ≡ noop_profile_map K new_map noops client informers snap (some cfg) env
  unfolding noop_profile_map new_profile_map build_map
  noop_profile_map_defaults new_map noops client informers snap cfg env h =
      rw (h, new_profile_map) refl
