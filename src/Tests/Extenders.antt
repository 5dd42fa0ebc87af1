-- ===== src/Tests/Extenders.antt =====
-- Building the extenders of a configuration; an extender is known by whether it is ignorable.
use scheduler_library.Profiles.IgnoredResources.{
  AllIgnore, Declares, none_managed, marked, unmarked, DeclaresAll, none_configured, configured,
  build_extenders_ignores,
}
use scheduler_library.Base.{◌≡◌, ◌++◌, refl, Bool, true, false, List, [], ◌∷◌}
use scheduler_library.Upstream.{Result, ok}
use scheduler_library.Profiles.BuildExtenders.{
  ExtenderConfig, node_resources_fit, Profile, build_extenders, made_none, made_one, pick,
  build_extenders_order,
}
use scheduler_library.Tests.Cluster.{cluster, kinds}
use scheduler_library.Profiles.BuildExtenders.{build_loop, ignore_in_all, ignore_in}

abbrev config : Bool → ExtenderConfig Bool
config b = record {
  managed_resources = ("example.com/gpu", true) ∷ ("example.com/nic", false) ∷ [];
  rest = b;
}

abbrev make : ExtenderConfig Bool → Result kinds Bool
make c = ok c.rest

abbrev configs : List (ExtenderConfig Bool)
configs = config true ∷ config false ∷ []

abbrev profiles : List (Profile (Unit {0}))
profiles = (("NodeResourcesFit", node_resources_fit [] tt) ∷ []) ∷ []

built : build_extenders cluster Bool (Unit {0}) make "NodeResourcesFit" configs profiles ≡ (
  ok (false ∷ true ∷ []),
  (("NodeResourcesFit", node_resources_fit ("example.com/gpu" ∷ "example.com/gpu" ∷ []) tt) ∷ [])
      ∷ [],
)
unfolding build_extenders build_loop ignore_in_all ignore_in
built = refl

built_ok :
    (build_extenders cluster Bool (Unit {0}) make "NodeResourcesFit" configs profiles).0
    ≡ ok (false ∷ true ∷ [])
unfolding build_extenders build_loop ignore_in_all ignore_in
built_ok = refl

build_extenders_order_example :
    (false ∷ true ∷ [])
    ≡ pick cluster Bool (Unit {0}) make "NodeResourcesFit" false (true ∷ false ∷ [])
      ++ pick cluster Bool (Unit {0}) make "NodeResourcesFit" true (true ∷ false ∷ [])
build_extenders_order_example =
    build_extenders_order cluster Bool (Unit {0}) make "NodeResourcesFit" configs profiles
      (true ∷ false ∷ []) (false ∷ true ∷ [])
      (made_one (config true) true refl (made_one (config false) false refl made_none)) built_ok

gpu_only : (b : Bool) → Declares (config b).managed_resources ("example.com/gpu" ∷ [])
gpu_only b = marked "example.com/gpu" (unmarked "example.com/nic" none_managed)

gpus : DeclaresAll configs ("example.com/gpu" ∷ "example.com/gpu" ∷ [])
gpus =
    configured (config true) (gpu_only true)
      (configured (config false) (gpu_only false) none_configured)

build_extenders_ignores_example :
    AllIgnore cluster Bool
      (Unit {0})
      make
      "NodeResourcesFit"
      ("example.com/gpu" ∷ "example.com/gpu" ∷ [])
      profiles
      ((("NodeResourcesFit", node_resources_fit ("example.com/gpu" ∷ "example.com/gpu" ∷ []) tt)
          ∷ [])
        ∷ [])
build_extenders_ignores_example =
    build_extenders_ignores cluster Bool (Unit {0}) make "NodeResourcesFit" configs
      ("example.com/gpu" ∷ "example.com/gpu" ∷ []) profiles
      ((("NodeResourcesFit", node_resources_fit ("example.com/gpu" ∷ "example.com/gpu" ∷ []) tt)
          ∷ [])
        ∷ [])
      (false ∷ true ∷ []) gpus refl built
