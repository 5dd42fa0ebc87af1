-- ===== src/Simulator/Synced.antt =====
-- A cluster state that the simulator makes, its snapshot used by a client, and `SyncSnapshot`.
use scheduler_library.Base.{ℕ, ◌≡◌, Bool, Option, none}
use scheduler_library.Upstream.{Upstream, Error}
use scheduler_library.Upstream.Laws.{View, Laws}
use scheduler_library.World.{World}
use scheduler_library.Profiles.{ProfileMap}
use scheduler_library.Profiles.Platform.{Platform}
use scheduler_library.Profiles.NewProfileMap.{NewMap}
use scheduler_library.Framework.{NoOps}
use scheduler_library.Session.{Session}
use scheduler_library.ClusterState.{ClusterState, new_state}
use scheduler_library.ClusterState.Synced.{CacheLaws, Synced}

module _ {U : Upstream} (K : Platform U) (new_map : NewMap K) (noops : NoOps K)
    (update_snapshot : K.SchedulerCache
      → U.Snap
      → Option (Error U.kinds) × U.Snap × K.SchedulerCache) where
  open U use {kinds, Env}

  abbrev State : Type 0
  State = ClusterState U K.SchedulerCache update_snapshot

  -- The state is a new one, on the snapshot `sn`.
  record Made (w : World U) (c : K.SchedulerCache) (sn : U.Snap) (st : State) : Type 0 where
    pub profiles : ProfileMap U
    pub env : Env
    pub same :
        st
        ≡ new_state U K.SchedulerCache update_snapshot c profiles
            (record w { snap = sn; env = env })

module _ {U : Upstream} {K : Platform U} (new_map : NewMap K) (noops : NoOps K)
    {update_snapshot : K.SchedulerCache
      → U.Snap
      → Option (Error U.kinds) × U.Snap × K.SchedulerCache}
    {Change : Type 0} {change : Change → K.SchedulerCache → K.SchedulerCache} {V : View U}
    (C : CacheLaws V K.SchedulerCache update_snapshot Change change) (P : ℕ → Bool) where
  abbrev first_cache : K.SchedulerCache
  first_cache = K.new_cache none K.generic_workload K.composite_pod_group
