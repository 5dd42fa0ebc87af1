-- ===== src/ClusterState.antt =====
-- `ClusterState` of pkg/state/state.go. The scheduler cache is a parameter: its state, and its method
-- `UpdateSnapshot`, which brings a scheduler snapshot up to date.
pub mod Synced
use scheduler_library.Base.{Option, none, some}
use scheduler_library.Upstream.{Upstream, Error, wrap}
use scheduler_library.World.{World}
use scheduler_library.Profiles.{ProfileMap}
use scheduler_library.Snapshot.Types.{ClusterSnapshot, new}
use scheduler_library.Snapshot.Transaction.{reset_mutations, Returned}
use scheduler_library.Snapshot.Schedule.{set_snap}

module _ (U : Upstream) (Cache : Type 0)
    (update_snapshot : Cache → U.Snap → Option (Error U.kinds) × U.Snap × Cache) where
  open U use {kinds}

  -- `snapshotData` is the scheduler snapshot inside `snapshot`.
  pub record ClusterState : Type 0 where
    pub cache : Cache
    pub snapshot : ClusterSnapshot U

  abbrev pub new_state : Cache → ProfileMap U → World U → ClusterState
  new_state c profiles w = record { cache = c; snapshot = new U w profiles }

  -- What is left once `ResetMutations` has returned.
  abbrev pub update_error : Option (Error kinds) → Option (Error kinds)
  update_error none = none
  update_error (some e) = some (wrap "failed to update snapshot" e)

  abbrev pub updated : Cache → Returned U → Option (Error kinds) × ClusterState
  updated c (some e, s) =
      (some (wrap "failed to reset mutations" e), record { cache = c; snapshot = s })
  updated c (none, s) =
      let (e, sn, c') = update_snapshot c s.world.snap in
      (update_error e, record { cache = c'; snapshot = set_snap U sn s })

  abbrev pub after_reset :
      Cache → Option (Returned U) → Option (Option (Error kinds) × ClusterState)
  after_reset c none = none
  after_reset c (some r) = some (updated c r)

  unfoldable pub sync_snapshot : ClusterState → Option (Option (Error kinds) × ClusterState)
  sync_snapshot cs = after_reset cs.cache (reset_mutations U cs.snapshot)
