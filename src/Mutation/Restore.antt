-- ===== src/Mutation/Restore.antt =====
-- `RestoreState` of pkg/upstreamsync/mutable_snapshot.go, and a client that calls `AddPod` and
-- `RemovePod`. The order in which `range` gives the keys of a map is a parameter; an entry that was
-- deleted before its turn is not produced, and neither loop inserts into the map that it ranges over.
pub mod Debts
pub mod Calls
pub mod Tracked
pub mod Balance
pub mod Steps
pub mod Undone
pub mod Moved
use scheduler_library.Base.{ℕ, ◌≡◌, String, Option, none, some, List, [], ◌∷◌, lookup}
use scheduler_library.Upstream.{Upstream, PodInfo, ok}
use scheduler_library.World.{World}
use scheduler_library.Upstream.Laws.{View}
use scheduler_library.Mutation.{remove_pod, add_pod, empty_tracker, set_tracker}

module _ (U : Upstream) where
  open U use {kinds}

  -- `restoreFn()` of `addedPods`, if the entry is still there, and of `removedPods`.
  unfoldable pub undo_added : ℕ → String → World U → World U
  undo_added m k w = elim (lookup k (w.trackers m).added_pods) [
    | none ↦ w
    | some pi ↦ (remove_pod U m pi w).1
  ]

  unfoldable pub undo_removed : ℕ → String → World U → World U
  undo_removed m k w = elim (lookup k (w.trackers m).removed_pods) [
    | none ↦ w
    | some pi ↦ (add_pod U m pi w).1
  ]

  unfoldable pub restore_added : ℕ → List String → World U → World U
  restore_added m [] w = w
  restore_added m (k ∷ ks) w = restore_added m ks (undo_added m k w)

  unfoldable pub restore_removed : ℕ → List String → World U → World U
  restore_removed m [] w = w
  restore_removed m (k ∷ ks) w = restore_removed m ks (undo_removed m k w)

  -- `RestoreState`, with the orders of its two loops.
  unfoldable pub restore_mutations : ℕ → List String → List String → World U → World U
  restore_mutations m added removed w =
      set_tracker U (restore_removed m removed (restore_added m added w)) m (empty_tracker U)

  pub data Change : Type 0 where
    adds : PodInfo kinds → Change
    removes : PodInfo kinds → Change

  -- The client goes on after an error.
  unfoldable pub make_change : ℕ → Change → World U → World U
  make_change m (adds pi) w = (add_pod U m pi w).1
  make_change m (removes pi) w = (remove_pod U m pi w).1

  unfoldable pub make_changes : ℕ → List Change → World U → World U
  make_changes m [] w = w
  make_changes m (c ∷ cs) w = make_changes m cs (make_change m c w)

  -- Every pod is named with the node `home` of its key, and none is added that is there already.
  abbrev pub AtHome : View U → (String → String) → Change → World U → Type 0
  AtHome V home (adds pi) w =
      (k : String)
      → U.get_pod_key pi.pod ≡ ok k
      → (pi.pod.spec.node_name ≡ home k) × (V.count w.snap (home k) k ≡ 0)
  AtHome V home (removes pi) w =
      (k : String) → U.get_pod_key pi.pod ≡ ok k → pi.pod.spec.node_name ≡ home k

  abbrev pub AllAtHome : View U → (String → String) → ℕ → List Change → World U → Type 0
  AllAtHome V home m [] w = Unit
  AllAtHome V home m (c ∷ cs) w = AtHome V home c w × AllAtHome V home m cs (make_change m c w)
