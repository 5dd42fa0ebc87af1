-- ===== src/Simulator/Constructed.antt =====
-- The cluster snapshots that the simulator makes.
use scheduler_library.Base.{ℕ, ◌≡◌, refl, inl, inr, false, some, List, map, Option-cases}
use scheduler_library.Upstream.{Upstream, Result, ok, err}
use scheduler_library.World.{World}
use scheduler_library.UndoLog.{empty_log}
use scheduler_library.Profiles.{ProfileMap}
use scheduler_library.Profiles.Platform.{Platform}
use scheduler_library.Profiles.NewProfileMap.{NewMap}
use scheduler_library.Framework.{NoOps, noop_profile_map}
use scheduler_library.Framework.Wired.{
  AllFrameworks, FrameworkLaws, Wired, OnMap, noop_profile_map-OnMap,
}
use scheduler_library.Simulator.{
  SchedulingSimulator, Created, started, after_map, build_profile_map, create_on,
  new_cluster_snapshot,
}

module _ {U : Upstream} (K : Platform U) {new_map : NewMap K} (L : FrameworkLaws K new_map)
    (noops : NoOps K) where
  open U use {kinds, Env}

  -- A snapshot that is new, on the scheduler snapshot that `NewSnapshot` made, which its frameworks read.
  pub record Ready (s : SchedulingSimulator K new_map noops) (w : World U) (pods : List ℕ)
      (nodes : List K.NodeObject) (x : Created K new_map noops) : Type 0 where
    pub same_reference : x.reference ≡ (K.new_snapshot (map w.pods pods) nodes w.env).0
    pub same_snapshot : x.snapshot.world.snap ≡ (K.new_snapshot (map w.pods pods) nodes w.env).1
    pub same_pods : x.snapshot.world.pods ≡ w.pods
    pub nothing_to_undo : x.snapshot.undo_log ≡ empty_log
    pub no_transaction : x.snapshot.transaction_in_progress ≡ false
    pub frameworks :
        AllFrameworks U (Wired K L s.client noops.cacher x.reference) x.snapshot.profiles

  after_map-OnMap :
      (client : K.Client) (r : K.SnapshotRef) (f : K.InformerFactory)
      (c : Result kinds (ProfileMap U) × Env)
      → OnMap K L client noops.cacher r c
      → OnMap K L client noops.cacher r (after_map K new_map noops f c)
  after_map-OnMap client r f (err e, env) h = tt
  after_map-OnMap client r f (ok m, env) h = elim (Option-cases (started K new_map noops f env).0) [
    | inl q ↦ rw (q, OnMap) h
    | inr (x, q) ↦ rw (q, OnMap) tt
  ]

  abbrev OnCreated :
      SchedulingSimulator K new_map noops
      → World U
      → List ℕ
      → List K.NodeObject
      → Result kinds (Created K new_map noops) × World U
      → Type 0
  OnCreated s w pods nodes (err e, w') = Unit
  OnCreated s w pods nodes (ok x, w') = Ready s w pods nodes x

  create_on-Ready :
      (s : SchedulingSimulator K new_map noops) (w : World U) (pods : List ℕ)
      (nodes : List K.NodeObject) (c : Result kinds (ProfileMap U) × Env)
      → OnMap K L s.client noops.cacher (K.new_snapshot (map w.pods pods) nodes w.env).0 c
      → OnCreated s w pods nodes (
          create_on K new_map noops w
            (K.new_snapshot (map w.pods pods) nodes w.env).0
            (K.new_snapshot (map w.pods pods) nodes w.env).1
            c)
  create_on-Ready s w pods nodes (err e, env) h = tt
  create_on-Ready s w pods nodes (ok m, env) h = record {
    same_reference = refl;
    same_snapshot = refl;
    same_pods = refl;
    nothing_to_undo = refl;
    no_transaction = refl;
    frameworks = h;
  }

  new_cluster_snapshot-OnCreated :
      (s : SchedulingSimulator K new_map noops) (pods : List ℕ) (nodes : List K.NodeObject)
      (w : World U)
      → OnCreated s w pods nodes (new_cluster_snapshot K new_map noops s pods nodes w)
  unfolding new_cluster_snapshot build_profile_map
  new_cluster_snapshot-OnCreated s pods nodes w =
      let (r, sn, env) = K.new_snapshot (map w.pods pods) nodes w.env in
      create_on-Ready s w pods nodes (build_profile_map K new_map noops s r env) (
        after_map-OnMap s.client r s.informer_factory
          (noop_profile_map K new_map noops s.client (some s.informer_factory) r s.cfg env)
          (noop_profile_map-OnMap K L s.client noops r (some s.informer_factory) s.cfg env))

module _ {U : Upstream} (K : Platform U) {new_map : NewMap K} (L : FrameworkLaws K new_map)
    (noops : NoOps K) where
  -- Let frameworks keep what they are built with, and let `SetAPICacher` set the cacher only. Then a
  -- cluster snapshot that `NewClusterSnapshot` returns stands on the scheduler snapshot that
  -- `cache.NewSnapshot` makes of the pods and nodes, has an empty undo log and no transaction in
  -- progress, and leaves the pods as they are. Every framework of its profiles reads from this very
  -- scheduler snapshot, calls the simulator's client, and has the no-op API cacher and no extenders.
  pub new_cluster_snapshot-Ready :
      (s : SchedulingSimulator K new_map noops) (pods : List ℕ) (nodes : List K.NodeObject)
      (w w' : World U) (x : Created K new_map noops)
      → new_cluster_snapshot K new_map noops s pods nodes w ≡ (ok x, w')
      → Ready K L noops s w pods nodes x
  new_cluster_snapshot-Ready s pods nodes w w' x ran =
      rw ran at (new_cluster_snapshot-OnCreated K L noops s pods nodes w)
