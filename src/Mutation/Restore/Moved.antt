-- ===== src/Mutation/Restore/Moved.antt =====
-- A client that moves a pod to another node through a MutatingSnapshot, and `RestoreState` after it.
use scheduler_library.Base.{
  ℕ, ◌+◌, ◌<◌, ◌≡◌, refl, sym, ap, ◌∙◌, String, true, false, List, [], ◌∷◌, str_eq, eq_iff, arith,
}
use scheduler_library.Upstream.{Upstream, PodInfo}
use scheduler_library.Upstream.Laws.{View, Laws, one}
use scheduler_library.World.{World}
use scheduler_library.Mutation.{remove_pod, add_pod, note_removed, note_added, empty_tracker}
use scheduler_library.Mutation.Restore.{
  undo_added, undo_removed, restore_added, restore_removed, restore_mutations, adds, removes,
  make_change, make_changes,
}
use scheduler_library.Mutation.Restore.Calls.{
  Reached, Reached-cong, Shrunk, Grown, remove_pod-Shrunk, add_pod-Grown,
}

module _ (U : Upstream) where
  open U use {kinds}

  -- The maps are keyed by the pod's key alone.
  cancelled :
      (k : String) (pi q : PodInfo kinds)
      → note_added U (note_removed U (empty_tracker U) k pi) k q ≡ empty_tracker U
  cancelled k pi q = let same : str_eq k k ≡ true = ground (arith, eq_iff k k) in rw same refl

  -- With nothing in the maps, the loops of `RestoreState` do nothing.
  nothing_added :
      (m : ℕ) (ks : List String) (w : World U)
      → w.trackers m ≡ empty_tracker U
      → restore_added U m ks w ≡ w
  unfolding restore_added undo_added
  nothing_added m [] w h = refl
  nothing_added m (k ∷ ks) w h =
      let same : undo_added U m k w ≡ w = rw (h, undo_added) refl in
      rw same (nothing_added m ks w h)

  nothing_removed :
      (m : ℕ) (ks : List String) (w : World U)
      → w.trackers m ≡ empty_tracker U
      → restore_removed U m ks w ≡ w
  unfolding restore_removed undo_removed
  nothing_removed m [] w h = refl
  nothing_removed m (k ∷ ks) w h =
      let same : undo_removed U m k w ≡ w = rw (h, undo_removed) refl in
      rw same (nothing_removed m ks w h)

  nothing_restored :
      (m : ℕ) (added removed : List String) (w : World U)
      → w.trackers m ≡ empty_tracker U
      → (restore_mutations U m added removed w).snap ≡ w.snap
  unfolding restore_mutations
  nothing_restored m added removed w h =
      let first = nothing_added m added w h in
      let second = nothing_removed m removed w h in rw (first, second) refl

module _ {U : Upstream} (V : View U) (L : Laws V) where
  open U use {kinds}

  -- Let a client of a new MutatingSnapshot remove a pod that is on its node, and add a pod of the same
  -- key on a different node, both nodes known. The two entries cancel in the maps, which are keyed by
  -- the pod's key alone. So `RestoreState`, in any order, restores nothing: the first node still lists
  -- one pod fewer than in the beginning, and the second node one more.
  pub moved_pod_stays :
      (m : ℕ) (k : String) (pi q : PodInfo kinds) (w : World U) (added removed : List String)
      → w.trackers m ≡ empty_tracker U
      → Reached U w.snap pi.pod k
      → Reached U w.snap q.pod k
      → 0 < V.count w.snap pi.pod.spec.node_name k
      → str_eq pi.pod.spec.node_name q.pod.spec.node_name ≡ false
      → let s =
          (restore_mutations U m added removed
            (make_changes U m (removes pi ∷ adds q ∷ []) w)).snap in
        (V.count s pi.pod.spec.node_name k + 1 ≡ V.count w.snap pi.pod.spec.node_name k)
        × (V.count s q.pod.spec.node_name k ≡ V.count w.snap q.pod.spec.node_name k + 1)
  unfolding make_changes make_change one
  moved_pod_stays m k pi q w added removed fresh l1 l2 there apart =
      let w1 = (remove_pod U m pi w).1 in
      let s1 : Shrunk V m pi k w w1 = remove_pod-Shrunk V L m pi w l1 there in
      let s2 : Grown V m q k w1 (add_pod U m q w1).1 =
        add_pod-Grown V L m q w1 (Reached-cong U (λ n. sym (s1.snap.nodes n)) l2) in
      let empty : (add_pod U m q w1).1.trackers m ≡ empty_tracker U =
        s2.tracker
        ∙ ap (λ t. note_added U t k q) (s1.tracker ∙ ap (λ t. note_removed U t k pi) fresh)
        ∙ cancelled U k pi q in
      let same = nothing_restored U m added removed (add_pod U m q w1).1 empty in
      let a = pi.pod.spec.node_name in
      let b = q.pod.spec.node_name in
      rw same (
        ground (
          arith,
          s1.snap.counts a k,
          s2.snap.counts a k,
          eq_iff a b,
          eq_iff b a,
          eq_iff a a,
          eq_iff k k,
        ),
        ground (
          arith,
          s1.snap.counts b k,
          s2.snap.counts b k,
          eq_iff a b,
          eq_iff b a,
          eq_iff b b,
          eq_iff k k,
        ),
      )
