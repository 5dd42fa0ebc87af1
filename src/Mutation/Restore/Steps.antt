-- ===== src/Mutation/Restore/Steps.antt =====
-- The balance is kept by every change of the client and by every turn of the loops of `RestoreState`.
use mathlib.Core.Path.{subst}
use scheduler_library.Base.{
  ℕ, ◌+◌, ◌≤◌, ◌≡◌, refl, sym, ap, ◌∙◌, inl, inr, String, true, none, List, [], ◌∷◌, lookup, erase,
  lookup-erase, is_some, str_eq, eq_iff, arith, Option-cases, if◌then◌else◌,
}
use scheduler_library.Upstream.{Upstream, PodInfo, ok}
use scheduler_library.Upstream.Laws.{View, Laws, Grows-count}
use scheduler_library.World.{World, Tracker}
use scheduler_library.Mutation.{remove_pod, add_pod, note_removed, note_added}
use scheduler_library.Mutation.Restore.{
  undo_added, undo_removed, Change, adds, removes, make_change, make_changes, AllAtHome,
}
use scheduler_library.Mutation.Restore.Calls.{
  Reached, Reached-cong, Shrunk, Grown, remove_pod-Shrunk, remove_pod-total, add_pod-Grown,
  add_pod-total,
}
use scheduler_library.Mutation.Restore.Tracked.{Home}
use scheduler_library.Mutation.Restore.Balance.{
  Tracked, Quiet-Tracked, shrink-Tracked, grow-Tracked, listed_if_added, missing_if_removed,
}

module _ {U : Upstream} (V : View U) (L : Laws V) (home : String → String) (base : U.Snap)
    (once : (k : String) → V.count base (home k) k ≤ 1) (m : ℕ) where
  open U use {kinds}

  abbrev pub Balanced : World U → Type 0
  Balanced = Tracked V home base m

  abbrev pub added_by : World U → List (String × PodInfo kinds)
  added_by w = (w.trackers m).added_pods

  abbrev pub removed_by : World U → List (String × PodInfo kinds)
  removed_by w = (w.trackers m).removed_pods

  at_home :
      (k : String) (pi : PodInfo kinds) {w : World U}
      → Balanced w
      → Reached U w.snap pi.pod k
      → pi.pod.spec.node_name ≡ home k
      → Home U home base k pi
  at_home k pi h l n = record { reached = Reached-cong U (λ i. sym (h.nodes i)) l; node_name = n }

  removes-Tracked :
      (pi : PodInfo kinds) (w : World U)
      → Balanced w
      → ((k : String) → U.get_pod_key pi.pod ≡ ok k → pi.pod.spec.node_name ≡ home k)
      → Balanced (remove_pod U m pi w).1
  removes-Tracked pi w h g = elim (remove_pod-total V L m pi w) [
    | inr q ↦ Quiet-Tracked V home base m h q
    | inl (k, l, s) ↦
        shrink-Tracked V home base m pi k h s (at_home k pi h l (g k l.has_key))
          (elim (Option-cases (lookup k (removed_by w))) [
            | inl e ↦ inr e
            | inr (q, e) ↦
                let lost = missing_if_removed V home base m k q h e in
                let there : V.count w.snap (home k) k
                    ≡ V.count (remove_pod U m pi w).1.snap (home k) k + 1 =
                  subst (λ n. V.count w.snap n k ≡ V.count (remove_pod U m pi w).1.snap n k + 1)
                    (g k l.has_key) (Grows-count V s.snap) in
                absurd (omega (arith, lost, there, once k))
          ])
  ]

  adds-Tracked :
      (pi : PodInfo kinds) (w : World U)
      → Balanced w
      → ((k : String)
          → U.get_pod_key pi.pod ≡ ok k
          → (pi.pod.spec.node_name ≡ home k) × (V.count w.snap (home k) k ≡ 0))
      → Balanced (add_pod U m pi w).1
  adds-Tracked pi w h g = elim (add_pod-total V L m pi w) [
    | inr q ↦ Quiet-Tracked V home base m h q
    | inl (k, l, s) ↦
        grow-Tracked V home base m pi k h s (at_home k pi h l (g k l.has_key).0)
          (elim (Option-cases (lookup k (added_by w))) [
            | inl e ↦ inr e
            | inr (q, e) ↦
                let there = listed_if_added V home base m k q h e in
                absurd (omega (arith, there, (g k l.has_key).1))
          ])
  ]

  pub changes-Tracked :
      (cs : List (Change U)) (w : World U)
      → Balanced w
      → AllAtHome U V home m cs w
      → Balanced (make_changes U m cs w)
  unfolding make_changes make_change
  changes-Tracked [] w h g = h
  changes-Tracked (adds pi ∷ cs) w h g = changes-Tracked cs _ (adds-Tracked pi w h g.0) g.1
  changes-Tracked (removes pi ∷ cs) w h g = changes-Tracked cs _ (removes-Tracked pi w h g.0) g.1

  -- One turn of the first loop.
  pub undo_added-Tracked :
      (k : String) (w : World U)
      → Balanced w
      → Balanced (undo_added U m k w)
        × (((j : String)
              → lookup j (added_by (undo_added U m k w))
                ≡ (if str_eq k j then none else lookup j (added_by w)))
            × (removed_by (undo_added U m k w) ≡ removed_by w))
  unfolding undo_added
  undo_added-Tracked k w h = elim (Option-cases (lookup k (added_by w))) [
    | inl e ↦ rw (e, undo_added) (h, ((λ j. ground (arith, eq_iff k j)), refl))
    | inr (pi, e) ↦
        let has : is_some (lookup k (added_by w)) ≡ true = rw e refl in
        let at : Home U home base k pi = h.sound.added k pi e in
        let there : V.count w.snap pi.pod.spec.node_name k ≡ V.count base (home k) k + 1 =
          subst (λ n. V.count w.snap n k ≡ V.count base (home k) k + 1) (sym at.node_name)
            (listed_if_added V home base m k pi h e) in
        let s : Shrunk V m pi k w (remove_pod U m pi w).1 =
          remove_pod-Shrunk V L m pi w (Reached-cong U h.nodes at.reached) (omega (arith, there)) in
        let noted : note_removed U (w.trackers m) k pi
            ≡ record (w.trackers m) { added_pods = erase k (added_by w) } =
          rw has refl in
        rw (e, undo_added)
          (
            shrink-Tracked V home base m pi k h s at (inl has),
            (
              (λ j.
                  ap (λ (t : Tracker U). lookup j t.added_pods) (s.tracker ∙ noted)
                  ∙ lookup-erase j k (added_by w)),
              ap (λ (t : Tracker U). t.removed_pods) (s.tracker ∙ noted),
            ),
          )
  ]

  pub undo_removed-Tracked :
      (k : String) (w : World U)
      → Balanced w
      → Balanced (undo_removed U m k w)
        × (((j : String)
              → lookup j (removed_by (undo_removed U m k w))
                ≡ (if str_eq k j then none else lookup j (removed_by w)))
            × (added_by (undo_removed U m k w) ≡ added_by w))
  unfolding undo_removed
  undo_removed-Tracked k w h = elim (Option-cases (lookup k (removed_by w))) [
    | inl e ↦ rw (e, undo_removed) (h, ((λ j. ground (arith, eq_iff k j)), refl))
    | inr (pi, e) ↦
        let has : is_some (lookup k (removed_by w)) ≡ true = rw e refl in
        let at : Home U home base k pi = h.sound.removed k pi e in
        let s : Grown V m pi k w (add_pod U m pi w).1 =
          add_pod-Grown V L m pi w (Reached-cong U h.nodes at.reached) in
        let noted : note_added U (w.trackers m) k pi
            ≡ record (w.trackers m) { removed_pods = erase k (removed_by w) } =
          rw has refl in
        rw (e, undo_removed)
          (
            grow-Tracked V home base m pi k h s at (inl has),
            (
              (λ j.
                  ap (λ (t : Tracker U). lookup j t.removed_pods) (s.tracker ∙ noted)
                  ∙ lookup-erase j k (removed_by w)),
              ap (λ (t : Tracker U). t.added_pods) (s.tracker ∙ noted),
            ),
          )
  ]
