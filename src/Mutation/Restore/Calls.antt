-- ===== src/Mutation/Restore/Calls.antt =====
-- What `AddPod` and `RemovePod` of a MutatingSnapshot do to its maps and to the scheduler snapshot.
use mathlib.Core.Path.{subst}
use scheduler_library.Base.{
  ℕ, ◌<◌, ◌≡◌, refl, sym, ap, ◌∙◌, ◌⊎◌, inl, inr, String, true, none, some, ◌==◌, arith, Bool-cases,
  Option-cases,
}
use scheduler_library.Upstream.{Upstream, Pod, PodInfo, Error, message, ok}
use scheduler_library.Upstream.Laws.{View, Same, Grows, Laws, Same-refl, Same-trans, Grows-cong}
use scheduler_library.World.{World, Tracker}
use scheduler_library.Mutation.{
  remove_pod, add_pod, remove_from, add_to, note_removed, note_added, set_tracker,
}
use scheduler_library.Upstream.Results.{Result-cases}

pub tracker_at :
    (U : Upstream) (w : World U) (m : ℕ) (t : Tracker U) → (set_tracker U w m t).trackers m ≡ t
tracker_at U w m t = let same : (m == m) ≡ true = ground arith in rw same refl

module _ (U : Upstream) where
  open U use {kinds, Snap, Node}

  -- The pod has a key, and its node is in the snapshot.
  pub record Reached (s : Snap) (p : Pod kinds) (k : String) : Type 0 where
    pub node : Node
    pub has_key : U.get_pod_key p ≡ ok k
    pub found : U.get s p.spec.node_name ≡ ok node
    pub known : U.is_framework_node node ≡ true

  pub Reached-cong :
      {s t : Snap} {p : Pod kinds} {k : String}
      → ((n : String) → U.get s n ≡ U.get t n)
      → Reached s p k
      → Reached t p k
  Reached-cong {p} h l = record {
    node = l.node;
    has_key = l.has_key;
    found = sym (h p.spec.node_name) ∙ l.found;
    known = l.known;
  }

  reach :
      (s : Snap) (p : Pod kinds)
      → ((k : String) × Reached s p k)
        ⊎ ((e : Error kinds) × (((m : ℕ) (pi : PodInfo kinds) (w : World U)
                → pi.pod ≡ p
                → w.snap ≡ s
                → remove_pod U m pi w ≡ (some e, w))
              × ((m : ℕ) (pi : PodInfo kinds) (w : World U)
                  → pi.pod ≡ p
                  → w.snap ≡ s
                  → add_pod U m pi w ≡ (some e, w))))
  unfolding remove_pod add_pod
  reach s p = elim (Result-cases (U.get_pod_key p)) [
    | inr (e, q) ↦ inr (e, ((λ m pi w a b. ground arith), (λ m pi w a b. ground arith)))
    | inl (k, q) ↦ elim (Result-cases (U.get s p.spec.node_name)) [
      | inr (e, q1) ↦ inr (e, ((λ m pi w a b. ground arith), (λ m pi w a b. ground arith)))
      | inl (ni, q1) ↦ elim (Bool-cases (U.is_framework_node ni)) [
        | inl q2 ↦ inl (k, record { node = ni; has_key = q; found = q1; known = q2 })
        | inr q2 ↦ inr (
          message "unknown node info type",
          ((λ m pi w a b. ground arith), (λ m pi w a b. ground arith)),
        )
      ]
    ]
  ]

  remove_at :
      (m : ℕ) (pi : PodInfo kinds) (w : World U) {k : String} (l : Reached w.snap pi.pod k)
      → remove_pod U m pi w ≡ remove_from U m pi k l.node w
  unfolding remove_pod
  remove_at m pi w l = ground (arith, l.has_key, l.found, l.known)

  add_at :
      (m : ℕ) (pi : PodInfo kinds) (w : World U) {k : String} (l : Reached w.snap pi.pod k)
      → add_pod U m pi w ≡ add_to U m pi k l.node w
  unfolding add_pod
  add_at m pi w l = ground (arith, l.has_key, l.found, l.known)

  remove_from_tracker :
      (m : ℕ) (pi : PodInfo kinds) (k : String) (ni : Node) (w : World U)
      → (U.node_remove_pod w.snap ni pi.pod).0 ≡ none
      → (remove_from U m pi k ni w).1.trackers m ≡ note_removed U (w.trackers m) k pi
  unfolding remove_from
  remove_from_tracker m pi k ni w h = rw (h, remove_from) (tracker_at U w m _)

  remove_from_kept :
      (m : ℕ) (pi : PodInfo kinds) (k : String) (ni : Node) (w : World U) (e : Error kinds)
      → (U.node_remove_pod w.snap ni pi.pod).0 ≡ some e
      → (remove_from U m pi k ni w).1.trackers m ≡ w.trackers m
  unfolding remove_from
  remove_from_kept m pi k ni w e h = rw (h, remove_from) refl

  remove_from_snap :
      (m : ℕ) (pi : PodInfo kinds) (k : String) (ni : Node) (w : World U)
      → (remove_from U m pi k ni w).1.snap
        ≡ U.set_generation (U.node_remove_pod w.snap ni pi.pod).1 ni (U.generation w.snap ni)
  unfolding remove_from
  remove_from_snap m pi k ni w = ground arith

  add_to_tracker :
      (m : ℕ) (pi : PodInfo kinds) (k : String) (ni : Node) (w : World U)
      → (add_to U m pi k ni w).1.trackers m ≡ note_added U (w.trackers m) k pi
  unfolding add_to
  add_to_tracker m pi k ni w = tracker_at U w m _

  add_to_snap :
      (m : ℕ) (pi : PodInfo kinds) (k : String) (ni : Node) (w : World U)
      → (add_to U m pi k ni w).1.snap
        ≡ U.set_generation (U.node_add_pod_info w.snap ni pi) ni (U.generation w.snap ni)
  unfolding add_to
  add_to_snap m pi k ni w = refl

module _ {U : Upstream} (V : View U) where
  open U use {kinds}

  -- A call that failed.
  pub record Quiet (m : ℕ) (w w' : World U) : Type 0 where
    pub tracker : w'.trackers m ≡ w.trackers m
    pub snap : Same V w.snap w'.snap

  pub record Shrunk (m : ℕ) (pi : PodInfo kinds) (k : String) (w w' : World U) : Type 0 where
    pub tracker : w'.trackers m ≡ note_removed U (w.trackers m) k pi
    pub snap : Grows V 0 pi.pod.spec.node_name k w'.snap w.snap

  pub record Grown (m : ℕ) (pi : PodInfo kinds) (k : String) (w w' : World U) : Type 0 where
    pub tracker : w'.trackers m ≡ note_added U (w.trackers m) k pi
    pub snap : Grows V 0 pi.pod.spec.node_name k w.snap w'.snap

  pub Quiet-refl : (m : ℕ) (w : World U) → Quiet m w w
  Quiet-refl m w = record { tracker = refl; snap = Same-refl V w.snap }

module _ {U : Upstream} (V : View U) (L : Laws V) where
  open U use {kinds}

  removed-Shrunk :
      (m : ℕ) (pi : PodInfo kinds) (w : World U) {k : String} (l : Reached U w.snap pi.pod k)
      → (U.node_remove_pod w.snap l.node pi.pod).0 ≡ none
      → Shrunk V m pi k w (remove_pod U m pi w).1
  removed-Shrunk m pi w {k} l h =
      let call = U.node_remove_pod w.snap l.node pi.pod in
      let back = L.set_generation_same call.1 l.node (U.generation w.snap l.node) in
      rw (remove_at U m pi w l) (record {
        tracker = remove_from_tracker U m pi k l.node w h;
        snap =
            subst (λ s. Grows V 0 pi.pod.spec.node_name k s w.snap)
              (sym (remove_from_snap U m pi k l.node w))
              (Grows-cong V back (Same-refl V w.snap) (
                L.remove_shrinks w.snap call.1 pi.pod.spec.node_name k l.node pi.pod l.found
                  l.has_key (ap (λ e. (e, call.1)) h)));
      })

  -- A pod that is on its node is taken away.
  pub remove_pod-Shrunk :
      (m : ℕ) (pi : PodInfo kinds) (w : World U) {k : String}
      → Reached U w.snap pi.pod k
      → 0 < V.count w.snap pi.pod.spec.node_name k
      → Shrunk V m pi k w (remove_pod U m pi w).1
  remove_pod-Shrunk m pi w {k} l c =
      removed-Shrunk m pi w l
        (L.remove_found w.snap pi.pod.spec.node_name k l.node pi.pod l.found l.has_key c)

  pub remove_pod-total :
      (m : ℕ) (pi : PodInfo kinds) (w : World U)
      → ((k : String) × Reached U w.snap pi.pod k × Shrunk V m pi k w (remove_pod U m pi w).1)
        ⊎ Quiet V m w (remove_pod U m pi w).1
  remove_pod-total m pi w = elim (reach U w.snap pi.pod) [
    | inr (e, q) ↦ inr (rw (q.0 m pi w refl refl) (Quiet-refl V m w))
    | inl (k, l) ↦ elim (Option-cases (U.node_remove_pod w.snap l.node pi.pod).0) [
      | inl h ↦ inl (k, l, removed-Shrunk m pi w l h)
      | inr (e, h) ↦
          let call = U.node_remove_pod w.snap l.node pi.pod in
          inr (
            rw (remove_at U m pi w l) (record {
              tracker = remove_from_kept U m pi k l.node w e h;
              snap = subst (Same V w.snap) (sym (remove_from_snap U m pi k l.node w)) (
                  Same-trans V
                    (L.remove_failed w.snap call.1 e l.node pi.pod (ap (λ e. (e, call.1)) h))
                    (L.set_generation_same call.1 l.node (U.generation w.snap l.node)));
            }))
    ]
  ]

  pub add_pod-Grown :
      (m : ℕ) (pi : PodInfo kinds) (w : World U) {k : String}
      → Reached U w.snap pi.pod k
      → Grown V m pi k w (add_pod U m pi w).1
  add_pod-Grown m pi w {k} l =
      let put = U.node_add_pod_info w.snap l.node pi in
      let back = L.set_generation_same put l.node (U.generation w.snap l.node) in
      rw (add_at U m pi w l) (record {
        tracker = add_to_tracker U m pi k l.node w;
        snap =
            subst (Grows V 0 pi.pod.spec.node_name k w.snap) (sym (add_to_snap U m pi k l.node w)) (
              Grows-cong V (Same-refl V w.snap) back
                (L.add_grows w.snap pi.pod.spec.node_name k l.node pi l.found l.has_key));
      })

  pub add_pod-total :
      (m : ℕ) (pi : PodInfo kinds) (w : World U)
      → ((k : String) × Reached U w.snap pi.pod k × Grown V m pi k w (add_pod U m pi w).1)
        ⊎ Quiet V m w (add_pod U m pi w).1
  add_pod-total m pi w = elim (reach U w.snap pi.pod) [
    | inr (e, q) ↦ inr (rw (q.1 m pi w refl refl) (Quiet-refl V m w))
    | inl (k, l) ↦ inl (k, l, add_pod-Grown m pi w l)
  ]
