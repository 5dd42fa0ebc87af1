-- ===== src/Mutation/Located.antt =====
-- Calls of AddPod and RemovePod that reach the node of the pod.
use scheduler_library.Base.{
  ℕ, ◌≡◌, sym, ◌∙◌, ◌⊎◌, inl, inr, String, true, none, some, arith, Bool-cases,
}
use scheduler_library.Upstream.{Upstream, Pod, PodInfo, Error, message, wrap, ok}
use scheduler_library.Upstream.Results.{Result-cases}
use scheduler_library.World.{World, with_node_name}
use scheduler_library.Mutation.{
  wrapping, remove_from, add_to, remove_pod, add_pod, remove_pod_effect, add_pod_effect,
}

module _ (U : Upstream) where
  open U use {kinds, Snap, Node, Terms}

  -- The pod has a key and its node is in the snapshot, so that both operations reach the node.
  pub record Located (s : Snap) (p : Pod kinds) (k : String) : Type 0 where
    pub terms : Terms
    pub node : Node
    pub has_terms : U.pod_terms p ≡ ok terms
    pub has_key : U.get_pod_key p ≡ ok k
    pub found : U.get s p.spec.node_name ≡ ok node
    pub known : U.is_framework_node node ≡ true

  pub Located-cong :
      {s t : Snap} {p : Pod kinds} {k : String}
      → ((n : String) → U.get s n ≡ U.get t n)
      → Located s p k
      → Located t p k
  Located-cong {p} h l = record {
    terms = l.terms;
    node = l.node;
    has_terms = l.has_terms;
    has_key = l.has_key;
    found = sym (h p.spec.node_name) ∙ l.found;
    known = l.known;
  }

  pub remove-Located :
      (m : ℕ) (p : Pod kinds) (w : World U) {k : String} (l : Located w.snap p k)
      → remove_pod_effect U m p w
        ≡ wrapping U "failed to remove pod from snapshot"
            (remove_from U m (record { pod = p; terms = l.terms }) k l.node w)
  unfolding remove_pod_effect remove_pod
  remove-Located m p w l = ground (arith, l.has_terms, l.has_key, l.found, l.known)

  pub add-Located :
      (m : ℕ) (p : Pod kinds) (n : String) (w : World U) {k : String}
      (l : Located w.snap (with_node_name U p n) k)
      → add_pod_effect U m p n w
        ≡ wrapping U "failed to add pod to snapshot"
            (add_to U m (record { pod = with_node_name U p n; terms = l.terms }) k l.node w)
  unfolding add_pod_effect add_pod
  add-Located m p n w l = ground (arith, l.has_terms, l.has_key, l.found, l.known)

  pub remove_cases :
      (m : ℕ) (p : Pod kinds) (w : World U)
      → ((k : String) × Located w.snap p k)
        ⊎ ((e : Error kinds) × (remove_pod_effect U m p w ≡ (some e, w)))
  unfolding remove_pod_effect remove_pod
  remove_cases m p w = elim (Result-cases (U.pod_terms p)) [
    | inr (e, q) ↦ inr (wrap "failed to create pod info" e, ground arith)
    | inl (t, q) ↦ elim (Result-cases (U.get_pod_key p)) [
      | inr (e, q1) ↦ inr (wrap "failed to remove pod from snapshot" e, ground arith)
      | inl (k, q1) ↦ elim (Result-cases (U.get w.snap p.spec.node_name)) [
        | inr (e, q2) ↦ inr (wrap "failed to remove pod from snapshot" e, ground arith)
        | inl (ni, q2) ↦ elim (Bool-cases (U.is_framework_node ni)) [
          | inl q3 ↦ inl (
            k,
            record { terms = t; node = ni; has_terms = q; has_key = q1; found = q2; known = q3 },
          )
          | inr q3 ↦ inr (
            wrap "failed to remove pod from snapshot" (message "unknown node info type"),
            ground arith,
          )
        ]
      ]
    ]
  ]

  pub add_cases :
      (m : ℕ) (p : Pod kinds) (n : String) (w : World U)
      → ((k : String) × Located w.snap (with_node_name U p n) k)
        ⊎ ((e : Error kinds) × (add_pod_effect U m p n w ≡ (some e, w)))
  unfolding add_pod_effect add_pod
  add_cases m p n w = elim (Result-cases (U.pod_terms (with_node_name U p n))) [
    | inr (e, q) ↦ inr (wrap "failed to create pod info" e, ground arith)
    | inl (t, q) ↦ elim (Result-cases (U.get_pod_key (with_node_name U p n))) [
      | inr (e, q1) ↦ inr (wrap "failed to add pod to snapshot" e, ground arith)
      | inl (k, q1) ↦ elim (Result-cases (U.get w.snap n)) [
        | inr (e, q2) ↦ inr (wrap "failed to add pod to snapshot" e, ground arith)
        | inl (ni, q2) ↦ elim (Bool-cases (U.is_framework_node ni)) [
          | inl q3 ↦ inl (
            k,
            record { terms = t; node = ni; has_terms = q; has_key = q1; found = q2; known = q3 },
          )
          | inr q3 ↦ inr (
            wrap "failed to add pod to snapshot" (message "unknown node info type"),
            ground arith,
          )
        ]
      ]
    ]
  ]

  -- The snapshot that the bodies of the two operations leave, and the pods, which they do not touch.
  pub remove_from_snap :
      (s : String) (m : ℕ) (pi : PodInfo kinds) (k : String) (ni : Node) (w : World U)
      → ((wrapping U s (remove_from U m pi k ni w)).1.snap
          ≡ U.set_generation (U.node_remove_pod w.snap ni pi.pod).1 ni (U.generation w.snap ni))
        × ((wrapping U s (remove_from U m pi k ni w)).1.pods ≡ w.pods)
        × ((wrapping U s (remove_from U m pi k ni w)).1.next_pod ≡ w.next_pod)
  unfolding remove_from
  remove_from_snap s m pi k ni w = ground arith

  pub remove_from-none :
      (s : String) (m : ℕ) (pi : PodInfo kinds) (k : String) (ni : Node) (w : World U)
      → (U.node_remove_pod w.snap ni pi.pod).0 ≡ none
      → (wrapping U s (remove_from U m pi k ni w)).0 ≡ none
  unfolding remove_from
  remove_from-none s m pi k ni w h = ground arith

  pub remove_from-some :
      (s : String) (m : ℕ) (pi : PodInfo kinds) (k : String) (ni : Node) (w : World U)
      (e : Error kinds)
      → (U.node_remove_pod w.snap ni pi.pod).0 ≡ some e
      → (wrapping U s (remove_from U m pi k ni w)).0 ≡ some (wrap s e)
  unfolding remove_from
  remove_from-some s m pi k ni w e h = ground arith

  pub add_to_parts :
      (s : String) (m : ℕ) (pi : PodInfo kinds) (k : String) (ni : Node) (w : World U)
      → ((wrapping U s (add_to U m pi k ni w)).1.snap
          ≡ U.set_generation (U.node_add_pod_info w.snap ni pi) ni (U.generation w.snap ni))
        × ((wrapping U s (add_to U m pi k ni w)).1.pods ≡ w.pods)
        × ((wrapping U s (add_to U m pi k ni w)).0 ≡ none)
        × ((wrapping U s (add_to U m pi k ni w)).1.next_pod ≡ w.next_pod)
  unfolding add_to
  add_to_parts s m pi k ni w = ground arith
