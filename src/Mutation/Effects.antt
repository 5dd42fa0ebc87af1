-- ===== src/Mutation/Effects.antt =====
-- The effect of AddPod and RemovePod, and of the closures that undo them, on what can be observed.
use scheduler_library.Base.{
  ℕ, ◌<◌, ◌≡◌, refl, sym, ◌∙◌, ◌⊎◌, inl, inr, String, Option, none, some, Option-cases,
}
use mathlib.Core.Option.{none-ne-some}
use scheduler_library.Upstream.{Upstream, Pod, PodInfo, Error, wrap}
use scheduler_library.Upstream.Laws.{View, Same, Grows, Laws, Same-refl, Same-trans, Grows-cong}
use scheduler_library.World.{World, with_node_name}
use scheduler_library.Mutation.{remove_pod_effect, add_pod_effect}
use scheduler_library.Mutation.Located.{
  Located, remove-Located, add-Located, remove_cases, add_cases, remove_from_snap, remove_from-none,
  remove_from-some, add_to_parts,
}

module _ {U : Upstream} (V : View U) where
  open U use {kinds, Snap}

  -- A call that took one pod with this key away from this node, or failed and changed nothing.
  pub record Removed (p : Pod kinds) (k : String) (w : World U) (r : Option (Error kinds) × World U)
      : Type 0 where
    pub success : r.0 ≡ none
    pub shrinks : Grows V 0 p.spec.node_name k r.1.snap w.snap
    pub pods : r.1.pods ≡ w.pods
    pub next : r.1.next_pod ≡ w.next_pod

  pub record Failed (w : World U) (r : Option (Error kinds) × World U) : Type 0 where
    pub error : Error kinds
    pub failure : r.0 ≡ some error
    pub same : Same V w.snap r.1.snap
    pub pods : r.1.pods ≡ w.pods
    pub next : r.1.next_pod ≡ w.next_pod

  pub record Added (p : Pod kinds) (k : String) (w : World U) (r : Option (Error kinds) × World U)
      : Type 0 where
    pub success : r.0 ≡ none
    pub grows : Grows V 0 p.spec.node_name k w.snap r.1.snap
    pub pods : r.1.pods ≡ w.pods
    pub next : r.1.next_pod ≡ w.next_pod

module _ {U : Upstream} (V : View U) (L : Laws V) where
  open U use {kinds, Snap}

  pub add_pod-Added :
      (m : ℕ) (p : Pod kinds) (n : String) (w : World U) {k : String}
      → Located U w.snap (with_node_name U p n) k
      → Added V (with_node_name U p n) k w (add_pod_effect U m p n w)
  add_pod-Added m p n w {k} l =
      let pi : PodInfo kinds = record { pod = with_node_name U p n; terms = l.terms } in
      let parts = add_to_parts U "failed to add pod to snapshot" m pi k l.node w in
      rw (add-Located U m p n w l) (record {
        success = parts.2;
        grows = rw (parts.0) (
            Grows-cong V (Same-refl V w.snap) (L.set_generation_same _ l.node _)
              (L.add_grows w.snap n k l.node pi l.found l.has_key));
        pods = parts.1;
        next = parts.3;
      })

  remove_pod-cases :
      (m : ℕ) (p : Pod kinds) (w : World U) {k : String}
      → Located U w.snap p k
      → Removed V p k w (remove_pod_effect U m p w) ⊎ Failed V w (remove_pod_effect U m p w)
  remove_pod-cases m p w {k} l =
      let pi : PodInfo kinds = record { pod = p; terms = l.terms } in
      let why : String = "failed to remove pod from snapshot" in
      let parts = remove_from_snap U why m pi k l.node w in
      let call = U.node_remove_pod w.snap l.node p in
      rw (remove-Located U m p w l) (elim (Option-cases call.0) [
        | inl q ↦ inl (record {
          success = remove_from-none U why m pi k l.node w q;
          shrinks = rw (parts.0) (
              Grows-cong V (L.set_generation_same _ l.node _) (Same-refl V w.snap) (
                L.remove_shrinks w.snap call.1 p.spec.node_name k l.node p l.found l.has_key
                  (λ i. (q i, call.1))));
          pods = parts.1;
          next = parts.2;
        })
        | inr (e, q) ↦ inr (record {
          error = wrap why e;
          failure = remove_from-some U why m pi k l.node w e q;
          same = rw (parts.0) (
              Same-trans V (L.remove_failed w.snap call.1 e l.node p (λ i. (q i, call.1)))
                (L.set_generation_same _ l.node _));
          pods = parts.1;
          next = parts.2;
        })
      ])

  -- A pod that is listed on its node is removed.
  pub remove_pod-Removed :
      (m : ℕ) (p : Pod kinds) (w : World U) {k : String}
      → Located U w.snap p k
      → 0 < V.count w.snap p.spec.node_name k
      → Removed V p k w (remove_pod_effect U m p w)
  remove_pod-Removed m p w {k} l c = elim (remove_pod-cases m p w l) [
    | inl r ↦ r
    | inr f ↦ absurd (none-ne-some _ (sym found_none ∙ f.failure))
  ]
    where
      listed : (U.node_remove_pod w.snap l.node p).0 ≡ none
      listed = L.remove_found w.snap p.spec.node_name k l.node p l.found l.has_key c

      found_none : (remove_pod_effect U m p w).0 ≡ none
      found_none = rw (remove-Located U m p w l) (remove_from-none U _ m _ k l.node w listed)

  -- Any call of the two operations: what it did, or that it failed and changed nothing.
  pub remove_pod-total :
      (m : ℕ) (p : Pod kinds) (w : World U)
      → ((k : String) × Located U w.snap p k × Removed V p k w (remove_pod_effect U m p w))
        ⊎ Failed V w (remove_pod_effect U m p w)
  remove_pod-total m p w = elim (remove_cases U m p w) [
    | inl (k, l) ↦ elim (remove_pod-cases m p w l) [ inl r ↦ inl (k, l, r) | inr f ↦ inr f ]
    | inr (e, q) ↦ inr (
        rw q (record {
          error = e;
          failure = refl;
          same = Same-refl V w.snap;
          pods = refl;
          next = refl;
        }))
  ]

  pub add_pod-total :
      (m : ℕ) (p : Pod kinds) (n : String) (w : World U)
      → ((k : String) × Located U w.snap (with_node_name U p n) k
          × Added V (with_node_name U p n) k w (add_pod_effect U m p n w))
        ⊎ Failed V w (add_pod_effect U m p n w)
  add_pod-total m p n w = elim (add_cases U m p n w) [
    | inl (k, l) ↦ inl (k, l, add_pod-Added m p n w l)
    | inr (e, q) ↦ inr (
        rw q (record {
          error = e;
          failure = refl;
          same = Same-refl V w.snap;
          pods = refl;
          next = refl;
        }))
  ]
