-- ===== src/Mutation/Reverts.antt =====
-- The closures that `addPodToNode` and `removePodFromNode` return lead back.
use mathlib.Core.Path.{subst}
use scheduler_library.Base.{ℕ, ◌≡◌, sym, ap, ◌∙◌, inl, inr, String, Bool, true, arith}
use scheduler_library.Upstream.{Upstream, Pod, Error, ok, err, Result}
use scheduler_library.Upstream.Laws.{
  View, Grows, Laws, Same-refl, Grows-cong, Grows-cancel, Grows-again, Grows-count,
}
use scheduler_library.World.{World, Undo, with_node_name}
use scheduler_library.Mutation.{
  remove_pod_effect, add_pod_effect, undo_add, undo_remove, with_undo, add_pod_to_node,
  remove_pod_from_node,
}
use scheduler_library.Mutation.Located.{Located, Located-cong}
use scheduler_library.Mutation.Effects.{
  Removed, Failed, Added, add_pod-Added, remove_pod-Removed, remove_pod-total, add_pod-total,
}
use scheduler_library.Trail.{SameWorld, Undoes}

module _ {U : Upstream} (V : View U) (L : Laws V) (P : ℕ → Bool) where
  open U use {kinds}

  failed-SameWorld : {w : World U} {r : _} → Failed V w r → SameWorld V P w r.1
  failed-SameWorld f = record {
    snaps = f.same;
    pods = λ r h. ap (λ q. q r) (sym f.pods);
    next = omega (arith, f.next);
  }

  undo_add-Undoes :
      (m : ℕ) (p : Pod kinds) (n : String) (w : World U) {k : String}
      → Located U w.snap (with_node_name U p n) k
      → Added V (with_node_name U p n) k w (add_pod_effect U m p n w)
      → Undoes V P w (undo_add U m p n) (add_pod_effect U m p n w).1
  unfolding undo_add
  undo_add-Undoes m p n w {k} l a = record {
    back = λ v g.
        let p' = with_node_name U p n in
        let grown : Grows V 0 n k w.snap v.snap =
          Grows-cong V (Same-refl V w.snap) g.snaps a.grows in
        let gone : Removed V p' k v (remove_pod_effect U m p' v) =
          remove_pod-Removed V L m p' v (Located-cong U grown.nodes l)
            (omega (arith, Grows-count V grown)) in
        record {
          snaps = Grows-cancel V grown gone.shrinks;
          pods = λ r h. ap (λ q. q r) (sym a.pods) ∙ (g.pods r h ∙ ap (λ q. q r) (sym gone.pods));
          next = omega (arith, a.next, g.next, gone.next);
        };
    next = omega (arith, a.next);
  }

  add_back :
      (m : ℕ) (p : Pod kinds) (w v w' : World U) {k : String}
      → Located U w.snap p k
      → Grows V 0 p.spec.node_name k w'.snap w.snap
      → w'.pods ≡ w.pods
      → w'.next_pod ≡ w.next_pod
      → SameWorld V P w' v
      → SameWorld V P w (add_pod_effect U m p p.spec.node_name v).1
  add_back m p w v w' {k} l shrunk same higher g =
      let grows : Grows V 0 p.spec.node_name k v.snap w.snap =
        Grows-cong V g.snaps (Same-refl V w.snap) shrunk in
      let back : Added V p k v (add_pod_effect U m p p.spec.node_name v) =
        add_pod-Added V L m p p.spec.node_name v (Located-cong U (λ n. sym (grows.nodes n)) l) in
      record {
        snaps = Grows-again V grows back.grows;
        pods = λ r h. ap (λ q. q r) (sym same) ∙ (g.pods r h ∙ ap (λ q. q r) (sym back.pods));
        next = omega (arith, higher, g.next, back.next);
      }

  pub undo_remove-Undoes :
      (m r : ℕ) (w : World U) {k : String}
      → P r ≡ true
      → Located U w.snap (w.pods r) k
      → Removed V (w.pods r) k w (remove_pod_effect U m (w.pods r) w)
      → Undoes V P w (undo_remove U m r) (remove_pod_effect U m (w.pods r) w).1
  unfolding undo_remove
  undo_remove-Undoes m r w h l d = record {
    back = λ v g.
        subst (λ (p : Pod kinds). SameWorld V P w (add_pod_effect U m p p.spec.node_name v).1)
          (ap (λ q. q r) (sym d.pods) ∙ g.pods r h)
          (add_back m (w.pods r) w v _ l d.shrinks d.pods d.next g);
    next = omega (arith, d.next);
  }

  -- What a call that returns a revert function has done.
  pub data Reverts (w : World U) : Result kinds (Undo U) × World U → Type 0 where
    undone : (op : Undo U) {w' : World U} → Undoes V P w op w' → Reverts w (ok op, w')
    unchanged : (e : Error kinds) {w' : World U} → SameWorld V P w w' → Reverts w (err e, w')

  -- Removing a pinned pod by its pointer: on success the closure leads back, on failure nothing
  -- observable has changed.
  pub remove_pod_from_node-Reverts :
      (m r : ℕ) (w : World U) → P r ≡ true → Reverts w (remove_pod_from_node U m r w)
  unfolding remove_pod_from_node
  remove_pod_from_node-Reverts m r w h = elim (remove_pod-total V L m (w.pods r) w) [
    | inl (k, l, d) ↦
        rw (d.success, with_undo) (undone (undo_remove U m r) (undo_remove-Undoes m r w h l d))
    | inr f ↦ rw (f.failure, with_undo) (unchanged f.error (failed-SameWorld f))
  ]

  pub add_pod_to_node-Reverts :
      (m : ℕ) (p : Pod kinds) (n : String) (w : World U) → Reverts w (add_pod_to_node U m p n w)
  unfolding add_pod_to_node
  add_pod_to_node-Reverts m p n w = elim (add_pod-total V L m p n w) [
    | inl (k, l, a) ↦
        rw (a.success, with_undo) (undone (undo_add U m p n) (undo_add-Undoes m p n w l a))
    | inr f ↦ rw (f.failure, with_undo) (unchanged f.error (failed-SameWorld f))
  ]
