-- ===== src/Mutation/Aliasing.antt =====
-- The closure of `removePodFromNode` reads the node name through the caller's pointer. Whoever
-- writes that field in between, as `schedulePods` does, redirects it.
use mathlib.Core.Path.{subst}
use scheduler_library.Base.{ℕ, ◌+◌, ◌<◌, ◌≡◌, ◌≢◌, refl, sym, ap, String, arith, eq_iff, ◌==◌, true}
use scheduler_library.Upstream.{Upstream, Pod}
use scheduler_library.Upstream.Laws.{View, Grows, Laws, one, one_self}
use scheduler_library.World.{World, with_node_name, set_node_name}
use scheduler_library.Mutation.{remove_pod_effect, add_pod_effect, undo_remove}
use scheduler_library.Mutation.Located.{Located, Located-cong}
use scheduler_library.Mutation.Effects.{Removed, Added, add_pod-Added, remove_pod-Removed}

one_elsewhere : (n m k : String) → n ≢ m → one n k m k ≡ 0
unfolding one
one_elsewhere n m k h = ground (arith, eq_iff n m)

module _ {U : Upstream} (V : View U) (L : Laws V) where
  open U use {kinds}

  undo_remove-Added :
      (m r : ℕ) (v : World U) {k : String}
      → Located U v.snap (v.pods r) k
      → Added V (v.pods r) k v (add_pod_effect U m (v.pods r) (v.pods r).spec.node_name v)
  undo_remove-Added m r v l = add_pod-Added V L m (v.pods r) (v.pods r).spec.node_name v l

  -- Remove a pod by its pointer from the node that it is counted on, then write another existing node
  -- into the caller's pod, and run the closure that the removal returned: the pod is added to that
  -- other node, and its own node keeps one pod fewer than before.
  pub undo_remove_redirected :
      (m r : ℕ) (host : String) (w : World U) {k : String}
      → (w.pods r).spec.node_name ≢ host
      → Located U w.snap (w.pods r) k
      → 0 < V.count w.snap (w.pods r).spec.node_name k
      → Located U w.snap (with_node_name U (w.pods r) host) k
      → let v = set_node_name U (remove_pod_effect U m (w.pods r) w).1 r host in
        let z = undo_remove U m r v in
        (V.count z.snap host k ≡ V.count w.snap host k + 1)
        × (V.count z.snap (w.pods r).spec.node_name k + 1
            ≡ V.count w.snap (w.pods r).spec.node_name k)
  unfolding undo_remove
  undo_remove_redirected m r host w {k} elsewhere l c there =
      let n = (w.pods r).spec.node_name in
      (
        omega (
          arith,
          moved.counts host k,
          d.shrinks.counts host k,
          one_elsewhere n host k elsewhere,
          one_self host k,
        ),
        omega (
          arith,
          moved.counts n k,
          d.shrinks.counts n k,
          one_elsewhere host n k (λ e. elsewhere (sym e)),
          one_self n k,
        ),
      )
    where
      d : Removed V (w.pods r) k w (remove_pod_effect U m (w.pods r) w)
      d = remove_pod-Removed V L m (w.pods r) w l c

      v : World U
      v = set_node_name U (remove_pod_effect U m (w.pods r) w).1 r host

      written : v.pods r ≡ with_node_name U (w.pods r) host
      written = let same : (r == r) ≡ true = ground arith in rw (same, d.pods) refl

      here : Located U v.snap (v.pods r) k
      here =
          subst (λ (p : Pod kinds). Located U v.snap p k) (sym written)
            (Located-cong U (λ n. sym (d.shrinks.nodes n)) there)

      moved : Grows V 0 host k v.snap (undo_remove U m r v).snap
      moved =
          subst (λ (n : String). Grows V 0 n k v.snap (undo_remove U m r v).snap)
            (ap (λ (p : Pod kinds). p.spec.node_name) written) (undo_remove-Added m r v here).grows
