-- ===== src/Snapshot/Preempt/Handles.antt =====
-- When a preemption handle is accepted.
use mathlib.Core.Path.{subst}
use mathlib.Core.Option.{some-injective}
use scheduler_library.Base.{
  ℕ, ◌+◌, ◌^◌, ◌<◌, ◌≡◌, refl, sym, ap, ◌∙◌, inl, inr, String, Bool, true, false, Option, none,
  some, List, [], ◌∷◌, length, reverse, succ64, ◌==◌, arith,
}
use scheduler_library.Upstream.{Upstream, Pod, Error, ok}
use scheduler_library.Upstream.Laws.{View, Laws, Grows, Grows-count}
use scheduler_library.Mutation.{add_pod_effect, add_pod_to_node, with_undo}
use scheduler_library.Upstream.Results.{ok-injective, err-ne-ok}
use scheduler_library.Mutation.Located.{Located, Located-cong}
use scheduler_library.Mutation.Effects.{Added, add_pod-Added}
use scheduler_library.Snapshot.Types.{ClusterSnapshot, Unpreemption, TransactionResult, revert}
use scheduler_library.Snapshot.Extends.{Unchanged}
use scheduler_library.Snapshot.Transaction.{TransactionFn, begin_transaction, transaction}
use scheduler_library.Snapshot.Transaction.Rollback.{transaction_reverts}
use scheduler_library.Snapshot.Preempt.{
  Preempted, preempt_pods, unpreempt, unpreempt_one, unpreempt_loop, revert_preemption,
}
use scheduler_library.Snapshot.Preempt.Rollback.{IsPreempted, preempt_pods-IsPreempted}

module _ (U : Upstream) where
  -- A transaction body that preempts pods and asks to revert.
  abbrev pub keep_revert :
      Option (Preempted U) → Option (TransactionResult × Option (Error U.kinds) × ClusterSnapshot U)
  keep_revert none = none
  keep_revert (some x) = some (revert, none, x.snapshot)

  abbrev pub preempting : List ℕ → TransactionFn U
  preempting rs s = keep_revert (preempt_pods U rs s)

  -- A fresh handle of one pod, at the version of the snapshot.
  unpreempt_accepted :
      (u : Unpreemption U) (s : ClusterSnapshot U)
      → s.preemption_version ≡ u.valid_preemption_version
      → u.reverted ≡ false
      → (unpreempt U (some u) s).snapshot ≡ (revert_preemption U u s).1
  unfolding unpreempt
  unpreempt_accepted u s h q =
      let e : (s.preemption_version == u.valid_preemption_version) ≡ true = ground arith in
      rw (e, unpreempt, q)

module _ {U : Upstream} (V : View U) (L : Laws V) where
  open U use {kinds}

  unpreempt_one-Grows :
      (m r : ℕ) (s : ClusterSnapshot U) {k : String}
      → Located U s.world.snap (s.world.pods r) k
      → Grows V 0
          (s.world.pods r).spec.node_name
          k
          s.world.snap
          (unpreempt_one U m r s).1.world.snap
  unfolding unpreempt_one add_pod_to_node
  unpreempt_one-Grows m r s l =
      let p = s.world.pods r in
      let a : Added V p _ s.world (add_pod_effect U m p p.spec.node_name s.world) =
        add_pod-Added V L m p p.spec.node_name s.world l in
      rw (a.success, with_undo) a.grows

  -- The handle that `preempting` was given.
  record Fresh (rs : List ℕ) (s : ClusterSnapshot U) (u : Unpreemption U) : Type 0 where
    pods : u.pods ≡ rs
    unused : u.reverted ≡ false
    version : u.valid_preemption_version ≡ s.preemption_version

  handle-Fresh :
      (P : ℕ → Bool) (rs : List ℕ) (s : ClusterSnapshot U) (x : Preempted U) (u : Unpreemption U)
      → IsPreempted V L P rs s x
      → x.result ≡ ok u
      → Fresh rs s u
  handle-Fresh P rs s x u d h = elim d.outcome [
    | inl (e, q, _) ↦ absurd (err-ne-ok (sym q ∙ h))
    | inr (u', q, a, b, c) ↦
        let same : u' ≡ u = ok-injective (sym q ∙ h) in
        record {
          pods = ap (λ y. y.pods) (sym same) ∙ a;
          unused = ap (λ y. y.reverted) (sym same) ∙ b;
          version = ap (λ y. y.valid_preemption_version) (sym same) ∙ c;
        }
  ]

  one_pod_loop :
      (m r : ℕ) (s : ClusterSnapshot U)
      → (unpreempt_loop U m (reverse (r ∷ [])) s).1 ≡ (unpreempt_one U m r s).1
  unfolding unpreempt_loop
  one_pod_loop m r s = refl

  same_return :
      {e e' : Option (Error kinds)} {a b : ClusterSnapshot U}
      → ◌≡◌ {A = Option (Option (Error kinds) × ClusterSnapshot U)} (some (e, a)) (some (e', b))
      → a ≡ b
  same_return h = cc

  accepted-Grows :
      (r : ℕ) (s : ClusterSnapshot U) (u : Unpreemption U) {k : String}
      → Fresh (r ∷ []) s u
      → Located U s.world.snap (s.world.pods r) k
      → Grows V 0
          (s.world.pods r).spec.node_name
          k
          s.world.snap
          (unpreempt U (some u) s).snapshot.world.snap
  accepted-Grows r s u {k} h l =
      subst
        (λ (y : ClusterSnapshot U).
          Grows V 0 (s.world.pods r).spec.node_name k s.world.snap y.world.snap)
        (sym run) (unpreempt_one-Grows u.tracker r s l)
    where
      run : (unpreempt U (some u) s).snapshot ≡ (unpreempt_one U u.tracker r s).1
      run =
          unpreempt_accepted U u s (sym h.version) h.unused
          ∙ (ap (λ rs. (unpreempt_loop U u.tracker (reverse rs) s).1) h.pods
              ∙ one_pod_loop u.tracker r s)

  preempted :
      (P : ℕ → Bool) (r : ℕ) (s : ClusterSnapshot U) (x : Preempted U)
      → P r ≡ true
      → s.undo_log.state_version + 1 < 2 ^ 64
      → preempt_pods U (r ∷ []) s ≡ some x
      → IsPreempted V L P (r ∷ []) s x
  preempted P r s x pinned b ran =
      let (x', e, d) = preempt_pods-IsPreempted V L P (r ∷ []) s (pinned, tt) b in
      subst (IsPreempted V L P (r ∷ []) s) (some-injective _ _ (sym e ∙ ran)) d

  preempting_back :
      (P : ℕ → Bool) (rs : List ℕ) (s t : ClusterSnapshot U) (x : Preempted U)
      → s.transaction_in_progress ≡ false
      → s.undo_log.state_version + length rs < 2 ^ 64
      → preempt_pods U rs (begin_transaction U s) ≡ some x
      → IsPreempted V L P rs (begin_transaction U s) x
      → transaction U (preempting U rs) s ≡ some (none, t)
      → Unchanged V P s t
  preempting_back P rs s t x idle b ran made done =
      let (t', q, c) =
        transaction_reverts V P (preempting U rs) s x.snapshot revert none idle
          (ap (keep_revert U) ran) made.grown.extends.extends
          (omega (arith, made.grown.extends.most)) made.grown.frame.profiles refl in
      subst (Unchanged V P s) (same_return (sym q ∙ done)) c

  -- A transaction that preempts one pinned pod, on a node that exists, and asks to revert gives a handle
  -- that is accepted again by the next transaction: `Unpreempt` there adds the pod to its node a
  -- second time. No transaction is in progress at first and the version has room for one operation.
  pub stale_handle_accepted :
      (P : ℕ → Bool) (r : ℕ) (s t : ClusterSnapshot U) (x : Preempted U) (u : Unpreemption U)
      {k : String}
      → s.transaction_in_progress ≡ false
      → P r ≡ true
      → s.undo_log.state_version + 1 < 2 ^ 64
      → Located U s.world.snap (s.world.pods r) k
      → preempt_pods U (r ∷ []) (begin_transaction U s) ≡ some x
      → x.result ≡ ok u
      → transaction U (preempting U (r ∷ [])) s ≡ some (none, t)
      → V.count
          (unpreempt U (some u) (begin_transaction U t)).snapshot.world.snap
          (s.world.pods r).spec.node_name
          k
        ≡ V.count s.world.snap (s.world.pods r).spec.node_name k + 1
  stale_handle_accepted P r s t x u {k} idle pinned b l ran given done =
      subst (λ (n : String). V.count after n k ≡ V.count s.world.snap n k + 1)
        (ap (λ (p : Pod kinds). p.spec.node_name) (sym pod))
        (omega (
          arith,
          Grows-count V (accepted-Grows r (begin_transaction U t) u again located),
          back.world.snaps.counts (t.world.pods r).spec.node_name k,
        ))
    where
      made : IsPreempted V L P (r ∷ []) (begin_transaction U s) x
      made = preempted P r (begin_transaction U s) x pinned b ran

      back : Unchanged V P s t
      back = preempting_back P (r ∷ []) s t x idle b ran made done

      after : U.Snap
      after = (unpreempt U (some u) (begin_transaction U t)).snapshot.world.snap

      again : Fresh (r ∷ []) (begin_transaction U t) u
      again =
          let h = handle-Fresh P (r ∷ []) (begin_transaction U s) x u made given in
          record {
            pods = h.pods;
            unused = h.unused;
            version = h.version ∙ sym (ap succ64 back.frame.preemption);
          }

      pod : s.world.pods r ≡ t.world.pods r
      pod = back.world.pods r pinned

      located : Located U t.world.snap (t.world.pods r) k
      located =
          subst (λ (p : Pod kinds). Located U t.world.snap p k) pod
            (Located-cong U back.world.snaps.nodes l)
