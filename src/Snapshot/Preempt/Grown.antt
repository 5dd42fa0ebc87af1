-- ===== src/Snapshot/Preempt/Grown.antt =====
-- The undo log covers everything that the loops of `PreemptPods` and `Unpreempt` do to the snapshot.
use mathlib.Core.List.{reverse_aux}
use scheduler_library.Base.{
  ℕ, suc, ◌+◌, ◌^◌, ◌<◌, ◌≡◌, refl, inl, inr, Bool, true, some, List, [], ◌∷◌, length, reverse,
  arith, Bool-cases, ◌==◌,
}
use scheduler_library.Upstream.{Upstream, Result}
use scheduler_library.Upstream.Laws.{View, Laws}
use scheduler_library.World.{World, Undo}
use scheduler_library.Mutation.{remove_pod_from_node}
use scheduler_library.Mutation.Reverts.{
  Reverts, undone, unchanged, remove_pod_from_node-Reverts, add_pod_to_node-Reverts,
}
use scheduler_library.Trail.{SameWorld, SameWorld-refl, Undoes}
use scheduler_library.Snapshot.Types.{ClusterSnapshot, Unpreemption, register}
use scheduler_library.Snapshot.Extends.{
  ExtendsBy, same-ExtendsBy, ExtendsBy-trans, register-ExtendsBy, Frame, Frame-trans,
}
use scheduler_library.Snapshot.Preempt.{
  set_world, after_removal, after_addition, preempt_loop, unpreempt_one, unpreempt_loop, unpreempt,
}

-- Every pod of the list is pinned: its node name is what it was when it was preempted.
abbrev pub Pinned : (ℕ → Bool) → List ℕ → Type 0
Pinned P [] = Unit
Pinned P (r ∷ rs) = (P r ≡ true) × Pinned P rs

module _ {U : Upstream} (V : View U) (L : Laws V) (P : ℕ → Bool) where
  open U use {kinds}

  pub record Grown (n : ℕ) (s s' : ClusterSnapshot U) : Type 0 where
    pub extends : ExtendsBy V P n s s'
    pub frame : Frame s s'

  Grown-trans : (n : ℕ) {s t u : ClusterSnapshot U} → Grown 1 s t → Grown n t u → Grown (suc n) s u
  Grown-trans n h g = record {
    extends =
        let x = ExtendsBy-trans V P h.extends g.extends in
        record { extends = x.extends; most = omega (arith, x.most) };
    frame = Frame-trans h.frame g.frame;
  }

  pub same-Grown :
      (n : ℕ) (s : ClusterSnapshot U) {w : World U}
      → SameWorld V P s.world w
      → Grown n s (set_world U w s)
  same-Grown n s g = record {
    extends = same-ExtendsBy V P refl g;
    frame = record { profiles = refl; flag = refl; preemption = refl };
  }

  register-Grown :
      (s : ClusterSnapshot U) (op : Undo U) {w : World U}
      → s.undo_log.state_version + 1 < 2 ^ 64
      → Undoes V P s.world op w
      → Grown 1 s (register U (some op) (set_world U w s))
  register-Grown s op b u = record {
    extends = register-ExtendsBy V P op refl u b;
    frame = record { profiles = refl; flag = refl; preemption = refl };
  }

  pub preempt_loop-Grown :
      (m : ℕ) (rs : List ℕ) (s : ClusterSnapshot U)
      → Pinned P rs
      → s.undo_log.state_version + length rs < 2 ^ 64
      → Grown (length rs) s (preempt_loop U m rs s).1
  unfolding preempt_loop
  preempt_loop-Grown m [] s h b = same-Grown 0 s (SameWorld-refl V P s.world)
  preempt_loop-Grown m (r ∷ rs) s h b =
      go (remove_pod_from_node U m r s.world) (remove_pod_from_node-Reverts V L P m r s.world h.0)
        (λ t. preempt_loop-Grown m rs t h.1)
    where
      go :
          (x : Result kinds (Undo U) × World U)
          → Reverts V L P s.world x
          → ((t : ClusterSnapshot U)
              → t.undo_log.state_version + length rs < 2 ^ 64
              → Grown (length rs) t (preempt_loop U m rs t).1)
          → Grown (suc (length rs)) s (after_removal U (preempt_loop U m rs) s x).1
      go _ (undone op u) ih =
          let one = register-Grown s op (omega arith) u in
          Grown-trans (length rs) one (ih _ (omega (arith, one.extends.most)))
      go _ (unchanged e g) ih = same-Grown (suc (length rs)) s g

  pub unpreempt_one-Grown :
      (m r : ℕ) (s : ClusterSnapshot U)
      → s.undo_log.state_version + 1 < 2 ^ 64
      → Grown 1 s (unpreempt_one U m r s).1
  unfolding unpreempt_one
  unpreempt_one-Grown m r s b =
      go (add_pod_to_node-Reverts V L P m (s.world.pods r) (s.world.pods r).spec.node_name s.world)
    where
      go :
          {x : Result kinds (Undo U) × World U}
          → Reverts V L P s.world x
          → Grown 1 s (after_addition U s x).1
      go (undone op u) = register-Grown s op b u
      go (unchanged e g) = same-Grown 1 s g

  pub unpreempt_loop-Grown :
      (m : ℕ) (rs : List ℕ) (s : ClusterSnapshot U)
      → s.undo_log.state_version + length rs < 2 ^ 64
      → Grown (length rs) s (unpreempt_loop U m rs s).1
  unfolding unpreempt_loop
  unpreempt_loop-Grown m [] s b = same-Grown 0 s (SameWorld-refl V P s.world)
  unpreempt_loop-Grown m (r ∷ rs) s b =
      let one = unpreempt_one-Grown m r s (omega arith) in
      Grown-trans (length rs) one (unpreempt_loop-Grown m rs _ (omega (arith, one.extends.most)))

  length-reverse_aux : (xs ys : List ℕ) → length (reverse_aux xs ys) ≡ length xs + length ys
  length-reverse_aux [] ys = omega arith
  length-reverse_aux (x ∷ xs) ys = omega (arith, length-reverse_aux xs (x ∷ ys))

  pub length-reverse : (xs : List ℕ) → length (reverse xs) ≡ length xs
  length-reverse xs = omega (arith, length-reverse_aux xs [])

  -- `Unpreempt` with any handle.
  pub unpreempt-Grown :
      (u : Unpreemption U) (s : ClusterSnapshot U)
      → s.undo_log.state_version + length u.pods < 2 ^ 64
      → Grown (length u.pods) s (unpreempt U (some u) s).snapshot
  unfolding unpreempt
  unpreempt-Grown u s b = elim (Bool-cases (s.preemption_version == u.valid_preemption_version)) [
    | inr q ↦ rw (q, unpreempt) (same-Grown (length u.pods) s (SameWorld-refl V P s.world))
    | inl q ↦ elim (Bool-cases u.reverted) [
      | inl q1 ↦ rw (q, unpreempt, q1) (same-Grown (length u.pods) s (SameWorld-refl V P s.world))
      | inr q1 ↦
          let g =
            unpreempt_loop-Grown u.tracker (reverse u.pods) s
              (omega (arith, length-reverse u.pods)) in
          rw (q, unpreempt, q1)
            (record {
              extends = record {
                extends = g.extends.extends;
                most = omega (arith, g.extends.most, length-reverse u.pods);
              };
              frame = g.frame;
            })
    ]
  ]
