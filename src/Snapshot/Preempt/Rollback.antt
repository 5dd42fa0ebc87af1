-- ===== src/Snapshot/Preempt/Rollback.antt =====
-- A preemption that fails is taken back, and one that succeeds is covered by the undo log.
use scheduler_library.Base.{
  ℕ, ◌+◌, ◌^◌, ◌<◌, ◌≡◌, refl, ap, ◌⊎◌, inl, inr, Bool, false, Option, none, some, List, length,
  any, arith, Bool-cases,
}
use scheduler_library.Upstream.{Upstream, Error, message, ok, err}
use scheduler_library.Upstream.Laws.{View, Laws, Same-refl}
use scheduler_library.Mutation.{new_mutating_snapshot}
use scheduler_library.Trail.{SameWorld, SameWorld-refl}
use scheduler_library.Snapshot.Types.{ClusterSnapshot, Unpreemption}
use scheduler_library.Snapshot.Extends.{
  same-ExtendsBy, ExtendsBy-trans, restore-Restored, Frame, Frame-trans, Unchanged,
}
use scheduler_library.Snapshot.Preempt.{
  set_world, preempt_loop, unassigned, Preempted, finish_preempt, preempt_pods,
}
use scheduler_library.Snapshot.Preempt.Grown.{Pinned, Grown, same-Grown, preempt_loop-Grown}

module _ {U : Upstream} (V : View U) (L : Laws V) (P : ℕ → Bool) where
  open U use {kinds}

  -- A preemption handle of pods `rs`, and the snapshot and result of the call that returns it.
  pub record IsPreempted (rs : List ℕ) (s : ClusterSnapshot U) (r : Preempted U) : Type 0 where
    pub grown : Grown V L P (length rs) s r.snapshot
    pub outcome :
        ((e : Error kinds) × (r.result ≡ err e) × Unchanged V P s r.snapshot)
        ⊎ ((u : Unpreemption U) × (r.result ≡ ok u)
            × (u.pods ≡ rs)
            × (u.reverted ≡ false)
            × (u.valid_preemption_version ≡ s.preemption_version))

  Frame-refl : (s : ClusterSnapshot U) → Frame s s
  Frame-refl s = record { profiles = refl; flag = refl; preemption = refl }

  finish_preempt-IsPreempted :
      (m : ℕ) (rs : List ℕ) (s : ClusterSnapshot U) (e : Option (Error kinds))
      (t : ClusterSnapshot U)
      → s.undo_log.state_version + length rs < 2 ^ 64
      → Grown V L P (length rs) s t
      → (r : Preempted U) × (finish_preempt U s.undo_log.state_version m rs (e, t) ≡ some r)
        × IsPreempted rs s r
  unfolding finish_preempt
  finish_preempt-IsPreempted m rs s none t b g =
      (_, refl, record { grown = g; outcome = inr (_, refl, refl, refl, g.frame.preemption) })
  finish_preempt-IsPreempted m rs s (some e) t b g =
      let (t', q, d) =
        restore-Restored V P {s = s} {s' = t} g.extends.extends (omega (arith, g.extends.most)) in
      let u : Unchanged V P s t' = record {
        log = d.log;
        world = d.world;
        frame = Frame-trans g.frame (record {
          profiles = ap (λ x. x.profiles) d.rest;
          flag = ap (λ x. x.transaction_in_progress) d.rest;
          preemption = ap (λ x. x.preemption_version) d.rest;
        });
      } in
      (
        record { result = err e; snapshot = t' },
        rw (q, finish_preempt),
        record {
          grown = record { extends = same-ExtendsBy V P u.log u.world; frame = u.frame };
          outcome = inl (e, refl, u);
        },
      )

  -- `PreemptPods` returns; it either fails and has changed nothing, or gives a fresh handle for the
  -- pods at the current version.
  pub preempt_pods-IsPreempted :
      (rs : List ℕ) (s : ClusterSnapshot U)
      → Pinned P rs
      → s.undo_log.state_version + length rs < 2 ^ 64
      → (r : Preempted U) × (preempt_pods U rs s ≡ some r) × IsPreempted rs s r
  unfolding preempt_pods
  preempt_pods-IsPreempted rs s h b = elim (Bool-cases (any (unassigned U s) rs)) [
    | inl q ↦ (
      record { result = err no_node; snapshot = s },
      rw (q, preempt_pods),
      record {
        grown = same-Grown V L P (length rs) s (SameWorld-refl V P s.world);
        outcome = inl (
          no_node,
          refl,
          record { log = refl; world = SameWorld-refl V P s.world; frame = Frame-refl s },
        );
      },
    )
    | inr q ↦
        let (m, w) = new_mutating_snapshot U s.world in
        let s' = set_world U w s in
        let loop = preempt_loop U m rs s' in
        let fresh : SameWorld V P s.world w = record {
          snaps = Same-refl V w.snap;
          pods = λ r _. refl;
          next = omega arith;
        } in
        let a = same-Grown V L P 0 s fresh in
        let g = preempt_loop-Grown V L P m rs s' h b in
        let x = ExtendsBy-trans V P a.extends g.extends in
        let (r, e, d) = finish_preempt-IsPreempted m rs s loop.0 loop.1 b (record {
          extends = record { extends = x.extends; most = omega (arith, x.most) };
          frame = Frame-trans a.frame g.frame;
        }) in
        (r, rw (q, preempt_pods) e, d)
  ]
    where
      no_node : Error kinds
      no_node = message "pod has no node name"
