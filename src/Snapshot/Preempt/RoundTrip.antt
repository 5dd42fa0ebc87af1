-- ===== src/Snapshot/Preempt/RoundTrip.antt =====
-- `Unpreempt` puts back what `PreemptPods` has taken away.
use mathlib.Core.Path.{subst}
use mathlib.Core.List.{reverse-cons}
use mathlib.Core.Option.{some-injective, none-ne-some}
use scheduler_library.Base.{
  ℕ, ◌≡◌, refl, sym, ap, ◌∙◌, inl, inr, String, Bool, true, false, Option, none, some, List, [],
  ◌∷◌, ◌++◌, reverse, any, ◌==◌, arith, Bool-cases, Option-cases,
}
use scheduler_library.Upstream.{Upstream, Pod, Error, end, ok}
use scheduler_library.Upstream.Laws.{View, Laws, Same-refl}
use scheduler_library.World.{World}
use scheduler_library.Mutation.{
  add_pod_effect, add_pod_to_node, remove_pod_effect, remove_pod_from_node, undo_add, undo_remove,
  with_undo, new_mutating_snapshot,
}
use scheduler_library.Upstream.Results.{ok-injective, err-ne-ok}
use scheduler_library.Mutation.Located.{Located, Located-cong}
use scheduler_library.Mutation.Effects.{Removed, Added, add_pod-Added, remove_pod-total}
use scheduler_library.Mutation.Reverts.{undo_remove-Undoes}
use scheduler_library.Trail.{SameWorld, SameWorld-refl, SameWorld-trans}
use scheduler_library.Snapshot.Types.{ClusterSnapshot, Unpreemption, register, restore}
use scheduler_library.Snapshot.Preempt.{
  set_world, preempt_loop, unassigned, Preempted, finish_preempt, preempt_pods, unpreempt_one,
  unpreempt_loop, unpreempt, Unpreempted,
}
use scheduler_library.Snapshot.Preempt.Grown.{Pinned}

module _ (U : Upstream) where
  open U use {kinds}

  -- Every addition of the list succeeds.
  data Done (m : ℕ) : List ℕ → ClusterSnapshot U → ClusterSnapshot U → Type 0 where
    finished : {s : ClusterSnapshot U} → Done m [] s s
    added :
        {r : ℕ} {rs : List ℕ} {s t u : ClusterSnapshot U}
        → unpreempt_one U m r s ≡ (none, t)
        → Done m rs t u
        → Done m (r ∷ rs) s u

  Done-append :
      (m r : ℕ) {rs : List ℕ} {s t u : ClusterSnapshot U}
      → Done m rs s t
      → unpreempt_one U m r t ≡ (none, u)
      → Done m (rs ++ (r ∷ [])) s u
  Done-append m r finished e = added e finished
  Done-append m r (added q d) e = added q (Done-append m r d e)

  Done-loop :
      {m : ℕ} {rs : List ℕ} {s t : ClusterSnapshot U}
      → Done m rs s t
      → unpreempt_loop U m rs s ≡ (end, t)
  unfolding unpreempt_loop
  Done-loop finished = refl
  Done-loop (added q d) = rw (q, Done-loop d) refl

module _ {U : Upstream} (V : View U) (L : Laws V) (P : ℕ → Bool) where
  open U use {kinds}

  one_back :
      (m r : ℕ) (w : World U) {k : String}
      → P r ≡ true
      → Located U w.snap (w.pods r) k
      → Removed V (w.pods r) k w (remove_pod_effect U m (w.pods r) w)
      → (t : ClusterSnapshot U) → SameWorld V P (remove_pod_effect U m (w.pods r) w).1 t.world
      → (b : ClusterSnapshot U) × (unpreempt_one U m r t ≡ (none, b)) × SameWorld V P w b.world
  unfolding unpreempt_one add_pod_to_node undo_remove
  one_back m r w {k} h l d t g =
      (b, rw (a.success, with_undo) refl, (undo_remove-Undoes V L P m r w h l d).back t.world g)
    where
      p : Pod kinds
      p = t.world.pods r

      b : ClusterSnapshot U
      b =
          register U (some (undo_add U m p p.spec.node_name))
            (set_world U (add_pod_effect U m p p.spec.node_name t.world).1 t)

      same : w.pods r ≡ p
      same = ap (λ (ps : ℕ → Pod kinds). ps r) (sym d.pods) ∙ g.pods r h

      there : Located U t.world.snap p k
      there =
          subst (λ (q : Pod kinds). Located U t.world.snap q k) same
            (Located-cong U (λ n. sym (d.shrinks.nodes n) ∙ g.snaps.nodes n) l)

      a : Added V p k t.world (add_pod_effect U m p p.spec.node_name t.world)
      a = add_pod-Added V L m p p.spec.node_name t.world there

  -- Putting the pods back in reverse order leads from whatever looks like `w'` to a world like `w`.
  record PutsBack (m : ℕ) (rs : List ℕ) (w w' : World U) : Type 0 where
    run :
        (t : ClusterSnapshot U)
        → SameWorld V P w' t.world
        → (b : ClusterSnapshot U) × Done U m (reverse rs) t b × SameWorld V P w b.world

  PutsBack-base :
      (m : ℕ) (rs : List ℕ) {v w w' : World U}
      → SameWorld V P v w
      → PutsBack m rs w w'
      → PutsBack m rs v w'
  PutsBack-base m rs h back = record {
    run = λ t g. let (b, d, same) = back.run t g in (b, d, SameWorld-trans V P h same);
  }

  some-ne-none :
      {e : Error kinds} {s t : ClusterSnapshot U}
      → ◌≡◌ {A = Option (Error kinds) × ClusterSnapshot U} (some e, s) (none, t)
      → ⊥
  some-ne-none h = cc

  preempt_loop-PutsBack :
      (m : ℕ) (rs : List ℕ) (s s' : ClusterSnapshot U)
      → Pinned P rs
      → preempt_loop U m rs s ≡ (none, s')
      → PutsBack m rs s.world s'.world
  unfolding preempt_loop remove_pod_from_node
  preempt_loop-PutsBack m [] s s' h e = record {
    run = λ t g. (
      t,
      finished,
      subst (λ (x : Option (Error kinds) × ClusterSnapshot U). SameWorld V P x.1.world t.world)
          (sym e) g,
    );
  }
  preempt_loop-PutsBack m (r ∷ rs) s s' h e =
      elim (remove_pod-total V L m (s.world.pods r) s.world) [
        | inr f ↦ absurd (some-ne-none (rw (f.failure, with_undo) at e))
        | inl (k, l, d) ↦
            let rest : PutsBack m rs (remove_pod_effect U m (s.world.pods r) s.world).1 s'.world =
              preempt_loop-PutsBack m rs _ s' h.1 (rw (d.success, with_undo) at e) in
            record {
              run = λ t g.
                  let (b, q, same) = rest.run t g in
                  let (c, q1, same1) = one_back m r s.world h.0 l d b same in
                  (
                    c,
                    subst (λ l. Done U m l t c) (sym (reverse-cons r rs))
                        (Done-append U m r {t = b} {u = c} q q1),
                    same1,
                  );
            }
      ]

  -- What `Unpreempt` returns and leaves when it puts all the pods back.
  record RoundTrip (rs : List ℕ) (s : ClusterSnapshot U) (y : Unpreempted U) : Type 0 where
    result : y.result ≡ ok rs
    world : SameWorld V P s.world y.snapshot.world

  unpreempt-RoundTrip :
      (m : ℕ) (rs : List ℕ) (s s' : ClusterSnapshot U) (u : Unpreemption U)
      → PutsBack m rs s.world s'.world
      → u ≡ record {
        pods = rs;
        tracker = m;
        reverted = false;
        valid_preemption_version = s'.preemption_version;
      }
      → RoundTrip rs s (unpreempt U (some u) s')
  unfolding unpreempt
  unpreempt-RoundTrip m rs s s' u back e =
      let (b, q, same) = back.run s' (SameWorld-refl V P s'.world) in
      let here : (s'.preemption_version == s'.preemption_version) ≡ true = ground arith in
      subst (λ v. RoundTrip rs s (unpreempt U (some v) s')) (sym e)
        (rw (here, unpreempt, Done-loop U q) (record { result = refl; world = same }))

  failed_preempt :
      (v m : ℕ) (rs : List ℕ) (e : Error kinds) (t : ClusterSnapshot U) (x : Preempted U)
      (u : Unpreemption U)
      → finish_preempt U v m rs (some e, t) ≡ some x
      → x.result ≡ ok u
      → ⊥
  unfolding finish_preempt
  failed_preempt v m rs e t x u h q = elim (Option-cases (restore U v t)) [
    | inl a ↦ none-ne-some _ (rw (a, finish_preempt) at h)
    | inr (t', a) ↦
        let same = some-injective _ _ (rw (a, finish_preempt) at h) in
        err-ne-ok (ap (λ (y : Preempted U). y.result) same ∙ q)
  ]

  finish_preempt-RoundTrip :
      (v m : ℕ) (rs : List ℕ) (s : ClusterSnapshot U) (x : Preempted U) (u : Unpreemption U)
      (o : Option (Error kinds) × ClusterSnapshot U)
      → (o.0 ≡ none → PutsBack m rs s.world o.1.world)
      → finish_preempt U v m rs o ≡ some x
      → x.result ≡ ok u
      → RoundTrip rs s (unpreempt U (some u) x.snapshot)
  unfolding finish_preempt
  finish_preempt-RoundTrip v m rs s x u (some e, t) back h q =
      absurd (failed_preempt v m rs e t x u h q)
  finish_preempt-RoundTrip v m rs s x u (none, t) back h q =
      let same = some-injective _ _ h in
      subst (λ (y : Preempted U). RoundTrip rs s (unpreempt U (some u) y.snapshot)) same
        (unpreempt-RoundTrip m rs s t u (back refl)
          (sym (ok-injective (ap (λ (y : Preempted U). y.result) same ∙ q))))

  -- If `PreemptPods` gives a handle for pods that `P` pins, then `Unpreempt` on it, right afterwards,
  -- returns these pods without an error, and the observations of the scheduler's snapshot and the
  -- pinned pods are as before the preemption.
  pub preempt_pods-unpreempt :
      (rs : List ℕ) (s : ClusterSnapshot U) (x : Preempted U) (u : Unpreemption U)
      → Pinned P rs
      → preempt_pods U rs s ≡ some x
      → x.result ≡ ok u
      → ((unpreempt U (some u) x.snapshot).result ≡ ok rs)
        × SameWorld V P s.world (unpreempt U (some u) x.snapshot).snapshot.world
  unfolding preempt_pods
  preempt_pods-unpreempt rs s x u pinned ran given = elim (Bool-cases (any (unassigned U s) rs)) [
    | inl q ↦
        let same = some-injective _ _ (rw (q, preempt_pods) at ran) in
        absurd (err-ne-ok (ap (λ (y : Preempted U). y.result) same ∙ given))
    | inr q ↦
        let (m, w) = new_mutating_snapshot U s.world in
        let loop = preempt_loop U m rs (set_world U w s) in
        let fresh : SameWorld V P s.world w = record {
          snaps = Same-refl V w.snap;
          pods = λ r _. refl;
          next = omega arith;
        } in
        let t : RoundTrip rs s (unpreempt U (some u) x.snapshot) =
          finish_preempt-RoundTrip s.undo_log.state_version m rs s x u loop
            (λ e. PutsBack-base m rs fresh (
              preempt_loop-PutsBack m rs (set_world U w s) loop.1 pinned (ap (λ z. (z, loop.1)) e)))
            (rw (q, preempt_pods) at ran) given in
        (t.result, t.world)
  ]
