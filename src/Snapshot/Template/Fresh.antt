-- ===== src/Snapshot/Template/Fresh.antt =====
-- The pods of a template are newly allocated: no pod that was there is written to.
use mathlib.Core.Path.{subst}
use scheduler_library.Base.{
  ℕ, zero, suc, ◌+◌, ◌^◌, ◌≤◌, ◌<◌, ◌≡◌, refl, ◌⊎◌, inl, inr, Bool, true, false, Option, ◌==◌,
  is_some, arith, Bool-cases,
}
use scheduler_library.Upstream.{Upstream, Placement}
use scheduler_library.Upstream.Laws.{View, Laws, StatusLaws, Same-refl}
use scheduler_library.World.{World}
use scheduler_library.Trail.{SameWorld, OnReturn}
use scheduler_library.Scheduler.Returns.{ScoreLaws}
use scheduler_library.Scheduler.Returns.Fits.{CountLaws}
use scheduler_library.Snapshot.Types.{ClusterSnapshot, TemplateOptions}
use scheduler_library.Snapshot.Schedule.{schedule_seq}
use scheduler_library.Snapshot.Schedule.Loop.{Avoids}
use scheduler_library.Snapshot.Schedule.Rollback.{
  Finished, Finished-unchanged, schedule_seq-Finished,
}
use scheduler_library.Snapshot.Schedule.Returns.{AllFiltered, schedule_seq-returns}
use scheduler_library.Snapshot.Template.Bound.{length-template_pods}
use scheduler_library.Snapshot.Template.{
  PodTemplate, create_pod_from_template, template_pods, schedule_pods_by_template,
}

-- The pinned pods are among the first `low` ones.
abbrev pub Below : (ℕ → Bool) → ℕ → Type 0
Below P low = (r : ℕ) → P r ≡ true → r < low

module _ {U : Upstream} (V : View U) (L : Laws V) (S : StatusLaws U) (P : ℕ → Bool) (low : ℕ)
    (known : Below P low) where
  open U use {kinds}

  create_pod-fresh :
      (t : PodTemplate U) (i : ℕ) (w : World U)
      → low ≤ w.next_pod
      → SameWorld V P w (create_pod_from_template U t i w).1
        × (P (create_pod_from_template U t i w).0 ≡ false)
  unfolding create_pod_from_template
  create_pod-fresh t i w l = (
    record {
      snaps = Same-refl V w.snap;
      pods = λ r h. other r (known r h) (Bool-cases (w.next_pod == r));
      next = omega arith;
    },
    unpinned (Bool-cases (P w.next_pod)),
  )
    where
      other :
          (r : ℕ)
          → r < low
          → ((w.next_pod == r) ≡ true) ⊎ ((w.next_pod == r) ≡ false)
          → w.pods r ≡ (create_pod_from_template U t i w).1.pods r
      other r b (inl e) = absurd (ground (arith, b, l, e))
      other r b (inr e) = rw e refl

      unpinned : ((P w.next_pod ≡ true) ⊎ (P w.next_pod ≡ false)) → P w.next_pod ≡ false
      unpinned (inl e) = absurd (omega (arith, known w.next_pod e, l))
      unpinned (inr e) = e

  template_pods-Avoids : (t : PodTemplate U) (i n : ℕ) → Avoids V L S P low (template_pods U t i n)
  unfolding template_pods
  template_pods-Avoids t i zero = tt
  template_pods-Avoids t i (suc n) =
      ((λ w l. create_pod-fresh t i w l), template_pods-Avoids t (i + 1) n)

  pub schedule_pods_by_template-Finished :
      (t : PodTemplate U) (pl : Option (Placement kinds)) (m : ℕ) (o : TemplateOptions)
      (s : ClusterSnapshot U)
      → low ≤ s.world.next_pod
      → s.undo_log.state_version + m < 2 ^ 64
      → OnReturn (Finished V L S P m o.dry_run s) (schedule_pods_by_template U t pl m o s)
  unfolding schedule_pods_by_template
  schedule_pods_by_template-Finished t pl m o s l b = elim (Bool-cases (m == 0)) [
    | inl q ↦ rw (q, schedule_pods_by_template) (Finished-unchanged V L S P m o.dry_run s _ _)
    | inr q ↦
        rw (q, schedule_pods_by_template)
          (subst
            (λ n. OnReturn (Finished V L S P n o.dry_run s) (
              schedule_seq U (template_pods U t 0 m) pl
                (record { dry_run = o.dry_run; stop_on_failure = true }) s))
            (length-template_pods U t 0 m)
            (schedule_seq-Finished V L S P low (template_pods U t 0 m) pl _ s l
              (template_pods-Avoids t 0 m) (omega (arith, length-template_pods U t 0 m))))
  ]

  module _ (C : CountLaws U) (R : ScoreLaws U) where
    pub schedule_pods_by_template-returns :
        (t : PodTemplate U) (pl : Option (Placement kinds)) (m : ℕ) (o : TemplateOptions)
        (s : ClusterSnapshot U)
        → AllFiltered U s.profiles
        → low ≤ s.world.next_pod
        → s.undo_log.state_version + m < 2 ^ 64
        → is_some (schedule_pods_by_template U t pl m o s) ≡ true
    unfolding schedule_pods_by_template
    schedule_pods_by_template-returns t pl m o s h l b = elim (Bool-cases (m == 0)) [
      | inl q ↦ rw (q, schedule_pods_by_template) refl
      | inr q ↦
          rw (q, schedule_pods_by_template)
            (schedule_seq-returns V L S C R P low (template_pods U t 0 m) pl _ s h l
              (template_pods-Avoids t 0 m) (omega (arith, length-template_pods U t 0 m)))
    ]
