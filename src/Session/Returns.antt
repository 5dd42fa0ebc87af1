-- ===== src/Session/Returns.antt =====
-- Every call returns.
use scheduler_library.Base.{
  ◌≤◌, ℕ, ◌+◌, ◌^◌, ◌<◌, ◌≡◌, refl, Bool, true, Option, none, some, is_some, arith,
}
use scheduler_library.Upstream.{Upstream}
use scheduler_library.Upstream.Laws.{View, Laws, StatusLaws}
use scheduler_library.Scheduler.Returns.{ScoreLaws}
use scheduler_library.Scheduler.Returns.Fits.{CountLaws}
use scheduler_library.Snapshot.Schedule.{Scheduled, values, schedule_pods}
use scheduler_library.Snapshot.Schedule.Loop.{values-Avoids, length-values}
use scheduler_library.Snapshot.Schedule.Returns.{AllFiltered, schedule_seq-returns}
use scheduler_library.Snapshot.Template.Fresh.{Below, schedule_pods_by_template-returns}
use scheduler_library.Snapshot.Feasible.{Feasibility}
use scheduler_library.Snapshot.Feasible.Returns.{can_schedule_pod-returns}
use scheduler_library.Snapshot.Preempt.Rollback.{preempt_pods-IsPreempted}
use scheduler_library.Session.{
  Call, schedules, templates, asks, preempts, unpreempts, Session, step_call, registered, Separate,
  keep_scheduled, keep_feasible,
}

module _ {U : Upstream} (V : View U) (L : Laws V) (S : StatusLaws U) (C : CountLaws U)
    (R : ScoreLaws U) (P : ℕ → Bool) where
  keep_scheduled-returns :
      (s : Session U) (o : Option (Scheduled U))
      → is_some o ≡ true
      → is_some (keep_scheduled U s o) ≡ true
  keep_scheduled-returns s none e = e
  keep_scheduled-returns s (some r) e = refl

  keep_feasible-returns :
      (s : Session U) (o : Option (Feasibility U))
      → is_some o ≡ true
      → is_some (keep_feasible U s o) ≡ true
  keep_feasible-returns s none e = e
  keep_feasible-returns s (some r) e = refl

  pub step_call-returns :
      (low : ℕ) (c : Call U) (s : Session U)
      → Below P low
      → low ≤ s.snapshot.world.next_pod
      → AllFiltered U s.snapshot.profiles
      → Separate U P c
      → s.snapshot.undo_log.state_version + registered U c s < 2 ^ 64
      → is_some (step_call U c s) ≡ true
  unfolding step_call schedule_pods
  step_call-returns low (schedules rs pl o) s known l h free b = keep_scheduled-returns s _ (
      schedule_seq-returns V L S C R P 0 (values U rs) pl o s.snapshot h (omega arith)
        (values-Avoids V L S P rs free) (omega (arith, length-values U rs, b)))
  step_call-returns low (templates t pl m o) s known l h free b =
      keep_scheduled-returns s _
        (schedule_pods_by_template-returns V L S P low known C R t pl m o s.snapshot h l b)
  step_call-returns low (asks r pl) s known l h free b =
      keep_feasible-returns s _ (can_schedule_pod-returns C r pl s.snapshot h)
  step_call-returns low (preempts rs) s known l h pinned b =
      let (r, e, d) = preempt_pods-IsPreempted V L P rs s.snapshot pinned b in rw e refl
  step_call-returns low (unpreempts i) s known l h free b = refl
