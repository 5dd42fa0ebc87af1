-- ===== src/Snapshot/Schedule/DryRun.antt =====
-- What `SchedulePods` leaves behind when it is a dry run or fails.
use scheduler_library.Base.{
  ℕ, ◌+◌, ◌^◌, ◌<◌, ◌≡◌, Bool, true, ◌||◌, Option, some, List, length, is_some, arith,
}
use scheduler_library.Upstream.{Upstream, Placement}
use scheduler_library.Upstream.Laws.{View, Laws, StatusLaws}
use scheduler_library.Trail.{OnReturn}
use scheduler_library.Snapshot.Types.{ClusterSnapshot, SchedulePodsOptions}
use scheduler_library.Snapshot.Extends.{Unchanged}
use scheduler_library.Snapshot.Schedule.{schedule_pods, Scheduled, values}
use scheduler_library.Snapshot.Schedule.Rollback.{Finished, schedule_seq-Finished}
use scheduler_library.Snapshot.Schedule.Loop.{Unpinned, values-Avoids, length-values}

module _ {U : Upstream} (V : View U) (L : Laws V) (S : StatusLaws U) (P : ℕ → Bool) where
  open U use {kinds}

  pub schedule_pods-Finished :
      (rs : List ℕ) (pl : Option (Placement kinds)) (o : SchedulePodsOptions)
      (s : ClusterSnapshot U)
      → Unpinned P rs
      → s.undo_log.state_version + length rs < 2 ^ 64
      → OnReturn (Finished V L S P (length (values U rs)) o.dry_run s) (schedule_pods U rs pl o s)
  unfolding schedule_pods
  schedule_pods-Finished rs pl o s free b =
      schedule_seq-Finished V L S P 0 (values U rs) pl o s (omega arith)
        (values-Avoids V L S P rs free) (omega (arith, length-values U rs))

  -- When `SchedulePods` returns from a dry run, or returns an error, the undo log, the preemption
  -- version, the transaction flag and the profiles are as before the call, and so are the
  -- observations of the scheduler's snapshot and the pods that `P` pins. The pods to schedule are
  -- not pinned, and the version, which counts operations, has room for all of them.
  pub schedule_pods_rolls_back :
      (rs : List ℕ) (pl : Option (Placement kinds)) (o : SchedulePodsOptions)
      (s : ClusterSnapshot U) (r : Scheduled U)
      → Unpinned P rs
      → s.undo_log.state_version + length rs < 2 ^ 64
      → schedule_pods U rs pl o s ≡ some r
      → (is_some r.error || o.dry_run) ≡ true
      → Unchanged V P s r.snapshot
  schedule_pods_rolls_back rs pl o s r free b ran back =
      let f : Finished V L S P (length (values U rs)) o.dry_run s r =
        rw ran at (schedule_pods-Finished rs pl o s free b) in
      f.kept back
