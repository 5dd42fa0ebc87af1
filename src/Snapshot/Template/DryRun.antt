-- ===== src/Snapshot/Template/DryRun.antt =====
-- What `SchedulePodsByTemplate` leaves behind when it is a dry run or fails.
use scheduler_library.Base.{ℕ, ◌+◌, ◌^◌, ◌<◌, ◌≡◌, Bool, true, ◌||◌, Option, some, is_some, arith}
use scheduler_library.Upstream.{Upstream, Placement}
use scheduler_library.Upstream.Laws.{View, Laws, StatusLaws}
use scheduler_library.Snapshot.Types.{ClusterSnapshot, TemplateOptions}
use scheduler_library.Snapshot.Extends.{Unchanged}
use scheduler_library.Snapshot.Schedule.{Scheduled}
use scheduler_library.Snapshot.Schedule.Rollback.{Finished}
use scheduler_library.Snapshot.Template.{PodTemplate, schedule_pods_by_template}
use scheduler_library.Snapshot.Template.Fresh.{Below, schedule_pods_by_template-Finished}

module _ {U : Upstream} (V : View U) (L : Laws V) (S : StatusLaws U) (P : ℕ → Bool) where
  open U use {kinds}

  -- When `SchedulePodsByTemplate` returns from a dry run, or returns an error, the undo log, the
  -- preemption version, the transaction flag and the profiles are as before the call, and so are
  -- the observations of the scheduler's snapshot and the pods that `P` pins. The pinned pods are
  -- among those allocated before the call, and the version, which counts operations, has room for
  -- as many pods as the call asks for.
  pub schedule_pods_by_template_rolls_back :
      (t : PodTemplate U) (pl : Option (Placement kinds)) (m : ℕ) (o : TemplateOptions)
      (s : ClusterSnapshot U) (r : Scheduled U)
      → Below P s.world.next_pod
      → s.undo_log.state_version + m < 2 ^ 64
      → schedule_pods_by_template U t pl m o s ≡ some r
      → (is_some r.error || o.dry_run) ≡ true
      → Unchanged V P s r.snapshot
  schedule_pods_by_template_rolls_back t pl m o s r known b ran back =
      let f : Finished V L S P m o.dry_run s r = rw ran at (
        schedule_pods_by_template-Finished V L S P s.world.next_pod known t pl m o s (omega arith)
          b) in
      f.kept back
