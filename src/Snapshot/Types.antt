-- ===== src/Snapshot/Types.antt =====
-- `ClusterSnapshot` and the types of pkg/upstreamsync/snapshot/types.go. A method returns its
-- results and the new snapshot; a panic is `none`.
use scheduler_library.Base.{ℕ, String, Bool, false, Option, none, some, List, succ64}
use scheduler_library.Upstream.{Upstream}
use scheduler_library.World.{World, Undo}
use scheduler_library.UndoLog.{UndoLog, empty_log, register_operation, restore_state}
use scheduler_library.Profiles.{ProfileMap}
use scheduler_library.Scheduler.Types.{AlgorithmResult}

pub data TransactionResult : Type 0 where
  commit revert : TransactionResult

-- `SchedulePodsOptions`, with the options that it embeds.
pub record SchedulePodsOptions : Type 0 where
  pub dry_run : Bool
  pub stop_on_failure : Bool

-- `SchedulePodsByTemplateOptions`
pub record TemplateOptions : Type 0 where
  pub dry_run : Bool

abbrev pub new_schedule_pods_options : Bool → Bool → SchedulePodsOptions
new_schedule_pods_options d s = record { dry_run = d; stop_on_failure = s }

abbrev pub new_template_options : Bool → TemplateOptions
new_template_options d = record { dry_run = d }

module _ (U : Upstream) where
  pub record SchedulingResult : Type 0 where
    pub pod : ℕ
    pub status : U.Status
    pub selected_node_name : String

  -- `revertFn` is `revert_preemption` on `tracker` and `pods` (Snapshot/Preempt).
  pub record Unpreemption : Type 0 where
    pub pods : List ℕ
    pub tracker : ℕ
    pub reverted : Bool
    pub valid_preemption_version : ℕ

  pub record ClusterSnapshot : Type 0 where
    pub profiles : ProfileMap U
    pub world : World U
    pub undo_log : UndoLog (World U)
    pub transaction_in_progress : Bool
    pub preemption_version : ℕ

  abbrev pub new : World U → ProfileMap U → ClusterSnapshot
  new w profiles = record {
    profiles = profiles;
    world = w;
    undo_log = empty_log;
    transaction_in_progress = false;
    preemption_version = 0;
  }

  -- `s.undoLog.registerOperation(f)`
  abbrev pub register : Option (Undo U) → ClusterSnapshot → ClusterSnapshot
  register f s = record s { undo_log = register_operation s.undo_log f }

  -- `s.undoLog.restoreState(v)`
  unfoldable pub restore : ℕ → ClusterSnapshot → Option ClusterSnapshot
  restore v s = elim (restore_state v s.undo_log s.world) [
    | none ↦ none
    | some (ul, w) ↦ some (record s { undo_log = ul; world = w })
  ]

  -- `s.stateVersionForPreemption++`
  abbrev pub bump_preemption : ClusterSnapshot → ClusterSnapshot
  bump_preemption s = record s { preemption_version = succ64 s.preemption_version }

  -- `schedulingResult`
  abbrev pub scheduling_result : AlgorithmResult U → SchedulingResult
  scheduling_result r = record {
    pod = r.pod;
    status = r.status;
    selected_node_name = r.schedule_result.suggested_host;
  }
