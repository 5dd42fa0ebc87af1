-- ===== src/Session.antt =====
-- A client of the library: any sequence of calls of the simulation methods on one ClusterSnapshot,
-- whatever they return (the interface `Simulator` of pkg/simulator/simulator.go). The client keeps
-- the preemption handles that it was given.
pub mod Rollback
pub mod Returns
pub mod Events
use scheduler_library.Base.{
  ℕ, ◌+◌, ◌^◌, ◌<◌, Bool, Option, none, some, List, [], ◌∷◌, ◌++◌, length, get_elem?, set,
}
use scheduler_library.Upstream.{Upstream, Placement, Error, Result, ok, err}
use scheduler_library.Trail.{OnReturn}
use scheduler_library.Snapshot.Types.{
  ClusterSnapshot, Unpreemption, TransactionResult, SchedulePodsOptions, TemplateOptions,
}
use scheduler_library.Snapshot.Transaction.{TransactionFn}
use scheduler_library.Snapshot.Schedule.{schedule_pods, Scheduled}
use scheduler_library.Snapshot.Preempt.{preempt_pods, Preempted, unpreempt}
use scheduler_library.Snapshot.Preempt.Grown.{Pinned}
use scheduler_library.Snapshot.Schedule.Loop.{Unpinned}
use scheduler_library.Snapshot.Template.{PodTemplate, schedule_pods_by_template}
use scheduler_library.Snapshot.Feasible.{can_schedule_pod, Feasibility}

module _ (U : Upstream) where
  open U use {kinds}

  pub data Call : Type 0 where
    schedules : List ℕ → Option (Placement kinds) → SchedulePodsOptions → Call
    asks : ℕ → Option (Placement kinds) → Call
    templates : PodTemplate U → Option (Placement kinds) → ℕ → TemplateOptions → Call
    preempts : List ℕ → Call
    unpreempts : ℕ → Call

  pub record Session : Type 0 where
    pub snapshot : ClusterSnapshot U
    pub handles : List (Unpreemption U)

  abbrev pub keep_scheduled : Session → Option (Scheduled U) → Option Session
  keep_scheduled s none = none
  keep_scheduled s (some r) = some (record s { snapshot = r.snapshot })

  abbrev pub keep_feasible : Session → Option (Feasibility U) → Option Session
  keep_feasible s none = none
  keep_feasible s (some r) = some (record s { snapshot = r.snapshot })

  abbrev pub new_handles : Result kinds (Unpreemption U) → List (Unpreemption U)
  new_handles (err e) = []
  new_handles (ok u) = u ∷ []

  abbrev pub keep_preempted : Session → Option (Preempted U) → Option Session
  keep_preempted s none = none
  keep_preempted s (some r) =
      some (record { snapshot = r.snapshot; handles = s.handles ++ new_handles r.result })

  abbrev pub replaced : List (Unpreemption U) → ℕ → Option (Unpreemption U) → List (Unpreemption U)
  replaced hs i none = hs
  replaced hs i (some u) = set hs i u

  -- One call; the handle of a call is a position in the client's list, and nil out of it.
  unfoldable pub step_call : Call → Session → Option Session
  step_call (schedules rs pl o) s = keep_scheduled s (schedule_pods U rs pl o s.snapshot)
  step_call (templates t pl m o) s =
      keep_scheduled s (schedule_pods_by_template U t pl m o s.snapshot)
  step_call (asks r pl) s = keep_feasible s (can_schedule_pod U r pl s.snapshot)
  step_call (preempts rs) s = keep_preempted s (preempt_pods U rs s.snapshot)
  step_call (unpreempts i) s =
      let u = unpreempt U (get_elem? s.handles i) s.snapshot in
      some (record { snapshot = u.snapshot; handles = replaced s.handles i u.handle })

  unfoldable pub run_calls : List Call → Session → Option Session
  run_calls [] s = some s
  run_calls (c ∷ cs) s = elim (step_call c s) [ none ↦ none | some s' ↦ run_calls cs s' ]

  -- A transaction whose body makes the calls and then asks for `r` or fails with `e`.
  abbrev pub returning :
      TransactionResult
      → Option (Error kinds)
      → Option Session
      → Option (TransactionResult × Option (Error kinds) × ClusterSnapshot U)
  returning r e none = none
  returning r e (some s) = some (r, e, s.snapshot)

  abbrev pub body_of :
      List Call → List (Unpreemption U) → TransactionResult → Option (Error kinds) → TransactionFn U
  body_of cs hs r e s = returning r e (run_calls cs (record { snapshot = s; handles = hs }))

  -- The pods of a handle: putting them back registers at most one operation for each.
  abbrev pub pods_of : Option (Unpreemption U) → List ℕ
  pods_of none = []
  pods_of (some u) = u.pods

  -- How many operations a call registers at most.
  abbrev pub registered : Call → Session → ℕ
  registered (schedules rs pl o) s = length rs
  registered (templates t pl m o) s = m
  registered (asks r pl) s = 0
  registered (preempts rs) s = length rs
  registered (unpreempts i) s = length (pods_of (get_elem? s.handles i))

  -- The pods that are preempted are pinned, and those that are scheduled are not; those of a template
  -- are new.
  abbrev pub Separate : (ℕ → Bool) → Call → Type 0
  Separate P (schedules rs pl o) = Unpinned P rs
  Separate P (templates t pl m o) = Unit
  Separate P (asks r pl) = Unit
  Separate P (preempts rs) = Pinned P rs
  Separate P (unpreempts i) = Unit

  -- The version, which counts registered operations, does not wrap along the calls.
  abbrev pub Counts : List Call → Session → Type 0
  Counts [] s = Unit
  Counts (c ∷ cs) s =
      (s.snapshot.undo_log.state_version + registered c s < 2 ^ 64)
      × OnReturn (Counts cs) (step_call c s)

  abbrev pub AllSeparate : (ℕ → Bool) → List Call → Type 0
  AllSeparate P [] = Unit
  AllSeparate P (c ∷ cs) = Separate P c × AllSeparate P cs
