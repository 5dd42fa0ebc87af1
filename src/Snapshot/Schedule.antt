-- ===== src/Snapshot/Schedule.antt =====
-- `SchedulePods`, `schedulePods`, and `scheduleOnePod` of helpers.go.
pub mod Attempted
pub mod Loop
pub mod Rollback
pub mod DryRun
pub mod Expiry
pub mod OwnPod
pub mod Report
pub mod Returns
pub mod Closures
use scheduler_library.Base.{
  ℕ, Bool, true, false, not, ◌&&◌, ◌||◌, Option, none, some, List, [], ◌∷◌, ◌++◌, ◌==◌, succ64,
  is_some, is_empty, if◌then◌else◌,
}
use scheduler_library.Upstream.{Upstream, Placement, Error, wrap, Result, ok, err}
use scheduler_library.World.{World, Undo, set_node_name}
use scheduler_library.Profiles.{ProfileMap, framework_for_pod}
use scheduler_library.Scheduler.Types.{Scheduler, new_scheduler, PendingPod, AlgorithmResult}
use scheduler_library.Scheduler.Attempt.{Attempt, schedule_pod}
use scheduler_library.Snapshot.Types.{
  ClusterSnapshot, SchedulePodsOptions, SchedulingResult, scheduling_result, register, restore,
  bump_preemption,
}

module _ (U : Upstream) where
  open U use {kinds, Env, CycleRef}

  -- `iter.Seq[*v1.Pod]`: each entry gives the next pod pointer, and may allocate it.
  abbrev pub Seq : Type 0
  Seq = List (World U → ℕ × World U)

  -- `slices.Values`
  abbrev pub values : List ℕ → Seq
  values [] = []
  values (r ∷ rs) = (λ w. (r, w)) ∷ values rs

  -- `cycleState`, with a second cycle state as that of its pod group.
  abbrev pub new_cycle : World U → CycleRef × World U
  new_cycle w =
      let (cs, e1) = U.new_cycle_state w.env in
      let (group, e2) = U.new_cycle_state e1 in
      (cs, record w { env = U.set_pod_group_cycle e2 cs group })

  pub record OnePod : Type 0 where
    pub result : Result kinds (AlgorithmResult U × Option (Undo U))
    pub world : World U

  -- A scheduling failure comes with no revert function.
  abbrev pub one_pod_of : Option (Attempt U) → Option OnePod
  one_pod_of none = none
  one_pod_of (some (r, undo, w)) =
      some (record { result = ok (r, if U.is_success r.status then undo else none); world = w })

  unfoldable pub schedule_one_pod : ProfileMap U → Scheduler → ℕ → World U → Option OnePod
  schedule_one_pod profiles s r w = elim (framework_for_pod U profiles (w.pods r)) [
    | err e ↦ some (record { result = err (wrap "failed to get framework for pod" e); world = w })
    | ok f ↦
        let (cs, w') = new_cycle w in
        elim (U.pod_terms (w.pods r)) [
          | err e ↦
              some
                (record { result = err (wrap "failed to create pod info for pod" e); world = w' })
          | ok t ↦
              let p : PendingPod U = record {
                pod_ref = r;
                pod_info = record { pod = w.pods r; terms = t };
                signature = U.empty_signature;
                cycle_state = cs;
              } in
              one_pod_of (schedule_pod U s f p w')
        ]
  ]

  -- What the method returns, and the snapshot it leaves.
  pub record Scheduled : Type 0 where
    pub results : List (SchedulingResult U)
    pub error : Option (Error kinds)
    pub snapshot : ClusterSnapshot U

  -- What the loop does with the result of one pod, up to the test of `StopOnFailure`.
  unfoldable pub record_result :
      ℕ → AlgorithmResult U → Option (Undo U) → World U → ClusterSnapshot U → ClusterSnapshot U
  record_result r res undo w s =
      let w' =
        if U.is_success res.status
        then set_node_name U w r res.schedule_result.suggested_host
        else w in
      register U undo (record s { world = w' })

  -- The rest of the loop's body, and of the loop, once the attempt for pod `r` has returned.
  unfoldable pub after_one :
      SchedulePodsOptions
      → ℕ
      → List (SchedulingResult U)
      → ClusterSnapshot U
      → (List (SchedulingResult U) → ClusterSnapshot U → Option Scheduled)
      → Option OnePod
      → Option Scheduled
  after_one o r results s go none = none
  after_one o r results s go (some one) = elim one.result [
    | err e ↦
        some
          (record { results = results; error = some e; snapshot = record s { world = one.world } })
    | ok (res, undo) ↦
        let s' = record_result r res undo one.world s in
        let results' = results ++ (scheduling_result U res ∷ []) in
        elim (not (U.is_success res.status) && o.stop_on_failure) [
          | true ↦ some (record { results = results'; error = none; snapshot = s' })
          | false ↦ go results' s'
        ]
  ]

  unfoldable pub schedule_loop :
      SchedulePodsOptions
      → ℕ
      → Seq
      → List (SchedulingResult U)
      → ClusterSnapshot U
      → Option Scheduled
  schedule_loop o cycle [] results s =
      some (record { results = results; error = none; snapshot = s })
  schedule_loop o cycle (next ∷ pods) results s =
      let (r, w) = next s.world in
      after_one o r results s (schedule_loop o (succ64 cycle) pods)
        (schedule_one_pod s.profiles (new_scheduler cycle 0 1) r w)

  abbrev pub bump_if_changed : ℕ → ClusterSnapshot U → ClusterSnapshot U
  bump_if_changed v s = if v == s.undo_log.state_version then s else bump_preemption U s

  -- The first deferred function, which runs last.
  unfoldable pub finish_schedule : Bool → ℕ → Scheduled → Option Scheduled
  finish_schedule dry v r =
      if is_some r.error || dry
      then elim (restore U v r.snapshot) [
        | none ↦ none
        | some s ↦ some (record r { snapshot = bump_if_changed v s })
      ]
      else some (record r { snapshot = bump_if_changed v r.snapshot })

  abbrev pub set_snap : U.Snap → ClusterSnapshot U → ClusterSnapshot U
  set_snap sn s = record s { world = record (s.world) { snap = sn } }

  -- The deferred `ForgetPlacement`, which runs before it.
  abbrev pub forget : Option Scheduled → Option Scheduled
  forget none = none
  forget (some r) =
      some (record r { snapshot = set_snap (U.forget_placement r.snapshot.world.snap) r.snapshot })

  abbrev pub and_finish : Bool → ℕ → Option Scheduled → Option Scheduled
  and_finish dry v none = none
  and_finish dry v (some r) = finish_schedule dry v r

  unfoldable pub schedule_seq :
      Seq → Option (Placement kinds) → SchedulePodsOptions → ClusterSnapshot U → Option Scheduled
  schedule_seq pods none o s = some (record { results = []; error = none; snapshot = s })
  schedule_seq pods (some pl) o s =
      if is_empty pl.nodes
      then some (record { results = []; error = none; snapshot = s })
      else (let (e, sn) = U.assume_placement s.world.snap pl in
          let s' = set_snap sn s in
          let v = s.undo_log.state_version in
          elim e [
            | some x ↦ finish_schedule o.dry_run v (record {
              results = [];
              error = some (wrap "error assuming placement" x);
              snapshot = s';
            })
            | none ↦ and_finish o.dry_run v (forget (schedule_loop o 0 pods [] s'))
          ])

  -- `SchedulePods`
  unfoldable pub schedule_pods :
      List ℕ → Option (Placement kinds) → SchedulePodsOptions → ClusterSnapshot U → Option Scheduled
  schedule_pods pods pl o s = schedule_seq (values pods) pl o s
