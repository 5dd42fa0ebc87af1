-- ===== src/Snapshot/Schedule/Expiry.antt =====
-- When `SchedulePods` makes the handles of earlier preemptions invalid.
use scheduler_library.Base.{
  ℕ, ◌≡◌, refl, ap, inl, inr, Bool, true, false, not, ◌&&◌, ◌||◌, Option, none, some, List, [], ◌∷◌,
  is_some, is_empty, succ64, ◌==◌, arith, Bool-cases, Option-cases, if◌then◌else◌,
}
use scheduler_library.Upstream.{Upstream, Placement}
use scheduler_library.Upstream.Results.{Result-cases}
use scheduler_library.Trail.{OnReturn}
use scheduler_library.UndoLog.{restore_state}
use scheduler_library.Snapshot.Types.{
  ClusterSnapshot, SchedulePodsOptions, SchedulingResult, Unpreemption, restore,
}
use scheduler_library.Snapshot.Schedule.{
  Seq, values, OnePod, Scheduled, record_result, after_one, schedule_loop, bump_if_changed,
  finish_schedule, set_snap, forget, and_finish, schedule_seq, schedule_pods,
}
use scheduler_library.Snapshot.Preempt.{unpreempt}
use scheduler_library.Snapshot.Preempt.Expiry.{Rejected, stale-Rejected, succ64_moves}

module _ (U : Upstream) where
  open U use {kinds}

  abbrev Keeps : ℕ → Scheduled U → Type 0
  Keeps p r = r.snapshot.preemption_version ≡ p

  abbrev Loop : Type 0
  Loop = List (SchedulingResult U) → ClusterSnapshot U → Option (Scheduled U)

  after_one-Keeps :
      (o : SchedulePodsOptions) (r : ℕ) (before : List (SchedulingResult U)) (s : ClusterSnapshot U)
      (go : Loop) (one : Option (OnePod U))
      → ((acc : List (SchedulingResult U)) (t : ClusterSnapshot U)
          → OnReturn (Keeps t.preemption_version) (go acc t))
      → OnReturn (Keeps s.preemption_version) (after_one U o r before s go one)
  unfolding after_one record_result
  after_one-Keeps o r before s go none h = tt
  after_one-Keeps o r before s go (some one) h = elim (Result-cases one.result) [
    | inr (e, q) ↦ rw (q, after_one) refl
    | inl ((res, undo), q) ↦
        elim (Bool-cases (not (U.is_success res.status) && o.stop_on_failure)) [
          | inl q1 ↦ rw (q, after_one, q1) refl
          | inr q1 ↦ rw (q, after_one, q1) (h _ (record_result U r res undo one.world s))
        ]
  ]

  schedule_loop-Keeps :
      (o : SchedulePodsOptions) (cycle : ℕ) (pods : Seq U) (before : List (SchedulingResult U))
      (s : ClusterSnapshot U)
      → OnReturn (Keeps s.preemption_version) (schedule_loop U o cycle pods before s)
  unfolding schedule_loop
  schedule_loop-Keeps o cycle [] before s = refl
  schedule_loop-Keeps o cycle (next ∷ pods) before s =
      let (r, w) = next s.world in
      after_one-Keeps o r before s (schedule_loop U o (succ64 cycle) pods) _
        (schedule_loop-Keeps o (succ64 cycle) pods)

  -- The preemption version is raised exactly if the undo log's version is another one than `v`.
  abbrev Counted : ℕ → ℕ → ClusterSnapshot U → Type 0
  Counted v p t = t.preemption_version ≡ (if v == t.undo_log.state_version then p else succ64 p)

  bump-Counted :
      (v p : ℕ) (t : ClusterSnapshot U)
      → t.preemption_version ≡ p
      → Counted v p (bump_if_changed U v t)
  bump-Counted v p t h = elim (Bool-cases (v == t.undo_log.state_version)) [
    | inl q ↦ rw q (rw q h)
    | inr q ↦ rw q (rw q (ap succ64 h))
  ]

  finish_schedule-Counted :
      (dry : Bool) (v p : ℕ) (r : Scheduled U)
      → Keeps p r
      → OnReturn (λ (x : Scheduled U). Counted v p x.snapshot) (finish_schedule U dry v r)
  unfolding finish_schedule restore
  finish_schedule-Counted dry v p r h = elim (Bool-cases (is_some r.error || dry)) [
    | inr q ↦ rw (q, finish_schedule) (bump-Counted v p r.snapshot h)
    | inl q ↦ elim (Option-cases (restore_state v r.snapshot.undo_log r.snapshot.world)) [
      | inl q1 ↦ rw (q, finish_schedule, q1) tt
      | inr ((ul, w), q1) ↦
          rw (q, finish_schedule, q1)
            (bump-Counted v p (record (r.snapshot) { undo_log = ul; world = w }) h)
    ]
  ]

  forgotten-Counted :
      (dry : Bool) (v p : ℕ) (x : Option (Scheduled U))
      → OnReturn (Keeps p) x
      → OnReturn (λ (x : Scheduled U). Counted v p x.snapshot) (and_finish U dry v (forget U x))
  forgotten-Counted dry v p none h = tt
  forgotten-Counted dry v p (some r) h = finish_schedule-Counted dry v p _ h

  unchanged-Counted :
      (s : ClusterSnapshot U) → Counted s.undo_log.state_version s.preemption_version s
  unchanged-Counted s =
      let v = s.undo_log.state_version in let same : (v == v) ≡ true = ground arith in rw same refl

  schedule_seq-Counted :
      (pods : Seq U) (pl : Option (Placement kinds)) (o : SchedulePodsOptions)
      (s : ClusterSnapshot U)
      → OnReturn
          (λ (x : Scheduled U). Counted s.undo_log.state_version s.preemption_version x.snapshot)
          (schedule_seq U pods pl o s)
  unfolding schedule_seq
  schedule_seq-Counted pods none o s = unchanged-Counted s
  schedule_seq-Counted pods (some pl) o s = elim (Bool-cases (is_empty pl.nodes)) [
    | inl q ↦ rw q (unchanged-Counted s)
    | inr q ↦ elim (Option-cases (U.assume_placement s.world.snap pl).0) [
      | inr (e, q1) ↦
          rw (q, q1, schedule_seq) (finish_schedule-Counted o.dry_run _ s.preemption_version _ refl)
      | inl q1 ↦
          rw (q, q1, schedule_seq)
            (forgotten-Counted o.dry_run _ s.preemption_version _ (
              schedule_loop-Keeps o 0 pods []
                (set_snap U (U.assume_placement s.world.snap pl).1 s)))
    ]
  ]

module _ (U : Upstream) where
  open U use {kinds}

  -- When `SchedulePods` returns and leaves another version of the undo log than before, which it does
  -- when it keeps a pod that it has scheduled, then a preemption handle that was valid before the call
  -- is rejected after it: `Unpreempt` fails and leaves the snapshot alone.
  pub schedule_pods_expires :
      (pods : List ℕ) (pl : Option (Placement kinds)) (o : SchedulePodsOptions)
      (s : ClusterSnapshot U) (r : Scheduled U) (u : Unpreemption U)
      → schedule_pods U pods pl o s ≡ some r
      → (s.undo_log.state_version == r.snapshot.undo_log.state_version) ≡ false
      → u.valid_preemption_version ≡ s.preemption_version
      → Rejected U r.snapshot (unpreempt U (some u) r.snapshot)
  unfolding schedule_pods
  schedule_pods_expires pods pl o s r u ran moved valid =
      let counted : r.snapshot.preemption_version ≡ (
          if s.undo_log.state_version == r.snapshot.undo_log.state_version
          then s.preemption_version
          else succ64 s.preemption_version) =
        rw ran at (schedule_seq-Counted U (values U pods) pl o s) in
      let raised : r.snapshot.preemption_version ≡ succ64 s.preemption_version =
        rw moved at counted in
      stale-Rejected U u r.snapshot (rw (raised, valid) (succ64_moves U s.preemption_version))
