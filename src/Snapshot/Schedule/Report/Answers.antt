-- ===== src/Snapshot/Schedule/Report/Answers.antt =====
-- What `SchedulePods` returns, and what the caller's pods hold after it.
use mathlib.Core.Path.{subst}
use mathlib.Core.Bool.{true≢false, false≢true}
use scheduler_library.Base.{
  ℕ, ◌≡◌, refl, sym, ap, ◌∙◌, inl, inr, Bool, true, false, ◌||◌, Option, none, some, List, [], ◌∷◌,
  map, is_some, is_empty, ◌==◌, Bool-cases, Option-cases,
}
use scheduler_library.Upstream.{Upstream, Placement, Pod}
use scheduler_library.Trail.{OnReturn}
use scheduler_library.Scheduler.Filters.Sound.{All}
use scheduler_library.Snapshot.Types.{
  ClusterSnapshot, SchedulePodsOptions, SchedulingResult, restore,
}
use scheduler_library.World.{World}
use scheduler_library.Snapshot.Schedule.Closures.{KeepsPods, restore_pods}
use scheduler_library.Snapshot.Schedule.{
  Scheduled, bump_if_changed, set_snap, forget, and_finish, finish_schedule, schedule_seq,
  schedule_pods,
}
use scheduler_library.Snapshot.Schedule.Report.{
  Absent, Distinct, Reported, finished, stopped, reported, Named, Ran, schedule_loop-Ran,
}

module _ (U : Upstream) where
  open U use {kinds}

  -- What holds when the method returns: the writes are known if it is not rolled back.
  record Answered (o : SchedulePodsOptions) (rs : List ℕ) (s : ClusterSnapshot U) (r : Scheduled U)
      : Type 0 where
    pub reports : Reported U o.stop_on_failure rs r.results r.error
    pub others :
        (is_some r.error || o.dry_run) ≡ false
        → (q : ℕ) → Absent q rs
        → r.snapshot.world.pods q ≡ s.world.pods q
    pub names :
        (is_some r.error || o.dry_run) ≡ false
        → Distinct rs
        → All (Named U r.snapshot.world) r.results
    pub closed :
        All (KeepsPods U) s.undo_log.undo_operations
        → ((q : ℕ) → Absent q rs → r.snapshot.world.pods q ≡ s.world.pods q)
          × (Distinct rs → All (Named U r.snapshot.world) r.results)

  bump_world : (v : ℕ) (s : ClusterSnapshot U) → (bump_if_changed U v s).world ≡ s.world
  bump_world v s = elim (Bool-cases (v == s.undo_log.state_version)) [
    | inl q ↦ rw q refl
    | inr q ↦ rw q refl
  ]

  -- What the pods hold depends on the pods alone.
  moved_pods :
      (rs : List ℕ) (s : ClusterSnapshot U) (results : List (SchedulingResult U)) (w v : World U)
      → v.pods ≡ w.pods
      → ((q : ℕ) → Absent q rs → w.pods q ≡ s.world.pods q)
        × (Distinct rs → All (Named U w) results)
      → ((q : ℕ) → Absent q rs → v.pods q ≡ s.world.pods q)
        × (Distinct rs → All (Named U v) results)
  moved_pods rs s results w v e h = (
    (λ q a. ap (λ f. f q) e ∙ h.0 q a),
    λ d.
        subst
          (λ (ps : ℕ → Pod kinds).
            All
              (λ (res : SchedulingResult U).
                U.is_success res.status ≡ true
                → (ps res.pod).spec.node_name ≡ res.selected_node_name)
              results)
          (sym e) (h.1 d),
  )

  finish_schedule-Answered :
      (o : SchedulePodsOptions) (rs : List ℕ) (v : ℕ) (s : ClusterSnapshot U) (r : Scheduled U)
      → Answered o rs s r
      → (All (KeepsPods U) s.undo_log.undo_operations
          → All (KeepsPods U) r.snapshot.undo_log.undo_operations)
      → OnReturn (Answered o rs s) (finish_schedule U o.dry_run v r)
  unfolding finish_schedule
  finish_schedule-Answered o rs v s r h c = elim (Bool-cases (is_some r.error || o.dry_run)) [
    | inr q ↦
        rw (q, finish_schedule)
          (record {
            reports = h.reports;
            others = λ off q a. ap (λ w. w.pods q) (bump_world v r.snapshot) ∙ h.others off q a;
            names = λ off d.
                subst (λ w. All (Named U w) r.results) (sym (bump_world v r.snapshot))
                  (h.names off d);
            closed = λ k.
                moved_pods rs s r.results r.snapshot.world (bump_if_changed U v r.snapshot).world
                  (ap (λ w. w.pods) (bump_world v r.snapshot)) (h.closed k);
          })
    | inl q ↦ elim (Option-cases (restore U v r.snapshot)) [
      | inl q1 ↦ rw (q, finish_schedule, q1) tt
      | inr (t, q1) ↦
          rw (q, finish_schedule, q1)
            (record {
              reports = h.reports;
              others = λ off. absurd (true≢false (sym q ∙ off));
              names = λ off. absurd (true≢false (sym q ∙ off));
              closed = λ k.
                  moved_pods rs s r.results r.snapshot.world (bump_if_changed U v t).world
                    (ap (λ w. w.pods) (bump_world v t) ∙ restore_pods U v r.snapshot t (c k) q1)
                    (h.closed k);
            })
    ]
  ]

  answer :
      (o : SchedulePodsOptions) (rs : List ℕ) (s t : ClusterSnapshot U) (x : Option (Scheduled U))
      → t.world.pods ≡ s.world.pods
      → t.undo_log.undo_operations ≡ s.undo_log.undo_operations
      → OnReturn (Ran U o rs [] t) x
      → OnReturn (Answered o rs s) (and_finish U o.dry_run s.undo_log.state_version (forget U x))
  answer o rs s t none same logged h = tt
  answer o rs s t (some r) same logged h =
      finish_schedule-Answered o rs s.undo_log.state_version s _
        (record {
          reports =
              subst (λ x. Reported U o.stop_on_failure rs x r.error) (sym h.results) h.reports;
          others = λ off q a. h.others q a ∙ ap (λ f. f q) same;
          names = λ off d. subst (All (Named U r.snapshot.world)) (sym h.results) (h.names d);
          closed = λ k. (
            (λ q a. h.others q a ∙ ap (λ f. f q) same),
            λ d. subst (All (Named U r.snapshot.world)) (sym h.results) (h.names d),
          );
        })
        (λ k. h.closures (subst (All (KeepsPods U)) (sym logged) k))

  schedule_pods-Answered :
      (rs : List ℕ) (pl : Placement kinds) (o : SchedulePodsOptions) (s : ClusterSnapshot U)
      → is_empty pl.nodes ≡ false
      → (U.assume_placement s.world.snap pl).0 ≡ none
      → OnReturn (Answered o rs s) (schedule_pods U rs (some pl) o s)
  unfolding schedule_pods schedule_seq
  schedule_pods-Answered rs pl o s some_nodes placed =
      let t = set_snap U (U.assume_placement s.world.snap pl).1 s in
      rw (some_nodes, placed, schedule_seq)
        (answer o rs s t _ refl refl (schedule_loop-Ran U o 0 rs [] t))

  Reported-map :
      (rs : List ℕ) (results : List (SchedulingResult U))
      → Reported U false rs results none
      → map (λ (x : SchedulingResult U). x.pod) results ≡ rs
  Reported-map [] [] finished = refl
  Reported-map [] (res ∷ results) h = elim h [ ]
  Reported-map (_ ∷ rs) [] h = elim h [ ]
  Reported-map (_ ∷ rs) (res ∷ _) (stopped _ _ bad on) = absurd (false≢true on)
  Reported-map (_ ∷ rs) (res ∷ results) (reported _ on h) =
      ap (λ xs. res.pod ∷ xs) (Reported-map rs results h)

module _ (U : Upstream) where
  open U use {kinds}

  -- Let `SchedulePods` be given a placement with nodes, which the snapshot accepts. When it returns,
  -- its results are for the given pods in their order, one for each up to an error, which ends the
  -- call with no result for its pod. A result without success is the last one if the call is told to
  -- stop on a failure, and else does not stop it.
  pub schedule_pods-Reported :
      (rs : List ℕ) (pl : Placement kinds) (o : SchedulePodsOptions) (s : ClusterSnapshot U)
      (r : Scheduled U)
      → is_empty pl.nodes ≡ false
      → (U.assume_placement s.world.snap pl).0 ≡ none
      → schedule_pods U rs (some pl) o s ≡ some r
      → Reported U o.stop_on_failure rs r.results r.error
  schedule_pods-Reported rs pl o s r nodes placed ran =
      let h : Answered U o rs s r = rw ran at (schedule_pods-Answered U rs pl o s nodes placed) in
      h.reports

  -- Let `SchedulePods` be given a placement with nodes, which the snapshot accepts. When it returns
  -- without an error, and is not told to stop on a failure, there is exactly one result for each pod,
  -- in their order.
  pub schedule_pods_attempts_all :
      (rs : List ℕ) (pl : Placement kinds) (dry : Bool) (s : ClusterSnapshot U) (r : Scheduled U)
      → is_empty pl.nodes ≡ false
      → (U.assume_placement s.world.snap pl).0 ≡ none
      → schedule_pods U rs (some pl) (record { dry_run = dry; stop_on_failure = false }) s ≡ some r
      → r.error ≡ none
      → map (λ (x : SchedulingResult U). x.pod) r.results ≡ rs
  schedule_pods_attempts_all rs pl dry s r nodes placed ran fine = Reported-map U rs r.results (
      subst (Reported U false rs r.results) fine (
        schedule_pods-Reported rs pl (record { dry_run = dry; stop_on_failure = false }) s r nodes
          placed ran))

  -- Let `SchedulePods` be given pods, none of them twice, and a placement with nodes, which the
  -- snapshot accepts. When it returns without an error and is no dry run, the pod of each success has
  -- the selected node of its result as its `Spec.NodeName`, and every pod that was not given is as
  -- before the call.
  pub schedule_pods_writes :
      (rs : List ℕ) (pl : Placement kinds) (o : SchedulePodsOptions) (s : ClusterSnapshot U)
      (r : Scheduled U)
      → is_empty pl.nodes ≡ false
      → (U.assume_placement s.world.snap pl).0 ≡ none
      → schedule_pods U rs (some pl) o s ≡ some r
      → (is_some r.error || o.dry_run) ≡ false
      → Distinct rs
      → All (Named U r.snapshot.world) r.results
        × ((q : ℕ) → Absent q rs → r.snapshot.world.pods q ≡ s.world.pods q)
  schedule_pods_writes rs pl o s r nodes placed ran kept apart =
      let h : Answered U o rs s r = rw ran at (schedule_pods-Answered U rs pl o s nodes placed) in
      (h.names kept apart, h.others kept)

  -- Let `SchedulePods` be given pods, none of them twice, and a placement with nodes, which the
  -- snapshot accepts, and let the operations of the undo log leave the caller's pods alone. When it
  -- returns, be it from a dry run or with an error, the pod of each success has the selected node of
  -- its result as its `Spec.NodeName`, and every pod that was not given is as before the call: what is
  -- taken back at the end are the changes of the scheduler's snapshot only.
  pub schedule_pods_dry_writes :
      (rs : List ℕ) (pl : Placement kinds) (o : SchedulePodsOptions) (s : ClusterSnapshot U)
      (r : Scheduled U)
      → is_empty pl.nodes ≡ false
      → (U.assume_placement s.world.snap pl).0 ≡ none
      → schedule_pods U rs (some pl) o s ≡ some r
      → Distinct rs
      → All (KeepsPods U) s.undo_log.undo_operations
      → All (Named U r.snapshot.world) r.results
        × ((q : ℕ) → Absent q rs → r.snapshot.world.pods q ≡ s.world.pods q)
  schedule_pods_dry_writes rs pl o s r nodes placed ran apart closed =
      let h : Answered U o rs s r = rw ran at (schedule_pods-Answered U rs pl o s nodes placed) in
      let (others, names) = h.closed closed in (names apart, others)
