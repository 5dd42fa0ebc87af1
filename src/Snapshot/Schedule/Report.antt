-- ===== src/Snapshot/Schedule/Report.antt =====
-- What `SchedulePods` reports of its pods, and what it writes to them.
pub mod Answers
use mathlib.Core.Path.{subst}
use mathlib.Core.Bool.{true≢false}
use scheduler_library.Base.{
  ℕ, ◌+◌, ◌≡◌, refl, sym, ap, ◌∙◌, ◌⊎◌, inl, inr, String, Bool, true, false, not, ◌&&◌, ◌||◌,
  Option, none, some, List, [], ◌∷◌, ◌++◌, map, length, append_assoc, append-nil, is_some, is_empty,
  ◌==◌, succ64, arith, Bool-cases, Option-cases, if◌then◌else◌,
}
use scheduler_library.Upstream.{Upstream, Error, Placement, ok, err}
use scheduler_library.World.{World, Undo, set_node_name}
use scheduler_library.Trail.{OnReturn}
use scheduler_library.Scheduler.Types.{AlgorithmResult, new_scheduler}
use scheduler_library.Scheduler.Filters.Sound.{All}
use scheduler_library.Snapshot.Types.{
  ClusterSnapshot, SchedulePodsOptions, SchedulingResult, scheduling_result, restore,
}
use scheduler_library.UndoLog.{register_operation}
use scheduler_library.Snapshot.Schedule.Closures.{KeepsPods, MayKeepPods}
use scheduler_library.Snapshot.Schedule.{
  values, OnePod, schedule_one_pod, Scheduled, record_result, after_one, schedule_loop,
  bump_if_changed, set_snap, forget, and_finish, finish_schedule, schedule_seq, schedule_pods,
}
use scheduler_library.Snapshot.Schedule.OwnPod.{OneTried, refused, tried, schedule_one_pod-OneTried}

-- A pod is not in a list, and no pod is twice in a list.
abbrev pub Absent : ℕ → List ℕ → Type 0
Absent q [] = Unit
Absent q (r ∷ rs) = ((r == q) ≡ false) × Absent q rs

abbrev pub Distinct : List ℕ → Type 0
Distinct [] = Unit
Distinct (r ∷ rs) = Absent r rs × Distinct rs

module _ (U : Upstream) where
  open U use {kinds}

  -- One result for each pod, in order, up to an error, and up to the first failure if that stops
  -- the call.
  pub data Reported (stop : Bool)
      : List ℕ → List (SchedulingResult U) → Option (Error kinds) → Type 0 where
    finished : Reported stop [] [] none
    failed : (r : ℕ) (rs : List ℕ) (e : Error kinds) → Reported stop (r ∷ rs) [] (some e)
    stopped :
        (rs : List ℕ) (res : SchedulingResult U)
        → U.is_success res.status ≡ false
        → stop ≡ true
        → Reported stop (res.pod ∷ rs) (res ∷ []) none
    reported :
        {rs : List ℕ} {results : List (SchedulingResult U)} {e : Option (Error kinds)}
        (res : SchedulingResult U)
        → (not (U.is_success res.status) && stop) ≡ false
        → Reported stop rs results e
        → Reported stop (res.pod ∷ rs) (res ∷ results) e

  -- The pod of a success names the selected node.
  abbrev pub Named : World U → SchedulingResult U → Type 0
  Named w res =
      U.is_success res.status ≡ true → (w.pods res.pod).spec.node_name ≡ res.selected_node_name

  pub record Ran (o : SchedulePodsOptions) (rs : List ℕ) (before : List (SchedulingResult U))
      (s : ClusterSnapshot U) (r : Scheduled U) : Type 0 where
    pub tail : List (SchedulingResult U)
    pub results : r.results ≡ before ++ tail
    pub reports : Reported o.stop_on_failure rs tail r.error
    pub others : (q : ℕ) → Absent q rs → r.snapshot.world.pods q ≡ s.world.pods q
    pub names : Distinct rs → All (Named r.snapshot.world) tail
    pub closures :
        All (KeepsPods U) s.undo_log.undo_operations
        → All (KeepsPods U) r.snapshot.undo_log.undo_operations

  record_result_others :
      (r q : ℕ) (res : AlgorithmResult U) (undo : Option (Undo U)) (w : World U)
      (s : ClusterSnapshot U)
      → (r == q) ≡ false
      → (record_result U r res undo w s).world.pods q ≡ w.pods q
  unfolding record_result
  record_result_others r q res undo w s h = elim (Bool-cases (U.is_success res.status)) [
    | inl e ↦ rw (e, h) refl
    | inr e ↦ rw e refl
  ]

  record_result_names :
      (r : ℕ) (res : AlgorithmResult U) (undo : Option (Undo U)) (w : World U)
      (s : ClusterSnapshot U)
      → U.is_success res.status ≡ true
      → ((record_result U r res undo w s).world.pods r).spec.node_name
        ≡ res.schedule_result.suggested_host
  unfolding record_result
  record_result_names r res undo w s h =
      let same : (r == r) ≡ true = ground arith in rw (h, same) refl

  record_result_closures :
      (r : ℕ) (res : AlgorithmResult U) (undo : Option (Undo U)) (w : World U)
      (s : ClusterSnapshot U)
      → MayKeepPods U undo
      → All (KeepsPods U) s.undo_log.undo_operations
      → All (KeepsPods U) (record_result U r res undo w s).undo_log.undo_operations
  unfolding record_result register_operation
  record_result_closures r res none w s m h = h
  record_result_closures r res (some op) w s m h = (m, h)

  abbrev Loop : Type 0
  Loop = List (SchedulingResult U) → ClusterSnapshot U → Option (Scheduled U)

  -- The pod's result, and then those of the rest of the loop.
  then-Ran :
      (o : SchedulePodsOptions) (rs : List ℕ) (before : List (SchedulingResult U))
      (s : ClusterSnapshot U) (res : AlgorithmResult U) (undo : Option (Undo U)) (w : World U)
      (r : Scheduled U)
      → w.pods ≡ s.world.pods
      → (not (U.is_success res.status) && o.stop_on_failure) ≡ false
      → MayKeepPods U undo
      → Ran o rs (before ++ (scheduling_result U res ∷ [])) (record_result U res.pod res undo w s) r
      → Ran o (res.pod ∷ rs) before s r
  then-Ran o rs before s res undo w r same on m h = record {
    tail = scheduling_result U res ∷ h.tail;
    results = h.results ∙ append_assoc before (scheduling_result U res ∷ []) h.tail;
    reports = reported (scheduling_result U res) on h.reports;
    others = λ q a.
        h.others q a.1 ∙ record_result_others res.pod q res undo w s a.0 ∙ ap (λ f. f q) same;
    names = λ d. (
      (λ good.
          ap (λ p. p.spec.node_name) (h.others res.pod d.0)
          ∙ record_result_names res.pod res undo w s good),
      h.names d.1,
    );
    closures = λ c. h.closures (record_result_closures res.pod res undo w s m c);
  }

  stop-Ran :
      (o : SchedulePodsOptions) (rs : List ℕ) (before : List (SchedulingResult U))
      (s : ClusterSnapshot U) (res : AlgorithmResult U) (undo : Option (Undo U)) (w : World U)
      → w.pods ≡ s.world.pods
      → (not (U.is_success res.status) && o.stop_on_failure) ≡ true
      → MayKeepPods U undo
      → Ran o (res.pod ∷ rs) before s (record {
        results = before ++ (scheduling_result U res ∷ []);
        error = none;
        snapshot = record_result U res.pod res undo w s;
      })
  stop-Ran o rs before s res undo w same off m = record {
    tail = scheduling_result U res ∷ [];
    results = refl;
    reports = stopped rs (scheduling_result U res) (ground arith) (ground arith);
    others = λ q a. record_result_others res.pod q res undo w s a.0 ∙ ap (λ f. f q) same;
    names = λ d. ((λ good. record_result_names res.pod res undo w s good), tt);
    closures = record_result_closures res.pod res undo w s m;
  }

  after_one-Ran :
      (o : SchedulePodsOptions) (rs : List ℕ) (before : List (SchedulingResult U))
      (s : ClusterSnapshot U) (go : Loop) (r : ℕ) (one : Option (OnePod U))
      → ((acc : List (SchedulingResult U)) (t : ClusterSnapshot U)
          → OnReturn (Ran o rs acc t) (go acc t))
      → OnReturn (OneTried U r s.world) one
      → OnReturn (Ran o (r ∷ rs) before s) (after_one U o r before s go one)
  unfolding after_one
  after_one-Ran o rs before s go r none h p = tt
  after_one-Ran o rs before s go r (some _) h (refused e w same) = record {
    tail = [];
    results = sym (append-nil before);
    reports = failed r rs e;
    others = λ q a. ap (λ f. f q) same;
    names = λ d. tt;
    closures = λ c. c;
  }
  after_one-Ran o rs before s go r (some _) h (tried res undo w same own m) =
      subst
        (λ i.
          OnReturn (Ran o (i ∷ rs) before s)
            (after_one U o i before s go (some (record { result = ok (res, undo); world = w }))))
        own
        (elim (Bool-cases (not (U.is_success res.status) && o.stop_on_failure)) [
          | inl q ↦ rw (q, after_one) (stop-Ran o rs before s res undo w same q m)
          | inr q ↦ rw (q, after_one) (goes q _ (h _ _))
        ])
    where
      goes :
          (not (U.is_success res.status) && o.stop_on_failure) ≡ false
          → (x : Option (Scheduled U))
          → OnReturn
              (Ran o rs
                (before ++ (scheduling_result U res ∷ []))
                (record_result U res.pod res undo w s))
              x
          → OnReturn (Ran o (res.pod ∷ rs) before s) x
      goes q none g = tt
      goes q (some r) g = then-Ran o rs before s res undo w r same q m g

  pub schedule_loop-Ran :
      (o : SchedulePodsOptions) (cycle : ℕ) (rs : List ℕ) (before : List (SchedulingResult U))
      (s : ClusterSnapshot U)
      → OnReturn (Ran o rs before s) (schedule_loop U o cycle (values U rs) before s)
  unfolding schedule_loop
  schedule_loop-Ran o cycle [] before s = record {
    tail = [];
    results = sym (append-nil before);
    reports = finished;
    others = λ q a. refl;
    names = λ d. tt;
    closures = λ c. c;
  }
  schedule_loop-Ran o cycle (r ∷ rs) before s =
      after_one-Ran o rs before s (schedule_loop U o (succ64 cycle) (values U rs)) r _
        (schedule_loop-Ran o (succ64 cycle) rs)
        (schedule_one_pod-OneTried U s.profiles (new_scheduler cycle 0 1) r s.world)
