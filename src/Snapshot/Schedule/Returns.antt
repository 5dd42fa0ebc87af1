-- ===== src/Snapshot/Schedule/Returns.antt =====
-- `SchedulePods` and `SchedulePodsByTemplate` return, and so does an attempt inside them.
use mathlib.Core.Path.{subst, ap, ◌∙◌}
use mathlib.Core.Option.{some-injective, none-ne-some}
use scheduler_library.Base.{
  ◌≤◌, if◌then◌else◌, ℕ, ◌+◌, ◌^◌, ◌<◌, ◌≡◌, refl, inl, inr, String, Bool, true, not, ◌&&◌, Option,
  none, some, List, [], ◌∷◌, length, lookup, str_eq, succ64, is_some, is_some-some, is_empty, arith,
  Bool-cases, Option-cases,
}
use scheduler_library.Upstream.{Upstream, Pod, Placement, Error, ok, wrap}
use scheduler_library.Upstream.Laws.{View, Laws, StatusLaws}
use scheduler_library.World.{World}
use scheduler_library.Upstream.Results.{Result-cases, ok-injective, err-ne-ok}
use scheduler_library.Trail.{SameWorld, OnReturn}
use scheduler_library.Profiles.{ProfileMap, framework_for_pod, default_scheduler_name}
use scheduler_library.Scheduler.Types.{Scheduler, PendingPod, new_scheduler}
use scheduler_library.Scheduler.Filters.Sound.{All}
use scheduler_library.Scheduler.Returns.{ScoreLaws, schedule_pod-returns}
use scheduler_library.Scheduler.Returns.Fits.{CountLaws}
use scheduler_library.Snapshot.Types.{ClusterSnapshot, SchedulePodsOptions, SchedulingResult}
use scheduler_library.Snapshot.Extends.{same-ExtendsBy}
use scheduler_library.Snapshot.Schedule.{
  Seq, OnePod, schedule_one_pod, record_result, after_one, schedule_loop, schedule_seq, Scheduled,
  set_snap, new_cycle, and_finish, forget,
}
use scheduler_library.Snapshot.Schedule.Loop.{Avoids, Looped, schedule_loop-Looped}
use scheduler_library.Snapshot.Schedule.Rollback.{finish_schedule-Finished, Looped-placement}

-- Every profile has filter plugins.
abbrev pub AllFiltered : (U : Upstream) → ProfileMap U → Type 0
AllFiltered U = All (λ e. U.has_filter_plugins e.1 ≡ true)

module _ (U : Upstream) where
  open U use {kinds, Framework}

  lookup-All :
      (name : String) (f : Framework) (profiles : ProfileMap U)
      → AllFiltered U profiles
      → lookup name profiles ≡ some f
      → U.has_filter_plugins f ≡ true
  lookup-All name f [] h e = absurd (none-ne-some _ e)
  lookup-All name f ((n, g) ∷ profiles) h e = elim (Bool-cases (str_eq n name)) [
    | inl q ↦ subst (λ x. U.has_filter_plugins x ≡ true) (some-injective _ _ (rw q at e)) h.0
    | inr q ↦ lookup-All name f profiles h.1 (rw q at e)
  ]

  pub framework_for_pod-filtered :
      (profiles : ProfileMap U) (pod : Pod kinds) (f : Framework)
      → AllFiltered U profiles
      → framework_for_pod U profiles pod ≡ ok f
      → U.has_filter_plugins f ≡ true
  unfolding framework_for_pod
  framework_for_pod-filtered profiles pod f h e = elim (Option-cases (lookup name profiles)) [
    | inl q ↦ absurd (err-ne-ok (rw (q, framework_for_pod) at e))
    | inr (g, q) ↦
        lookup-All name f profiles h (q ∙ ap some (ok-injective (rw (q, framework_for_pod) at e)))
  ]
    where
      name : String
      name =
          if str_eq pod.spec.scheduler_name ""
          then default_scheduler_name U
          else pod.spec.scheduler_name

module _ {U : Upstream} (C : CountLaws U) (R : ScoreLaws U) where
  open U use {kinds}

  schedule_one_pod-returns :
      (profiles : ProfileMap U) (s : Scheduler) (r : ℕ) (w : World U)
      → AllFiltered U profiles
      → s.num_nodes_to_find < 2 ^ 31
      → is_some (schedule_one_pod U profiles s r w) ≡ true
  unfolding schedule_one_pod
  schedule_one_pod-returns profiles s r w h few =
      elim (Result-cases (framework_for_pod U profiles (w.pods r))) [
        | inr (e, q) ↦ rw (q, schedule_one_pod) refl
        | inl (f, q) ↦ elim (Result-cases (U.pod_terms (w.pods r))) [
          | inr (e, q1) ↦ rw (q, schedule_one_pod, q1) refl
          | inl (t, q1) ↦
              let (cs, w') = new_cycle U w in
              let p : PendingPod U = record {
                pod_ref = r;
                pod_info = record { pod = w.pods r; terms = t };
                signature = U.empty_signature;
                cycle_state = cs;
              } in
              let has = framework_for_pod-filtered U profiles (w.pods r) f h q in
              let (a, q2) = schedule_pod-returns C R f p has s w' few in
              rw (q, schedule_one_pod, q1, q2) refl
        ]
      ]

  abbrev GoesOn :
      ClusterSnapshot U
      → (List (SchedulingResult U) → ClusterSnapshot U → Option (Scheduled U))
      → Type 0
  GoesOn s go =
      (rs : List (SchedulingResult U)) (t : ClusterSnapshot U)
      → t.profiles ≡ s.profiles
      → is_some (go rs t) ≡ true

  after_one-returns :
      (o : SchedulePodsOptions) (r : ℕ) (rs : List (SchedulingResult U)) (s : ClusterSnapshot U)
      (go : List (SchedulingResult U) → ClusterSnapshot U → Option (Scheduled U)) (one : OnePod U)
      → GoesOn s go
      → is_some (after_one U o r rs s go (some one)) ≡ true
  unfolding after_one record_result
  after_one-returns o r rs s go one h = elim (Result-cases one.result) [
    | inr (e, q) ↦ rw (q, after_one) refl
    | inl (x, q) ↦ elim (Bool-cases (not (U.is_success x.0.status) && o.stop_on_failure)) [
      | inl q1 ↦ rw (q, after_one, q1) refl
      | inr q1 ↦ rw (q, after_one, q1) (h _ _ refl)
    ]
  ]

  schedule_loop-returns :
      (o : SchedulePodsOptions) (cycle : ℕ) (pods : Seq U) (rs : List (SchedulingResult U))
      (s : ClusterSnapshot U)
      → AllFiltered U s.profiles
      → is_some (schedule_loop U o cycle pods rs s) ≡ true
  unfolding schedule_loop
  schedule_loop-returns o cycle [] rs s h = refl
  schedule_loop-returns o cycle (next ∷ pods) rs s h =
      let (r, w) = next s.world in
      let (one, q) =
        is_some-some (schedule_one_pod U s.profiles (new_scheduler cycle 0 1) r w)
          (schedule_one_pod-returns s.profiles (new_scheduler cycle 0 1) r w h (omega arith)) in
      rw (q, schedule_loop)
        (after_one-returns o r rs s (schedule_loop U o (succ64 cycle) pods) one
          (λ rs' t e. schedule_loop-returns o (succ64 cycle) pods rs' t (rw e h)))

module _ {U : Upstream} (V : View U) (L : Laws V) (S : StatusLaws U) (C : CountLaws U)
    (R : ScoreLaws U) (P : ℕ → Bool) where
  open U use {kinds}

  and_finish-returns :
      (n : ℕ) (dry : Bool) (s : ClusterSnapshot U) (o : Option (Scheduled U))
      → s.undo_log.state_version + n < 2 ^ 64
      → OnReturn (Looped V L S P n s) o
      → is_some o ≡ true
      → is_some (and_finish U dry s.undo_log.state_version o) ≡ true
  and_finish-returns n dry s none b h e = e
  and_finish-returns n dry s (some r) b h e =
      let (r', q, _, _, _) = finish_schedule-Finished V L S P n dry s r b h in ap is_some q

  forget-returns : (o : Option (Scheduled U)) → is_some o ≡ true → is_some (forget U o) ≡ true
  forget-returns none e = e
  forget-returns (some r) e = refl

  -- The method, on a sequence of pods that are not pinned, while the version does not wrap.
  pub schedule_seq-returns :
      (low : ℕ) (pods : Seq U) (pl : Option (Placement kinds)) (o : SchedulePodsOptions)
      (s : ClusterSnapshot U)
      → AllFiltered U s.profiles
      → low ≤ s.world.next_pod
      → Avoids V L S P low pods
      → s.undo_log.state_version + length pods < 2 ^ 64
      → is_some (schedule_seq U pods pl o s) ≡ true
  unfolding schedule_seq
  schedule_seq-returns low pods none o s h l a b = refl
  schedule_seq-returns low pods (some pl) o s h l a b = elim (Bool-cases (is_empty pl.nodes)) [
    | inl q ↦ rw (q, schedule_seq) refl
    | inr q ↦ elim (Option-cases call.0) [
      | inr (x, c) ↦
          rw (q, c, schedule_seq)
            (and_finish-returns (length pods) o.dry_run s
              (some (record {
                results = [];
                error = some (wrap "error assuming placement" x);
                snapshot = set_snap U call.1 s;
              }))
              b
              (record {
                grown = same-ExtendsBy V P refl placed;
                frame = record { profiles = refl; flag = refl; preemption = refl };
              })
              refl)
      | inl c ↦
          rw (q, c, schedule_seq)
            (and_finish-returns (length pods) o.dry_run s _ b
              (Looped-placement V L S P (length pods) s call.1 _ placed
                (schedule_loop-Looped V L S P o low 0 pods [] (set_snap U call.1 s) l a b))
              (forget-returns _ (schedule_loop-returns C R o 0 pods [] (set_snap U call.1 s) h)))
    ]
  ]
    where
      call : Option (Error kinds) × U.Snap
      call = U.assume_placement s.world.snap pl

      placed : SameWorld V P s.world (set_snap U call.1 s).world
      placed = record {
        snaps = L.assume_placement_same s.world.snap pl;
        pods = λ r _. refl;
        next = omega arith;
      }
