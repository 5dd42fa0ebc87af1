-- ===== src/Snapshot/Template/Bound.antt =====
-- How many results `SchedulePodsByTemplate` gives.
use mathlib.Core.Path.{subst}
use scheduler_library.Base.{
  ℕ, zero, suc, ◌+◌, ◌≤◌, ◌≡◌, refl, sym, ap, ◌∙◌, inl, inr, Bool, true, ◌||◌, Option, none, some,
  List, [], ◌∷◌, ◌++◌, length, append_assoc, append-nil, is_some, is_empty, ◌==◌, succ64, arith,
  Bool-cases, Option-cases,
}
use scheduler_library.Upstream.{Upstream, Placement}
use scheduler_library.Upstream.Results.{Result-cases}
use scheduler_library.Trail.{OnReturn}
use scheduler_library.Snapshot.Types.{
  ClusterSnapshot, SchedulePodsOptions, TemplateOptions, SchedulingResult, scheduling_result,
  restore,
}
use scheduler_library.Snapshot.Schedule.{
  Seq, OnePod, Scheduled, after_one, schedule_loop, forget, and_finish, finish_schedule,
  schedule_seq,
}
use scheduler_library.Snapshot.Template.{PodTemplate, template_pods, schedule_pods_by_template}

module _ (U : Upstream) where
  open U use {kinds}

  abbrev pub AllButLast : List (SchedulingResult U) → Type 0
  AllButLast [] = Unit
  AllButLast (x ∷ []) = Unit
  AllButLast (x ∷ y ∷ ys) = (U.is_success x.status ≡ true) × AllButLast (y ∷ ys)

  AllButLast-cons :
      (x : SchedulingResult U) (xs : List (SchedulingResult U))
      → U.is_success x.status ≡ true
      → AllButLast xs
      → AllButLast (x ∷ xs)
  AllButLast-cons x [] good h = tt
  AllButLast-cons x (y ∷ ys) good h = (good, h)

  record Counted (n : ℕ) (before : List (SchedulingResult U)) (r : Scheduled U) : Type 0 where
    pub tail : List (SchedulingResult U)
    pub results : r.results ≡ before ++ tail
    pub most : length tail ≤ n
    pub good : AllButLast tail

  abbrev Loop : Type 0
  Loop = List (SchedulingResult U) → ClusterSnapshot U → Option (Scheduled U)

  then-Counted :
      (n : ℕ) (before : List (SchedulingResult U)) (x : SchedulingResult U)
      (o : Option (Scheduled U))
      → U.is_success x.status ≡ true
      → OnReturn (Counted n (before ++ (x ∷ []))) o
      → OnReturn (Counted (suc n) before) o
  then-Counted n before x none good h = tt
  then-Counted n before x (some r) good h = record {
    tail = x ∷ h.tail;
    results = h.results ∙ append_assoc before (x ∷ []) h.tail;
    most = omega (arith, h.most);
    good = AllButLast-cons x h.tail good h.good;
  }

  after_one-Counted :
      (o : SchedulePodsOptions) (n r : ℕ) (before : List (SchedulingResult U))
      (s : ClusterSnapshot U) (go : Loop) (one : Option (OnePod U))
      → o.stop_on_failure ≡ true
      → ((acc : List (SchedulingResult U)) (t : ClusterSnapshot U)
          → OnReturn (Counted n acc) (go acc t))
      → OnReturn (Counted (suc n) before) (after_one U o r before s go one)
  unfolding after_one
  after_one-Counted o n r before s go none stop h = tt
  after_one-Counted o n r before s go (some one) stop h = elim (Result-cases one.result) [
    | inr (e, q) ↦
        rw (q, after_one)
          (record { tail = []; results = sym (append-nil before); most = omega arith; good = tt })
    | inl ((res, undo), q) ↦ elim (Bool-cases (U.is_success res.status)) [
      | inl good ↦
          rw (q, after_one, good) (then-Counted n before (scheduling_result U res) _ good (h _ _))
      | inr bad ↦
          rw (q, after_one, bad, stop)
            (record {
              tail = scheduling_result U res ∷ [];
              results = refl;
              most = omega arith;
              good = tt;
            })
    ]
  ]

  schedule_loop-Counted :
      (o : SchedulePodsOptions) (cycle : ℕ) (pods : Seq U) (before : List (SchedulingResult U))
      (s : ClusterSnapshot U)
      → o.stop_on_failure ≡ true
      → OnReturn (Counted (length pods) before) (schedule_loop U o cycle pods before s)
  unfolding schedule_loop
  schedule_loop-Counted o cycle [] before s stop = record {
    tail = [];
    results = sym (append-nil before);
    most = omega arith;
    good = tt;
  }
  schedule_loop-Counted o cycle (next ∷ pods) before s stop =
      let (r, w) = next s.world in
      after_one-Counted o (length pods) r before s (schedule_loop U o (succ64 cycle) pods) _ stop
        (λ acc t. schedule_loop-Counted o (succ64 cycle) pods acc t stop)

  abbrev Within : ℕ → List (SchedulingResult U) → Type 0
  Within n results = (length results ≤ n) × AllButLast results

  finish_schedule-Within :
      (n : ℕ) (dry : Bool) (v : ℕ) (r : Scheduled U)
      → Within n r.results
      → OnReturn (λ (x : Scheduled U). Within n x.results) (finish_schedule U dry v r)
  unfolding finish_schedule
  finish_schedule-Within n dry v r h = elim (Bool-cases (is_some r.error || dry)) [
    | inr q ↦ rw (q, finish_schedule) h
    | inl q ↦ elim (Option-cases (restore U v r.snapshot)) [
      | inl q1 ↦ rw (q, finish_schedule, q1) tt
      | inr (t, q1) ↦ rw (q, finish_schedule, q1) h
    ]
  ]

  finished-Within :
      (n : ℕ) (dry : Bool) (v : ℕ) (x : Option (Scheduled U))
      → OnReturn (Counted n []) x
      → OnReturn (λ (x : Scheduled U). Within n x.results) (and_finish U dry v (forget U x))
  finished-Within n dry v none h = tt
  finished-Within n dry v (some r) h =
      finish_schedule-Within n dry v _ (subst (Within n) (sym h.results) (h.most, h.good))

  schedule_seq-Within :
      (pods : Seq U) (pl : Option (Placement kinds)) (dry : Bool) (s : ClusterSnapshot U)
      → OnReturn
          (λ (x : Scheduled U). Within (length pods) x.results)
          (schedule_seq U pods pl (record { dry_run = dry; stop_on_failure = true }) s)
  unfolding schedule_seq
  schedule_seq-Within pods none dry s = (omega arith, tt)
  schedule_seq-Within pods (some pl) dry s = elim (Bool-cases (is_empty pl.nodes)) [
    | inl q ↦ rw q (omega arith, tt)
    | inr q ↦ elim (Option-cases (U.assume_placement s.world.snap pl).0) [
      | inr (e, q1) ↦
          rw (q, q1, schedule_seq)
            (finish_schedule-Within (length pods) dry s.undo_log.state_version _ (omega arith, tt))
      | inl q1 ↦
          rw (q, q1, schedule_seq)
            (finished-Within (length pods) dry s.undo_log.state_version _
              (schedule_loop-Counted _ 0 pods [] _ refl))
    ]
  ]

  pub length-template_pods : (t : PodTemplate U) (i n : ℕ) → length (template_pods U t i n) ≡ n
  unfolding template_pods
  length-template_pods t i zero = refl
  length-template_pods t i (suc n) = ap suc (length-template_pods t (i + 1) n)

  by_template-Within :
      (t : PodTemplate U) (pl : Option (Placement kinds)) (max_pods : ℕ) (o : TemplateOptions)
      (s : ClusterSnapshot U)
      → OnReturn
          (λ (x : Scheduled U). Within max_pods x.results)
          (schedule_pods_by_template U t pl max_pods o s)
  unfolding schedule_pods_by_template
  by_template-Within t pl max_pods o s = elim (Bool-cases (max_pods == 0)) [
    | inl q ↦ rw q (omega arith, tt)
    | inr q ↦
        let pods = template_pods U t 0 max_pods in
        rw q (
          subst
            (λ n.
              OnReturn (λ (x : Scheduled U). Within n x.results)
                (schedule_seq U pods pl (record { dry_run = o.dry_run; stop_on_failure = true }) s))
            (length-template_pods t 0 max_pods) (schedule_seq-Within pods pl o.dry_run s))
  ]

module _ (U : Upstream) where
  open U use {kinds}

  -- `SchedulePodsByTemplate`, when it returns, gives at most `maxPods` results, and all of them but
  -- the last one are successes.
  pub schedule_pods_by_template_bounded :
      (t : PodTemplate U) (pl : Option (Placement kinds)) (max_pods : ℕ) (o : TemplateOptions)
      (s : ClusterSnapshot U) (r : Scheduled U)
      → schedule_pods_by_template U t pl max_pods o s ≡ some r
      → (length r.results ≤ max_pods) × AllButLast U r.results
  schedule_pods_by_template_bounded t pl max_pods o s r ran =
      rw ran at (by_template-Within U t pl max_pods o s)
