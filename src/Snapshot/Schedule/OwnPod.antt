-- ===== src/Snapshot/Schedule/OwnPod.antt =====
-- An attempt gives a result for its own pod, and writes to none of the caller's pods.
use scheduler_library.Snapshot.Schedule.Closures.{MayKeepPods}
use scheduler_library.Base.{
  ℕ, ◌∙◌, Bool, true, false, if◌then◌else◌, ◌≡◌, refl, inl, inr, Option, none, some, Bool-cases,
  Option-cases,
}
use scheduler_library.Upstream.{Upstream, Error, PodInfo, ok, err}
use scheduler_library.World.{World, Undo}
use scheduler_library.Trail.{OnReturn}
use scheduler_library.Upstream.Results.{Result-cases}
use scheduler_library.Profiles.{ProfileMap, framework_for_pod}
use scheduler_library.Scheduler.Types.{Scheduler, ScheduleResult, PendingPod, AlgorithmResult}
use scheduler_library.Scheduler.Attempt.{
  Attempt, Chosen, assume_and_reserve, assumed_pod_info, unreserve_and_forget, undo_schedule,
  outcome, place, attempt_with, select_host, schedule_pod,
}
use scheduler_library.Snapshot.Schedule.{OnePod, one_pod_of, new_cycle, schedule_one_pod}

module _ (U : Upstream) where
  open U use {kinds}

  pub data OneTried (r : ℕ) (w : World U) : OnePod U → Type 0 where
    refused :
        (e : Error kinds) (w' : World U)
        → w'.pods ≡ w.pods
        → OneTried r w (record { result = err e; world = w' })
    tried :
        (res : AlgorithmResult U) (undo : Option (Undo U)) (w' : World U)
        → w'.pods ≡ w.pods
        → res.pod ≡ r
        → MayKeepPods U undo
        → OneTried r w (record { result = ok (res, undo); world = w' })

  abbrev Own : ℕ → World U → Attempt U → Type 0
  Own r w a = (a.0.pod ≡ r) × (a.2.pods ≡ w.pods) × MayKeepPods U a.1

  assume_and_reserve_pods :
      (cs : U.CycleRef) (f : U.Framework) (pi : PodInfo kinds) (r : ScheduleResult) (w : World U)
      → (assume_and_reserve U cs f pi r w).2.pods ≡ w.pods
  unfolding assume_and_reserve unreserve_and_forget
  assume_and_reserve_pods cs f pi r w =
      let assumed = assumed_pod_info U w cs pi r.suggested_host in
      let (e, s) = U.assume_pod w.snap assumed in
      elim (Option-cases (U.assume_pod w.snap assumed).0) [
        | inr (x, q) ↦ rw (q, assume_and_reserve) refl
        | inl q ↦
            elim (Bool-cases
              (U.is_success (U.run_reserve s w.env f cs assumed.pod r.suggested_host).0)) [
                | inl q1 ↦ rw (q, assume_and_reserve, q1) refl
                | inr q1 ↦ rw (q, assume_and_reserve, q1) refl
              ]
      ]

  outcome-Own :
      (f : U.Framework) (p : PendingPod U) (r : ScheduleResult) (w : World U)
      (x : PodInfo kinds × U.Status × World U)
      → x.2.pods ≡ w.pods
      → Own p.pod_ref w (outcome U f p r x)
  unfolding undo_schedule unreserve_and_forget
  outcome-Own f p r w (pi, st, v) h = elim (Bool-cases (U.is_success st)) [
    | inl q ↦ rw q (refl, h, λ v. refl)
    | inr q ↦ rw q (refl, h, tt)
  ]

  attempt_with-Own :
      (f : U.Framework) (p : PendingPod U) (w : World U) (c : Option (Chosen U))
      → OnReturn (Own p.pod_ref w) (attempt_with U f p w c)
  unfolding place
  attempt_with-Own f p w none = tt
  attempt_with-Own f p w (some c) = elim (Result-cases c.result) [
    | inr (e, q) ↦ rw q (refl, refl, tt)
    | inl (r, q) ↦ rw q (
        outcome-Own f p r w _
          (assume_and_reserve_pods p.cycle_state f p.pod_info r (record w { env = c.env })))
  ]

  schedule_pod-Own :
      (s : Scheduler) (f : U.Framework) (p : PendingPod U) (w : World U)
      → OnReturn (Own p.pod_ref w) (schedule_pod U s f p w)
  unfolding schedule_pod
  schedule_pod-Own s f p w = attempt_with-Own f p w (select_host U w.snap w.env s f p)

  one_pod_of-OneTried :
      (r : ℕ) (w v : World U) (a : Option (Attempt U))
      → v.pods ≡ w.pods
      → OnReturn (Own r v) a
      → OnReturn (OneTried r w) (one_pod_of U a)
  one_pod_of-OneTried r w v none h p = tt
  one_pod_of-OneTried r w v (some (res, undo, x)) h p =
      tried res _ x (p.1 ∙ h) p.0 (kept (U.is_success res.status) undo p.2)
    where
      kept :
          (b : Bool) (o : Option (Undo U)) → MayKeepPods U o → MayKeepPods U (if b then o else none)
      kept true o m = m
      kept false o m = tt

  pub schedule_one_pod-OneTried :
      (profiles : ProfileMap U) (s : Scheduler) (r : ℕ) (w : World U)
      → OnReturn (OneTried r w) (schedule_one_pod U profiles s r w)
  unfolding schedule_one_pod
  schedule_one_pod-OneTried profiles s r w =
      elim (Result-cases (framework_for_pod U profiles (w.pods r))) [
        | inr (e, q) ↦ rw (q, schedule_one_pod) (refused _ w refl)
        | inl (f, q) ↦ elim (Result-cases (U.pod_terms (w.pods r))) [
          | inr (e, q1) ↦ rw (q, schedule_one_pod, q1) (refused _ (new_cycle U w).1 refl)
          | inl (t, q1) ↦
              rw (q, schedule_one_pod, q1)
                (one_pod_of-OneTried r w (new_cycle U w).1 _ refl (schedule_pod-Own s f _ _))
        ]
      ]
