-- ===== src/Snapshot/Schedule/Attempted.antt =====
-- One pod of the loop of `schedulePods`: the attempt, and what is registered for it.
use scheduler_library.Base.{
  ℕ, ◌+◌, ◌^◌, ◌<◌, ◌≡◌, refl, ◌⊎◌, inl, inr, String, Bool, true, false, Option, none, some, arith,
  Bool-cases, ◌==◌,
}
use scheduler_library.Upstream.{Upstream, Error, ok, err}
use scheduler_library.Upstream.Laws.{View, Laws, StatusLaws, Same-refl}
use scheduler_library.Upstream.Results.{Result-cases}
use scheduler_library.World.{World, Undo, set_node_name}
use scheduler_library.UndoLog.{register_operation}
use scheduler_library.Trail.{
  SameWorld, SameWorld-refl, SameWorld-trans, Undoes, Undoes-base, Undoes-same, OnReturn,
}
use scheduler_library.Profiles.{ProfileMap, framework_for_pod}
use scheduler_library.Scheduler.Types.{Scheduler, AlgorithmResult}
use scheduler_library.Scheduler.Attempt.{Attempt}
use scheduler_library.Scheduler.Reverts.{Placed, fits, fails, schedule_pod-Placed}
use scheduler_library.Snapshot.Types.{ClusterSnapshot}
use scheduler_library.Snapshot.Extends.{ExtendsBy, same-ExtendsBy, register-ExtendsBy, Frame}
use scheduler_library.Snapshot.Schedule.{
  OnePod, one_pod_of, new_cycle, schedule_one_pod, record_result,
}

module _ {U : Upstream} (V : View U) (L : Laws V) (S : StatusLaws U) (P : ℕ → Bool) where
  open U use {kinds}

  pub data OnePlaced (w : World U) : OnePod U → Type 0 where
    refused :
        (e : Error kinds) {w' : World U}
        → SameWorld V P w w'
        → OnePlaced w (record { result = err e; world = w' })
    scheduled :
        (res : AlgorithmResult U) (op : Undo U) {w' : World U}
        → U.is_success res.status ≡ true
        → Undoes V P w op w'
        → OnePlaced w (record { result = ok (res, some op); world = w' })
    rejected :
        (res : AlgorithmResult U) {w' : World U}
        → U.is_success res.status ≡ false
        → SameWorld V P w w'
        → OnePlaced w (record { result = ok (res, none); world = w' })

  one_pod_of-OnePlaced :
      {v w : World U}
      → SameWorld V P v w
      → (a : Option (Attempt U)) → OnReturn (Placed V L S P w) a
      → OnReturn (OnePlaced v) (one_pod_of U a)
  one_pod_of-OnePlaced h none p = tt
  one_pod_of-OnePlaced h (some _) (fits res op good u) =
      rw good (scheduled res op good (Undoes-base V P h u))
  one_pod_of-OnePlaced h (some _) (fails res bad g) =
      rw bad (rejected res bad (SameWorld-trans V P h g))

  new_cycle_same : (w : World U) → SameWorld V P w (new_cycle U w).1
  new_cycle_same w = record { snaps = Same-refl V w.snap; pods = λ r h. refl; next = omega arith }

  pub schedule_one_pod-OnePlaced :
      (profiles : ProfileMap U) (s : Scheduler) (r : ℕ) (w : World U)
      → OnReturn (OnePlaced w) (schedule_one_pod U profiles s r w)
  unfolding schedule_one_pod
  schedule_one_pod-OnePlaced profiles s r w =
      elim (Result-cases (framework_for_pod U profiles (w.pods r))) [
        | inr (e, q) ↦ rw (q, schedule_one_pod) (refused _ (SameWorld-refl V P w))
        | inl (f, q) ↦ elim (Result-cases (U.pod_terms (w.pods r))) [
          | inr (e, q1) ↦ rw (q, schedule_one_pod, q1) (refused _ (new_cycle_same w))
          | inl (t, q1) ↦
              rw (q, schedule_one_pod, q1)
                (one_pod_of-OnePlaced (new_cycle_same w) _ (schedule_pod-Placed V L S P s f _ _))
        ]
      ]

  -- Writing the node name of a pod that is not pinned.
  set_node_name_same :
      (w : World U) (r : ℕ) (host : String)
      → P r ≡ false
      → SameWorld V P w (set_node_name U w r host)
  set_node_name_same w r host free = record {
    snaps = Same-refl V w.snap;
    pods = λ q h. untouched q h (Bool-cases (r == q));
    next = omega arith;
  }
    where
      untouched :
          (q : ℕ)
          → P q ≡ true
          → ((r == q) ≡ true) ⊎ ((r == q) ≡ false)
          → w.pods q ≡ (set_node_name U w r host).pods q
      untouched q h (inl e) = let same : r ≡ q = ground arith in cc
      untouched q h (inr e) = rw e refl

  -- Registering under a step that happened before the closure's own.
  pub record_result-ExtendsBy :
      (r : ℕ) (res : AlgorithmResult U) (undo : Option (Undo U)) (w : World U)
      (s : ClusterSnapshot U)
      → P r ≡ false
      → s.undo_log.state_version + 1 < 2 ^ 64
      → OnePlaced s.world (record { result = ok (res, undo); world = w })
      → ExtendsBy V P 1 s (record_result U r res undo w s)
  unfolding record_result register_operation
  record_result-ExtendsBy r res undo w s free b (scheduled _ op good u) = rw good (
      register-ExtendsBy V P op refl
        (Undoes-same V P (set_node_name_same w r res.schedule_result.suggested_host free) u) b)
  record_result-ExtendsBy r res undo w s free b (rejected _ bad g) =
      rw bad (same-ExtendsBy V P refl g)

  pub record_result-Frame :
      (r : ℕ) (res : AlgorithmResult U) (undo : Option (Undo U)) (w : World U)
      (s : ClusterSnapshot U)
      → Frame s (record_result U r res undo w s)
  unfolding record_result
  record_result-Frame r res undo w s = record { profiles = refl; flag = refl; preemption = refl }

  pub OnePlaced-base :
      {v w : World U} (o : Option (OnePod U))
      → SameWorld V P v w
      → OnReturn (OnePlaced w) o
      → OnReturn (OnePlaced v) o
  OnePlaced-base none h p = tt
  OnePlaced-base (some _) h (refused e g) = refused e (SameWorld-trans V P h g)
  OnePlaced-base (some _) h (scheduled res op good u) = scheduled res op good (Undoes-base V P h u)
  OnePlaced-base (some _) h (rejected res bad g) = rejected res bad (SameWorld-trans V P h g)
