-- ===== src/Scheduler/Reverts.antt =====
-- A scheduling attempt either succeeds with a closure that leads back, or fails and changes nothing.
use scheduler_library.Base.{
  ℕ, ◌≡◌, refl, sym, ap, ◌∙◌, inl, inr, String, Bool, true, false, Option, none, some, arith,
  Bool-cases, Option-cases,
}
use scheduler_library.Upstream.{
  Upstream, Pod, PodInfo, Error, message, wrap, joined, no_nodes_available, fit_error, ok,
}
use scheduler_library.Upstream.Laws.{
  View, Same, Grows, Laws, StatusLaws, Same-refl, Grows-cong, Grows-cancel, Grows-count,
  Grows-record,
}
use scheduler_library.World.{World, Undo}
use scheduler_library.Upstream.Results.{Result-cases}
use scheduler_library.Trail.{SameWorld, SameWorld-trans, Undoes, Undoes-base, OnReturn}
use scheduler_library.Scheduler.Types.{Scheduler, ScheduleResult, PendingPod, AlgorithmResult}
use scheduler_library.Scheduler.Attempt.{
  assumed_pod_info, assume_and_reserve, unreserve_and_forget, undo_schedule, outcome, place,
  schedule_pod, Attempt, error_status, attempt_with, Chosen, reserve_failure,
}

module _ {U : Upstream} (S : StatusLaws U) where
  open U use {kinds}

  pub error_status_fails : (e : Error kinds) → U.is_success (error_status U e) ≡ false
  error_status_fails no_nodes_available = S.unresolvable_fails _
  error_status_fails (fit_error p n d) = S.unschedulable_fails _
  error_status_fails (message s) = S.as_status_fails _
  error_status_fails (wrap s e) = S.as_status_fails _
  error_status_fails (joined es) = S.as_status_fails _

module _ {U : Upstream} (V : View U) (L : Laws V) (S : StatusLaws U) (P : ℕ → Bool) where
  open U use {kinds, CycleRef, Framework}

  pub data Placed (w : World U) : Attempt U → Type 0 where
    fits :
        (res : AlgorithmResult U) (op : Undo U) {w' : World U}
        → U.is_success res.status ≡ true
        → Undoes V P w op w'
        → Placed w (res, some op, w')
    fails :
        (res : AlgorithmResult U) {w' : World U}
        → U.is_success res.status ≡ false
        → SameWorld V P w w'
        → Placed w (res, none, w')

  forget_back :
      (a : U.Snap) (t v : U.Snap) (p : Pod kinds) {k : String}
      → U.get_pod_key p ≡ ok k
      → Grows V 1 p.spec.node_name k a t
      → Same V t v
      → Same V a (U.forget_pod v p).1
  forget_back a t v p {k} key grown same =
      let up : Grows V 1 p.spec.node_name k a v = Grows-cong V (Same-refl V a) same grown in
      Grows-cancel V up (
        L.forget_shrinks v k p key (omega (arith, Grows-count V up))
          (omega (arith, Grows-record V up)))

  reserve_failure_fails :
      (pi : PodInfo kinds) (host : String) (st : U.Status)
      → U.is_success st ≡ false
      → U.is_success (reserve_failure U pi host st) ≡ false
  reserve_failure_fails pi host st h = elim (Bool-cases (U.is_rejected st)) [
    | inl q ↦ rw q (S.rejected_fails st _ q)
    | inr q ↦ rw q h
  ]

  -- What `assumeAndReserve` comes to.
  data Reserved (w : World U) : PodInfo kinds × U.Status × World U → Type 0 where
    kept :
        (pi : PodInfo kinds) (st : U.Status) {k : String} {w' : World U}
        → U.is_success st ≡ true
        → U.get_pod_key pi.pod ≡ ok k
        → Grows V 1 pi.pod.spec.node_name k w.snap w'.snap
        → w'.pods ≡ w.pods
        → w'.next_pod ≡ w.next_pod
        → Reserved w (pi, st, w')
    dropped :
        (pi : PodInfo kinds) (st : U.Status) {w' : World U}
        → U.is_success st ≡ false
        → SameWorld V P w w'
        → Reserved w (pi, st, w')

  same_pods :
      {w w' : World U}
      → Same V w.snap w'.snap
      → w'.pods ≡ w.pods
      → w'.next_pod ≡ w.next_pod
      → SameWorld V P w w'
  same_pods h e n = record {
    snaps = h;
    pods = λ r _. ap (λ q. q r) (sym e);
    next = omega (arith, n);
  }

  assume_and_reserve-Reserved :
      (cs : CycleRef) (f : Framework) (pi : PodInfo kinds) (r : ScheduleResult) (w : World U)
      → Reserved w (assume_and_reserve U cs f pi r w)
  unfolding assume_and_reserve unreserve_and_forget
  assume_and_reserve-Reserved cs f pi r w = elim (Option-cases call.0) [
    | inr (x, q) ↦
        rw (q, assume_and_reserve)
          (dropped assumed _ (S.as_status_fails x)
            (same_pods (L.assume_failed w.snap call.1 x assumed (λ i. (q i, call.1))) refl refl))
    | inl q ↦
        let (k, key) = L.assume_key w.snap call.1 assumed (λ i. (q i, call.1)) in
        let grown = L.assume_grows w.snap call.1 k assumed key (λ i. (q i, call.1)) in
        elim (Bool-cases (U.is_success reserve.0)) [
          | inl g ↦
              rw (q, assume_and_reserve, g) (kept assumed _ S.nil_succeeds key grown refl refl)
          | inr b ↦
              rw (q, assume_and_reserve, b)
                (dropped assumed _ (reserve_failure_fails pi r.suggested_host _ b) (
                  same_pods
                    (forget_back w.snap call.1 call.1 assumed.pod key grown (Same-refl V call.1))
                    refl refl))
        ]
  ]
    where
      assumed : PodInfo kinds
      assumed = assumed_pod_info U w cs pi r.suggested_host

      call : Option (Error kinds) × U.Snap
      call = U.assume_pod w.snap assumed

      reserve : U.Status × U.Env
      reserve = U.run_reserve call.1 w.env f cs assumed.pod r.suggested_host

  outcome-Placed :
      (f : Framework) (p : PendingPod U) (r : ScheduleResult) (w : World U)
      {x : PodInfo kinds × U.Status × World U}
      → Reserved w x
      → Placed w (outcome U f p r x)
  unfolding undo_schedule
  outcome-Placed f p r w (kept pi st good key grown same n) = rw good (
      fits _ _ S.nil_succeeds (record {
        back = λ v g. record {
          snaps = forget_back w.snap _ v.snap pi.pod key grown g.snaps;
          pods = λ q h. ap (λ (ps : ℕ → Pod kinds). ps q) (sym same) ∙ g.pods q h;
          next = omega (arith, n, g.next);
        };
        next = omega (arith, n);
      }))
  outcome-Placed f p r w (dropped pi st bad same) = rw bad (fails _ bad same)

  Placed-base : {a b : World U} {x : Attempt U} → SameWorld V P a b → Placed b x → Placed a x
  Placed-base h (fits res op s u) = fits res op s (Undoes-base V P h u)
  Placed-base h (fails res s g) = fails res s (SameWorld-trans V P h g)

  same_env : (w : World U) (e : U.Env) → SameWorld V P w (record w { env = e })
  same_env w e = record { snaps = Same-refl V w.snap; pods = λ r h. refl; next = omega arith }

  attempt_with-Placed :
      (f : Framework) (p : PendingPod U) (w : World U) (c : Option (Chosen U))
      → OnReturn (Placed w) (attempt_with U f p w c)
  unfolding place
  attempt_with-Placed f p w none = tt
  attempt_with-Placed f p w (some c) = elim (Result-cases c.result) [
    | inr (e, q) ↦ rw q (fails _ (error_status_fails S e) (same_env w c.env))
    | inl (r, q) ↦ rw q (
        Placed-base (same_env w c.env)
          (outcome-Placed f p r _ (assume_and_reserve-Reserved p.cycle_state f p.pod_info r _)))
  ]

  pub schedule_pod-Placed :
      (s : Scheduler) (f : Framework) (p : PendingPod U) (w : World U)
      → OnReturn (Placed w) (schedule_pod U s f p w)
  unfolding schedule_pod
  schedule_pod-Placed s f p w = attempt_with-Placed f p w _

  -- When `SchedulePod` returns an attempt, either its status is a success and it comes with a revert
  -- function that leads back to a world with the same observations and pinned pods, or its status is
  -- not a success, there is no revert function, and nothing of that has changed.
  pub schedule_pod_reverts :
      (s : Scheduler) (f : Framework) (p : PendingPod U) (w : World U) (a : Attempt U)
      → schedule_pod U s f p w ≡ some a
      → Placed w a
  schedule_pod_reverts s f p w a ran = rw ran at (schedule_pod-Placed s f p w)
