-- ===== src/Scheduler/Choice/Suggested.antt =====
-- `SchedulePod` on success: where the pod goes.
use mathlib.Core.Path.{subst}
use mathlib.Core.Bool.{false≢true}
use scheduler_library.Base.{◌≡◌, sym, ◌∙◌, inl, inr, true, Option, none, some, Bool-cases}
use scheduler_library.Upstream.{Upstream, PodInfo}
use scheduler_library.Upstream.Laws.{StatusLaws}
use scheduler_library.World.{World}
use scheduler_library.Upstream.Results.{Result-cases}
use scheduler_library.Scheduler.Filters.Sound.{Passes}
use scheduler_library.Trail.{OnReturn}
use scheduler_library.Scheduler.Types.{Scheduler, ScheduleResult, PendingPod}
use scheduler_library.Scheduler.Attempt.{
  Chosen, Attempt, attempt_with, place, outcome, schedule_pod,
}
use scheduler_library.Scheduler.Reverts.{error_status_fails}
use scheduler_library.Scheduler.Choice.{ChoiceLaws}
use scheduler_library.Scheduler.Choice.Host.{IsHost, OnHost, OkHost, select_host-OkHost}

module _ {U : Upstream} (S : StatusLaws U) {A : U.Node → Type 0} (w : World U)
    (L : ChoiceLaws U w.snap A) (f : U.Framework) (p : PendingPod U)
    (has : U.has_filter_plugins f ≡ true) where
  -- A successful status comes with a suggested host.
  abbrev Suggests : Attempt U → Type 0
  Suggests a = U.is_success a.0.status ≡ true → IsHost L f p has a.0.schedule_result.suggested_host

  outcome-Suggests :
      (r : ScheduleResult) (x : PodInfo U.kinds × U.Status × World U)
      → IsHost L f p has r.suggested_host
      → Suggests (outcome U f p r x)
  outcome-Suggests r (pi, st, v) h = elim (Bool-cases (U.is_success st)) [
    | inl q ↦ rw q (λ _. h)
    | inr q ↦ rw q (λ e. absurd (false≢true (sym q ∙ e)))
  ]

  attempt_with-Suggests :
      (v : World U) (c : Option (Chosen U))
      → OnReturn (OkHost L f p has) c
      → OnReturn Suggests (attempt_with U f p v c)
  unfolding place
  attempt_with-Suggests v none h = tt
  attempt_with-Suggests v (some c) h = elim (Result-cases c.result) [
    | inr (e, q) ↦ rw q (λ good. absurd (false≢true (sym (error_status_fails S e) ∙ good)))
    | inl (r, q) ↦ rw q (outcome-Suggests r _ (subst (OnHost L f p has) q h))
  ]

  -- When `SchedulePod` returns a success, and the profile has filter plugins, the suggested host is the
  -- name of a node of which `A` holds, as it does of the nodes of the placement, and which passes the
  -- filters in some state of the plugins, without an error. An extender is relied on to return some of
  -- the nodes that it is given, the score plugins to score them, and the heap to give one of them.
  pub schedule_pod_suggests :
      (s : Scheduler) (a : Attempt U)
      → schedule_pod U s f p w ≡ some a
      → U.is_success a.0.status ≡ true
      → (n : U.Node) × (U.node_name n ≡ a.0.schedule_result.suggested_host)
        × A n
        × ((env : U.Env) × Passes U (U.run_filter w.snap env f p.cycle_state p.pod_info.pod) n)
  unfolding schedule_pod
  schedule_pod_suggests s a ran good =
      let h : OnReturn Suggests (schedule_pod U s f p w) =
        attempt_with-Suggests w _ (select_host-OkHost L f p has w.env s) in
      let (n, e, g) = (rw ran at h) good in (n, e, g.0, g.1)
