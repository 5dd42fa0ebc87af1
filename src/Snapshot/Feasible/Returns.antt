-- ===== src/Snapshot/Feasible/Returns.antt =====
-- `CanSchedulePod` returns.
use scheduler_library.Base.{
  ℕ, ◌≡◌, refl, inl, inr, true, false, Option, none, some, is_some, is_some-some, is_empty, arith,
  Bool-cases, Option-cases,
}
use scheduler_library.Upstream.{Upstream, Placement}
use scheduler_library.World.{World}
use scheduler_library.Upstream.Results.{Result-cases}
use scheduler_library.Profiles.{framework_for_pod}
use scheduler_library.Scheduler.Types.{PendingPod, Fit, new_scheduler, max_int32}
use scheduler_library.Scheduler.Fit.{find_nodes_that_fit_pod}
use scheduler_library.Scheduler.Returns.Fits.{CountLaws, find_nodes_that_fit_pod-returns}
use scheduler_library.Snapshot.Types.{ClusterSnapshot}
use scheduler_library.Snapshot.Schedule.Returns.{AllFiltered, framework_for_pod-filtered}
use scheduler_library.Snapshot.Feasible.{find_feasible, can_schedule_pod, feasibility_of}

module _ {U : Upstream} (C : CountLaws U) where
  open U use {kinds, Env, Framework}

  feasibility_of-returns :
      (w : World U) (s : ClusterSnapshot U) (fit : Fit U)
      → is_some (feasibility_of U w s (some fit)) ≡ true
  feasibility_of-returns w s fit = elim (Option-cases fit.error) [
    | inr (e, q) ↦ rw q refl
    | inl q ↦ rw q refl
  ]

  find_feasible-returns :
      (p : PendingPod U) (f : Framework) (pl : Placement kinds) (env : Env) (s : ClusterSnapshot U)
      → U.has_filter_plugins f ≡ true
      → is_empty pl.nodes ≡ false
      → is_some (find_feasible U p f pl env s) ≡ true
  unfolding find_feasible
  find_feasible-returns p f pl env s has nodes =
      let call = U.assume_placement s.world.snap pl in
      let w = record (s.world) { snap = call.1; env = env } in
      let found = find_nodes_that_fit_pod U call.1 env (new_scheduler 0 0 max_int32) f p true in
      elim (Option-cases call.0) [
        | inr (x, q) ↦ rw (q, find_feasible) refl
        | inl q ↦
            let some_nodes = C.placed s.world.snap call.1 pl nodes (λ i. (q i, call.1)) in
            let (fit, q1) = is_some-some found (
              find_nodes_that_fit_pod-returns C call.1 f has p (new_scheduler 0 0 max_int32)
                (omega arith) env true some_nodes) in
            rw (q, find_feasible, q1) (feasibility_of-returns w s fit)
      ]

  -- The method, with profiles that have filter plugins, on any placement.
  pub can_schedule_pod-returns :
      (r : ℕ) (pl : Option (Placement kinds)) (s : ClusterSnapshot U)
      → AllFiltered U s.profiles
      → is_some (can_schedule_pod U r pl s) ≡ true
  unfolding can_schedule_pod
  can_schedule_pod-returns r none s h = refl
  can_schedule_pod-returns r (some pl) s h = elim (Bool-cases (is_empty pl.nodes)) [
    | inl q ↦ rw (q, can_schedule_pod) refl
    | inr q ↦ elim (Result-cases (framework_for_pod U s.profiles (s.world.pods r))) [
      | inr (e, q1) ↦ rw (q, q1, can_schedule_pod) refl
      | inl (f, q1) ↦ elim (Result-cases (U.pod_terms (s.world.pods r))) [
        | inr (e, q2) ↦ rw (q, q1, can_schedule_pod, q2) refl
        | inl (t, q2) ↦
            let has = framework_for_pod-filtered U s.profiles (s.world.pods r) f h q1 in
            rw (q, q1, can_schedule_pod, q2)
              (find_feasible-returns _ f pl (U.new_cycle_state s.world.env).1 s has q)
      ]
    ]
  ]
