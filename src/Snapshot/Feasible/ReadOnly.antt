-- ===== src/Snapshot/Feasible/ReadOnly.antt =====
-- `CanSchedulePod` changes nothing in the snapshot that can be told from outside, and leaves no placement
-- assumed.
use mathlib.Core.Path.{subst}
use scheduler_library.Base.{
  arith, ℕ, ◌≡◌, refl, ◌∙◌, inl, inr, Bool, false, Option, none, some, is_empty, Bool-cases,
  Option-cases,
}
use scheduler_library.Upstream.{Upstream, Placement, Error}
use scheduler_library.Upstream.Laws.{View, Laws, Same, Same-refl, Same-trans}
use scheduler_library.Upstream.Results.{Result-cases}
use scheduler_library.Trail.{OnReturn}
use scheduler_library.Profiles.{framework_for_pod}
use scheduler_library.Scheduler.Types.{PendingPod, Fit}
use scheduler_library.Snapshot.Types.{ClusterSnapshot}
use scheduler_library.Snapshot.Extends.{Unchanged}
use scheduler_library.Snapshot.Feasible.{
  Feasibility, feasibility_of, with_world, find_feasible, can_schedule_pod,
}

-- The placement that is assumed in a `cache.Snapshot`, and what `AssumePlacement` and `ForgetPlacement`
-- do to it.
pub record PlacementLaws (U : Upstream) : Type 0 where
  pub assumed : U.Snap → Option (Placement U.kinds)
  pub assume_takes :
      (s t : U.Snap) (pl : Placement U.kinds)
      → is_empty pl.nodes ≡ false
      → U.assume_placement s pl ≡ (none, t)
      → assumed t ≡ some pl
  pub assume_refused :
      (s t : U.Snap) (pl : Placement U.kinds) (e : Error U.kinds)
      → U.assume_placement s pl ≡ (some e, t)
      → assumed t ≡ assumed s
  pub forget_frees : (s : U.Snap) → assumed (U.forget_placement s) ≡ none

module _ {U : Upstream} where
  open U use {kinds, Framework, Env, Snap}

  abbrev on_snap : Snap → Env → ClusterSnapshot U → ClusterSnapshot U
  on_snap sn env s = with_world U (record (s.world) { snap = sn; env = env }) s

  -- What `CanSchedulePod` leaves of `s`: the scheduler's snapshot as it was, or as a refused
  -- `AssumePlacement` has left it, or with the placement assumed and forgotten.
  data Leaves (s : ClusterSnapshot U) : ClusterSnapshot U → Type 0 where
    as_was : (env : Env) → Leaves s (on_snap s.world.snap env s)
    not_assumed :
        (pl : Placement kinds) (e : Error kinds) (sn : Snap) (env : Env)
        → U.assume_placement s.world.snap pl ≡ (some e, sn)
        → Leaves s (on_snap sn env s)
    forgotten :
        (pl : Placement kinds) (sn : Snap) (env : Env)
        → U.assume_placement s.world.snap pl ≡ (none, sn)
        → Leaves s (on_snap (U.forget_placement sn) env s)

  abbrev Left : ClusterSnapshot U → Option (Feasibility U) → Type 0
  Left s = OnReturn (λ r. Leaves s r.snapshot)

  feasibility_of-Leaves :
      (s : ClusterSnapshot U) (pl : Placement kinds) (sn : Snap) (env : Env) (o : Option (Fit U))
      → U.assume_placement s.world.snap pl ≡ (none, sn)
      → Left s (feasibility_of U (record (s.world) { snap = sn; env = env }) s o)
  feasibility_of-Leaves s pl sn env none h = tt
  feasibility_of-Leaves s pl sn env (some fit) h =
      let u = forgotten pl sn fit.env h in
      elim (Option-cases fit.error) [ inl q ↦ rw q u | inr (e, q) ↦ rw q u ]

  find_feasible-Leaves :
      (p : PendingPod U) (f : Framework) (pl : Placement kinds) (env : Env) (s : ClusterSnapshot U)
      → Left s (find_feasible U p f pl env s)
  unfolding find_feasible
  find_feasible-Leaves p f pl env s = elim (Option-cases call.0) [
    | inl q ↦ rw (q, find_feasible) (feasibility_of-Leaves s pl call.1 env _ (λ i. (q i, call.1)))
    | inr (e, q) ↦ rw (q, find_feasible) (not_assumed pl e call.1 env (λ i. (q i, call.1)))
  ]
    where
      call : Option (Error kinds) × Snap
      call = U.assume_placement s.world.snap pl

  can_schedule_pod-Leaves :
      (r : ℕ) (pl : Option (Placement kinds)) (s : ClusterSnapshot U)
      → Left s (can_schedule_pod U r pl s)
  unfolding can_schedule_pod
  can_schedule_pod-Leaves r none s = as_was s.world.env
  can_schedule_pod-Leaves r (some pl) s = elim (Bool-cases (is_empty pl.nodes)) [
    | inl q ↦ rw (q, can_schedule_pod) (as_was s.world.env)
    | inr q ↦ elim (Result-cases (framework_for_pod U s.profiles (s.world.pods r))) [
      | inr (e, q1) ↦ rw (q, can_schedule_pod, q1) (as_was s.world.env)
      | inl (f, q1) ↦ elim (Result-cases (U.pod_terms (s.world.pods r))) [
        | inr (e, q2) ↦ rw (q, can_schedule_pod, q1, q2) (as_was (U.new_cycle_state s.world.env).1)
        | inl (t, q2) ↦ rw (q, can_schedule_pod, q1, q2) (find_feasible-Leaves _ f pl _ s)
      ]
    ]
  ]

  Leaves-freed :
      (K : PlacementLaws U) {s t : ClusterSnapshot U}
      → K.assumed s.world.snap ≡ none
      → Leaves s t
      → K.assumed t.world.snap ≡ none
  Leaves-freed K free (as_was env) = free
  Leaves-freed K {s} free (not_assumed pl e sn env h) =
      K.assume_refused s.world.snap sn pl e h ∙ free
  Leaves-freed K free (forgotten pl sn env h) = K.forget_frees sn

module _ {U : Upstream} (V : View U) (L : Laws V) (P : ℕ → Bool) where
  open U use {kinds, Env}

  abbrev Keeps : ClusterSnapshot U → Option (Feasibility U) → Type 0
  Keeps s = OnReturn (λ r. Unchanged V P s r.snapshot)

  unchanged_with :
      (s : ClusterSnapshot U) (sn : U.Snap) (env : Env)
      → Same V s.world.snap sn
      → Unchanged V P s (on_snap sn env s)
  unchanged_with s sn env h = record {
    log = refl;
    world = record { snaps = h; pods = λ r _. refl; next = omega arith };
    frame = record { profiles = refl; flag = refl; preemption = refl };
  }

  assumed-Same :
      (s sn : U.Snap) (pl : Placement kinds) (o : Option (Error kinds))
      → U.assume_placement s pl ≡ (o, sn)
      → Same V s sn
  assumed-Same s sn pl o h =
      subst (λ (x : Option (Error kinds) × U.Snap). Same V s x.1) h (L.assume_placement_same s pl)

  Leaves-Unchanged : {s t : ClusterSnapshot U} → Leaves s t → Unchanged V P s t
  Leaves-Unchanged {s} (as_was env) = unchanged_with s _ env (Same-refl V s.world.snap)
  Leaves-Unchanged {s} (not_assumed pl e sn env h) =
      unchanged_with s sn env (assumed-Same s.world.snap sn pl (some e) h)
  Leaves-Unchanged {s} (forgotten pl sn env h) =
      unchanged_with s _ env
        (Same-trans V (assumed-Same s.world.snap sn pl none h) (L.forget_placement_same sn))

  Left-Keeps : (s : ClusterSnapshot U) (o : Option (Feasibility U)) → Left s o → Keeps s o
  Left-Keeps s none h = tt
  Left-Keeps s (some f) h = Leaves-Unchanged h

  pub can_schedule_pod-Keeps :
      (r : ℕ) (pl : Option (Placement kinds)) (s : ClusterSnapshot U)
      → Keeps s (can_schedule_pod U r pl s)
  can_schedule_pod-Keeps r pl s = Left-Keeps s _ (can_schedule_pod-Leaves r pl s)

  -- When no placement is assumed and `CanSchedulePod` returns, whatever the answer, the undo log, the
  -- preemption version, the transaction flag and the profiles are as before the call, and so are the
  -- observations of the scheduler's snapshot and the pods that `P` pins; and again no placement is
  -- assumed.
  pub can_schedule_pod_read_only :
      (K : PlacementLaws U) (r : ℕ) (pl : Option (Placement kinds)) (s : ClusterSnapshot U)
      (f : Feasibility U)
      → K.assumed s.world.snap ≡ none
      → can_schedule_pod U r pl s ≡ some f
      → Unchanged V P s f.snapshot × (K.assumed f.snapshot.world.snap ≡ none)
  can_schedule_pod_read_only K r pl s f free ran =
      let l : Leaves s f.snapshot = rw ran at (can_schedule_pod-Leaves r pl s) in
      (Leaves-Unchanged l, Leaves-freed K free l)
