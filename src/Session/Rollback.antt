-- ===== src/Session/Rollback.antt =====
-- What holds of every sequence of calls.
use mathlib.Core.Path.{subst}
use scheduler_library.Base.{
  ◌≤◌, ℕ, ◌+◌, ◌^◌, ◌<◌, ◌≡◌, refl, ap, ◌∙◌, Bool, true, false, ◌||◌, Option, none, some, List, [],
  ◌∷◌, length, get_elem?, is_some, arith,
}
use scheduler_library.Upstream.{Upstream, Error}
use scheduler_library.Upstream.Laws.{View, Laws, StatusLaws}
use scheduler_library.Trail.{SameWorld, SameWorld-refl, OnReturn}
use scheduler_library.UndoLog.{empty_log}
use scheduler_library.Snapshot.Types.{ClusterSnapshot, Unpreemption, TransactionResult}
use scheduler_library.Snapshot.Extends.{
  Extends, ExtendsBy, Extends-refl, Extends-trans, same-ExtendsBy, Unchanged,
}
use scheduler_library.Snapshot.Transaction.{
  begin_transaction, transaction, transaction_error, is_revert, reset_mutations,
}
use scheduler_library.Snapshot.Transaction.Rollback.{transaction_reverts, ResetBack, reset_reverts}
use scheduler_library.Snapshot.Schedule.{schedule_pods, Scheduled, values}
use scheduler_library.Snapshot.Schedule.Rollback.{Finished, schedule_seq-Finished}
use scheduler_library.Snapshot.Schedule.Loop.{values-Avoids, length-values}
use scheduler_library.Snapshot.Template.Fresh.{Below, schedule_pods_by_template-Finished}
use scheduler_library.Snapshot.Preempt.{unpreempt}
use scheduler_library.Snapshot.Preempt.Grown.{unpreempt-Grown}
use scheduler_library.Snapshot.Preempt.Rollback.{preempt_pods-IsPreempted}
use scheduler_library.Snapshot.Feasible.{Feasibility}
use scheduler_library.Snapshot.Feasible.ReadOnly.{can_schedule_pod-Keeps}
use scheduler_library.Session.{
  Call, schedules, templates, asks, preempts, unpreempts, Session, step_call, run_calls, body_of,
  registered, pods_of, Separate, Counts, AllSeparate, keep_scheduled, keep_feasible,
}

module _ {U : Upstream} (V : View U) (L : Laws V) (S : StatusLaws U) (P : ℕ → Bool) where
  open U use {kinds}

  pub record Stepped (n : ℕ) (s s' : ClusterSnapshot U) : Type 0 where
    pub grown : ExtendsBy V P n s s'
    pub profiles : s'.profiles ≡ s.profiles
    pub flag : s'.transaction_in_progress ≡ s.transaction_in_progress

  abbrev StepsTo : ℕ → ClusterSnapshot U → Session U → Type 0
  StepsTo n s s' = Stepped n s s'.snapshot

  unchanged-Stepped : (n : ℕ) {s s' : ClusterSnapshot U} → Unchanged V P s s' → Stepped n s s'
  unchanged-Stepped n u = record {
    grown = same-ExtendsBy V P u.log u.world;
    profiles = u.frame.profiles;
    flag = u.frame.flag;
  }

  keep_scheduled-Stepped :
      (n : ℕ) (dry : Bool) (s : Session U) (o : Option (Scheduled U))
      → OnReturn (Finished V L S P n dry s.snapshot) o
      → OnReturn (StepsTo n s.snapshot) (keep_scheduled U s o)
  keep_scheduled-Stepped n dry s none h = tt
  keep_scheduled-Stepped n dry s (some r) h = record {
    grown = h.grown;
    profiles = h.profiles;
    flag = h.flag;
  }

  keep_feasible-Stepped :
      (s : Session U) (o : Option (Feasibility U))
      → OnReturn (λ r. Unchanged V P s.snapshot r.snapshot) o
      → OnReturn (StepsTo 0 s.snapshot) (keep_feasible U s o)
  keep_feasible-Stepped s none h = tt
  keep_feasible-Stepped s (some r) h = unchanged-Stepped 0 h

  unpreempt-Stepped :
      (u : Option (Unpreemption U)) (s : ClusterSnapshot U)
      → s.undo_log.state_version + length (pods_of U u) < 2 ^ 64
      → Stepped (length (pods_of U u)) s (unpreempt U u s).snapshot
  unfolding unpreempt
  unpreempt-Stepped none s b = record {
    grown = same-ExtendsBy V P refl (SameWorld-refl V P s.world);
    profiles = refl;
    flag = refl;
  }
  unpreempt-Stepped (some u) s b =
      let g = unpreempt-Grown V L P u s b in
      record { grown = g.extends; profiles = g.frame.profiles; flag = g.frame.flag }

  pub step_call-Stepped :
      (low : ℕ) (c : Call U) (s : Session U)
      → Below P low
      → low ≤ s.snapshot.world.next_pod
      → Separate U P c
      → s.snapshot.undo_log.state_version + registered U c s < 2 ^ 64
      → OnReturn (StepsTo (registered U c s) s.snapshot) (step_call U c s)
  unfolding step_call schedule_pods
  step_call-Stepped low (schedules rs pl o) s known l free b =
      keep_scheduled-Stepped (length rs) o.dry_run s _ (
        subst
          (λ n.
            OnReturn (Finished V L S P n o.dry_run s.snapshot) (schedule_pods U rs pl o s.snapshot))
          (length-values U rs)
          (schedule_seq-Finished V L S P 0 (values U rs) pl o s.snapshot (omega arith)
            (values-Avoids V L S P rs free) (omega (arith, length-values U rs))))
  step_call-Stepped low (templates t pl m o) s known l free b =
      keep_scheduled-Stepped m o.dry_run s _
        (schedule_pods_by_template-Finished V L S P low known t pl m o s.snapshot l b)
  step_call-Stepped low (asks r pl) s known l free b =
      keep_feasible-Stepped s _ (can_schedule_pod-Keeps V L P r pl s.snapshot)
  step_call-Stepped low (preempts rs) s known l pinned b =
      let (r, e, d) = preempt_pods-IsPreempted V L P rs s.snapshot pinned b in
      rw (e, OnReturn)
        (record {
          grown = d.grown.extends;
          profiles = d.grown.frame.profiles;
          flag = d.grown.frame.flag;
        })
  step_call-Stepped low (unpreempts i) s known l free b =
      unpreempt-Stepped (get_elem? s.handles i) s.snapshot b

  record Ran (s : ClusterSnapshot U) (s' : Session U) : Type 0 where
    extends : Extends V P s s'.snapshot
    fits : s'.snapshot.undo_log.state_version < 2 ^ 64
    profiles : s'.snapshot.profiles ≡ s.profiles
    flag : s'.snapshot.transaction_in_progress ≡ s.transaction_in_progress

  Ran-after :
      {s t : ClusterSnapshot U} (n : ℕ) (o : Option (Session U))
      → Stepped n s t
      → OnReturn (Ran t) o
      → OnReturn (Ran s) o
  Ran-after n none h g = tt
  Ran-after n (some s') h g = record {
    extends = Extends-trans V P h.grown.extends g.extends;
    fits = g.fits;
    profiles = g.profiles ∙ h.profiles;
    flag = g.flag ∙ h.flag;
  }

  -- The undo log covers any sequence of calls.
  run_calls-Ran :
      (low : ℕ) (cs : List (Call U)) (s : Session U)
      → Below P low
      → low ≤ s.snapshot.world.next_pod
      → AllSeparate U P cs
      → Counts U cs s
      → s.snapshot.undo_log.state_version < 2 ^ 64
      → OnReturn (Ran s.snapshot) (run_calls U cs s)
  unfolding run_calls
  run_calls-Ran low [] s known l h k b = record {
    extends = Extends-refl V P s.snapshot;
    fits = b;
    profiles = refl;
    flag = refl;
  }
  run_calls-Ran low (c ∷ cs) s known l h k b =
      go (step_call U c s) (step_call-Stepped low c s known l h.0 k.0) k.1
        (λ t k' l' b'. run_calls-Ran low cs t known l' h.1 k' b')
    where
      go :
          (o : Option (Session U))
          → OnReturn (StepsTo (registered U c s) s.snapshot) o
          → OnReturn (Counts U cs) o
          → ((t : Session U)
              → Counts U cs t
              → low ≤ t.snapshot.world.next_pod
              → t.snapshot.undo_log.state_version < 2 ^ 64
              → OnReturn (Ran t.snapshot) (run_calls U cs t))
          → OnReturn (Ran s.snapshot) (elim o [ none ↦ none | some s' ↦ run_calls U cs s' ])
      go none e k' ih = tt
      go (some t) e k' ih =
          Ran-after (registered U c s) (run_calls U cs t) e
            (ih t k' (omega (arith, l, e.grown.extends.next)) (omega (arith, e.grown.most, k.0)))

  -- Take any calls `cs` of the simulation methods, with any handles at hand, as the body of a transaction
  -- that starts when none is in progress and that then asks to revert or returns an error. `P` pins
  -- allocated pods, the pods that `cs` preempts among them and those that it is given to schedule not,
  -- and the version does not wrap along `cs`. If all the calls return, then `Transaction` returns, with
  -- the body's error wrapped, and the undo log, the preemption version, the transaction flag and the
  -- profiles are as before it, and so are the observations of the scheduler's snapshot and the pinned
  -- pods.
  pub transaction-run_calls :
      (cs : List (Call U)) (hs : List (Unpreemption U)) (r : TransactionResult)
      (e : Option (Error kinds)) (s : ClusterSnapshot U) (last : Session U)
      → s.transaction_in_progress ≡ false
      → s.undo_log.state_version < 2 ^ 64
      → Below P s.world.next_pod
      → AllSeparate U P cs
      → Counts U cs (record { snapshot = begin_transaction U s; handles = hs })
      → run_calls U cs (record { snapshot = begin_transaction U s; handles = hs }) ≡ some last
      → (is_some e || is_revert U r) ≡ true
      → (t : ClusterSnapshot U) × (transaction U (body_of U cs hs r e) s
          ≡ some (transaction_error U e, t))
        × Unchanged V P s t
  transaction-run_calls cs hs r e s last idle b known separate counts ran back =
      let whole : Session U = record { snapshot = begin_transaction U s; handles = hs } in
      let x : Ran whole.snapshot last =
        rw ran at (run_calls-Ran s.world.next_pod cs whole known (omega arith) separate counts b) in
      transaction_reverts V P (body_of U cs hs r e) s last.snapshot r e idle (rw ran refl) x.extends
        x.fits x.profiles back

  pub run_calls-ResetBack :
      (cs : List (Call U)) (hs : List (Unpreemption U)) (s : ClusterSnapshot U) (last : Session U)
      → s.transaction_in_progress ≡ false
      → s.undo_log ≡ empty_log
      → Below P s.world.next_pod
      → AllSeparate U P cs
      → Counts U cs (record { snapshot = s; handles = hs })
      → run_calls U cs (record { snapshot = s; handles = hs }) ≡ some last
      → ResetBack V P s last.snapshot × (last.snapshot.transaction_in_progress ≡ false)
  run_calls-ResetBack cs hs s last idle fresh known separate counts ran =
      let whole : Session U = record { snapshot = s; handles = hs } in
      let v : s.undo_log.state_version ≡ 0 = ap (λ ul. ul.state_version) fresh in
      let x : Ran s last = rw ran at (
        run_calls-Ran s.world.next_pod cs whole known (omega arith) separate counts
          (omega arith)) in
      let busy : last.snapshot.transaction_in_progress ≡ false = x.flag ∙ idle in
      (
        reset_reverts V P s last.snapshot x.extends x.fits (ap (λ ul. ul.state_version) fresh) busy,
        busy,
      )

  -- Take any calls `cs` of the simulation methods on a snapshot whose undo log is empty, when no
  -- transaction is in progress. `P` pins allocated pods, the pods that `cs` preempts among them and those
  -- that it is given to schedule not, and the version does not wrap along `cs`. If all the calls return,
  -- then `ResetMutations` returns without an error, the undo log is empty again, and the observations of
  -- the scheduler's snapshot and the pinned pods are as before the calls.
  pub reset_mutations-run_calls :
      (cs : List (Call U)) (hs : List (Unpreemption U)) (s : ClusterSnapshot U) (last : Session U)
      → s.transaction_in_progress ≡ false
      → s.undo_log ≡ empty_log
      → Below P s.world.next_pod
      → AllSeparate U P cs
      → Counts U cs (record { snapshot = s; handles = hs })
      → run_calls U cs (record { snapshot = s; handles = hs }) ≡ some last
      → (t : ClusterSnapshot U) × (reset_mutations U last.snapshot ≡ some (none, t))
        × (t.undo_log ≡ empty_log)
        × SameWorld V P s.world t.world
  reset_mutations-run_calls cs hs s last idle fresh known separate counts ran =
      let (d, _) = run_calls-ResetBack cs hs s last idle fresh known separate counts ran in
      (d.snapshot, d.returns, d.log ∙ fresh, d.world)
