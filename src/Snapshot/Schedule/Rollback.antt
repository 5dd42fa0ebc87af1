-- ===== src/Snapshot/Schedule/Rollback.antt =====
-- A dry run or an error of `schedulePods` takes back everything that it has done.
use mathlib.Core.Path.{subst}
use mathlib.Core.Bool.{false≢true}
use scheduler_library.Base.{
  ◌≤◌, ℕ, ◌+◌, ◌^◌, ◌<◌, ◌≡◌, refl, sym, ap, ◌∙◌, inl, inr, Bool, true, ◌||◌, Option, none, some,
  List, [], length, is_some, is_empty, arith, Bool-cases, Option-cases,
}
use scheduler_library.Upstream.{Upstream, Placement, Error, wrap}
use scheduler_library.Upstream.Laws.{View, Laws, StatusLaws}
use scheduler_library.World.{World}
use scheduler_library.Trail.{SameWorld, SameWorld-refl, OnReturn}
use scheduler_library.Snapshot.Types.{ClusterSnapshot, SchedulePodsOptions, SchedulingResult}
use scheduler_library.Snapshot.Extends.{
  ExtendsBy, Restored, same-ExtendsBy, ExtendsBy-trans, restore-Restored, Unchanged, Frame,
}
use scheduler_library.Snapshot.Schedule.{
  Seq, Scheduled, finish_schedule, schedule_seq, set_snap, bump_if_changed, forget, and_finish,
}
use scheduler_library.Snapshot.Schedule.Loop.{Avoids, Looped, schedule_loop-Looped}

module _ {U : Upstream} (V : View U) (L : Laws V) (S : StatusLaws U) (P : ℕ → Bool) where
  open U use {kinds}

  -- What `schedulePods` leaves after its deferred functions.
  pub record Finished (n : ℕ) (dry : Bool) (s : ClusterSnapshot U) (r : Scheduled U) : Type 0 where
    pub grown : ExtendsBy V P n s r.snapshot
    pub flag : r.snapshot.transaction_in_progress ≡ s.transaction_in_progress
    pub profiles : r.snapshot.profiles ≡ s.profiles
    pub kept : (is_some r.error || dry) ≡ true → Unchanged V P s r.snapshot

  bump_if_changed_log :
      (v : ℕ) (s : ClusterSnapshot U)
      → ((bump_if_changed U v s).undo_log ≡ s.undo_log)
        × ((bump_if_changed U v s).world ≡ s.world)
        × ((bump_if_changed U v s).transaction_in_progress ≡ s.transaction_in_progress)
        × ((bump_if_changed U v s).profiles ≡ s.profiles)
  bump_if_changed_log v s = ground arith

  SameWorld_of_eq : {w v : World U} → v ≡ w → SameWorld V P w v
  SameWorld_of_eq {w} e = subst (SameWorld V P w) (sym e) (SameWorld-refl V P w)

  ExtendsBy-eq :
      {n : ℕ} {s t u : ClusterSnapshot U}
      → u.undo_log ≡ t.undo_log
      → u.world ≡ t.world
      → ExtendsBy V P n s t
      → ExtendsBy V P n s u
  ExtendsBy-eq e h g =
      let x = ExtendsBy-trans V P g (same-ExtendsBy V P {n = 0} e (SameWorld_of_eq h)) in
      record { extends = x.extends; most = omega (arith, x.most) }

  restored_unchanged :
      (s s' t : ClusterSnapshot U)
      → Frame s s'
      → Restored V P s s' t
      → Unchanged V P s (bump_if_changed U s.undo_log.state_version t)
  restored_unchanged s s' t f d = rw stays (record {
    log = d.log;
    world = d.world;
    frame = record {
      profiles = ap (λ x. x.profiles) d.rest ∙ f.profiles;
      flag = ap (λ x. x.transaction_in_progress) d.rest ∙ f.flag;
      preemption = ap (λ x. x.preemption_version) d.rest ∙ f.preemption;
    };
  })
    where
      stays : bump_if_changed U s.undo_log.state_version t ≡ t
      stays = let e = ap (λ ul. ul.state_version) d.log in ground arith

  pub finish_schedule-Finished :
      (n : ℕ) (dry : Bool) (s : ClusterSnapshot U) (r : Scheduled U)
      → s.undo_log.state_version + n < 2 ^ 64
      → Looped V L S P n s r
      → (r' : Scheduled U) × (finish_schedule U dry s.undo_log.state_version r ≡ some r')
        × Finished n dry s r'
        × (r'.error ≡ r.error)
        × (r'.results ≡ r.results)
  unfolding finish_schedule
  finish_schedule-Finished n dry s r b h = elim (Bool-cases (is_some r.error || dry)) [
    | inl back ↦
        let (t, e, d) =
          restore-Restored V P {s = s} {s' = r.snapshot} h.grown.extends
            (omega (arith, h.grown.most)) in
        let u = restored_unchanged s r.snapshot t h.frame d in
        (
          record r { snapshot = bump_if_changed U s.undo_log.state_version t },
          rw (back, e, finish_schedule),
          record {
            grown = same-ExtendsBy V P u.log u.world;
            flag = u.frame.flag;
            profiles = u.frame.profiles;
            kept = λ _. u;
          },
          refl,
          refl,
        )
    | inr keep ↦
        let x = bump_if_changed_log s.undo_log.state_version r.snapshot in
        (
          record r { snapshot = bump_if_changed U s.undo_log.state_version r.snapshot },
          rw (keep, finish_schedule),
          record {
            grown = ExtendsBy-eq x.0 x.1 h.grown;
            flag = x.2 ∙ h.frame.flag;
            profiles = x.3 ∙ h.frame.profiles;
            kept = λ c. absurd (false≢true (sym keep ∙ c));
          },
          refl,
          refl,
        )
  ]

  pub Finished-unchanged :
      (n : ℕ) (dry : Bool) (s : ClusterSnapshot U) (rs : List (SchedulingResult U))
      (e : Option (Error kinds))
      → Finished n dry s (record { results = rs; error = e; snapshot = s })
  Finished-unchanged n dry s rs e =
      let f : Frame s s = record { profiles = refl; flag = refl; preemption = refl } in
      record {
        grown = same-ExtendsBy V P refl (SameWorld-refl V P s.world);
        flag = refl;
        profiles = refl;
        kept = λ _. record { log = refl; world = SameWorld-refl V P s.world; frame = f };
      }

  -- Changes of the placement are not observed.
  pub Looped-placement :
      (n : ℕ) (s : ClusterSnapshot U) (sn : U.Snap) (o : Option (Scheduled U))
      → SameWorld V P s.world (set_snap U sn s).world
      → OnReturn (Looped V L S P n (set_snap U sn s)) o
      → OnReturn (Looped V L S P n s) (forget U o)
  Looped-placement n s sn none g h = tt
  Looped-placement n s sn (some r) g h = record {
    grown =
        let a : ExtendsBy V P 0 s (set_snap U sn s) = same-ExtendsBy V P refl g in
        let b : ExtendsBy V P 0 r.snapshot
            (set_snap U (U.forget_placement r.snapshot.world.snap) r.snapshot) =
          same-ExtendsBy V P refl (record {
            snaps = L.forget_placement_same r.snapshot.world.snap;
            pods = λ q _. refl;
            next = omega arith;
          }) in
        let c = ExtendsBy-trans V P (ExtendsBy-trans V P a h.grown) b in
        record { extends = c.extends; most = omega (arith, c.most) };
    frame = record {
      profiles = h.frame.profiles;
      flag = h.frame.flag;
      preemption = h.frame.preemption;
    };
  }

  and_finish-Finished :
      (n : ℕ) (dry : Bool) (s : ClusterSnapshot U) (o : Option (Scheduled U))
      → s.undo_log.state_version + n < 2 ^ 64
      → OnReturn (Looped V L S P n s) o
      → OnReturn (Finished n dry s) (and_finish U dry s.undo_log.state_version o)
  and_finish-Finished n dry s none b h = tt
  and_finish-Finished n dry s (some r) b h =
      let (r', e, f, _, _) = finish_schedule-Finished n dry s r b h in rw (e, OnReturn) f

  pub schedule_seq-Finished :
      (low : ℕ) (pods : Seq U) (pl : Option (Placement kinds)) (o : SchedulePodsOptions)
      (s : ClusterSnapshot U)
      → low ≤ s.world.next_pod
      → Avoids V L S P low pods
      → s.undo_log.state_version + length pods < 2 ^ 64
      → OnReturn (Finished (length pods) o.dry_run s) (schedule_seq U pods pl o s)
  unfolding schedule_seq
  schedule_seq-Finished low pods none o s l a b = Finished-unchanged _ _ s _ _
  schedule_seq-Finished low pods (some pl) o s l a b = elim (Bool-cases (is_empty pl.nodes)) [
    | inl q ↦ rw (q, schedule_seq) (Finished-unchanged _ _ s _ _)
    | inr q ↦ elim (Option-cases call.0) [
      | inr (x, c) ↦
          rw (q, c, schedule_seq)
            (and_finish-Finished (length pods) o.dry_run s
              (some (record {
                results = [];
                error = some (wrap "error assuming placement" x);
                snapshot = set_snap U call.1 s;
              }))
              b
              (record {
                grown = same-ExtendsBy V P refl placed;
                frame = record { profiles = refl; flag = refl; preemption = refl };
              }))
      | inl c ↦
          rw (q, c, schedule_seq)
            (and_finish-Finished (length pods) o.dry_run s _ b (
              Looped-placement (length pods) s call.1 _ placed
                (schedule_loop-Looped V L S P o low 0 pods [] (set_snap U call.1 s) l a b)))
    ]
  ]
    where
      call : Option (Error kinds) × U.Snap
      call = U.assume_placement s.world.snap pl

      placed : SameWorld V P s.world (set_snap U call.1 s).world
      placed = record {
        snaps = L.assume_placement_same s.world.snap pl;
        pods = λ r _. refl;
        next = omega arith;
      }
