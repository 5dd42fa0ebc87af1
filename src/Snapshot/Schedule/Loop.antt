-- ===== src/Snapshot/Schedule/Loop.antt =====
-- The undo log covers everything that the loop of `schedulePods` does to the snapshot.
use scheduler_library.Base.{
  ◌≤◌, ℕ, suc, ◌+◌, ◌^◌, ◌<◌, ◌≡◌, refl, ap, Bool, true, false, Option, none, some, List, [], ◌∷◌,
  length, succ64, arith,
}
use scheduler_library.Upstream.{Upstream}
use scheduler_library.Upstream.Laws.{View, Laws, StatusLaws}
use scheduler_library.World.{World}
use scheduler_library.Trail.{SameWorld, SameWorld-refl, OnReturn}
use scheduler_library.Scheduler.Types.{new_scheduler}
use scheduler_library.Snapshot.Types.{ClusterSnapshot, SchedulePodsOptions, SchedulingResult}
use scheduler_library.Snapshot.Extends.{
  ExtendsBy, same-ExtendsBy, ExtendsBy-trans, Frame, Frame-trans,
}
use scheduler_library.Snapshot.Schedule.{
  Seq, values, OnePod, schedule_one_pod, Scheduled, after_one, schedule_loop,
}
use scheduler_library.Snapshot.Schedule.Attempted.{
  OnePlaced, refused, scheduled, rejected, OnePlaced-base, record_result-ExtendsBy,
  record_result-Frame, schedule_one_pod-OnePlaced,
}

-- No pod of the list is pinned.
abbrev pub Unpinned : (ℕ → Bool) → List ℕ → Type 0
Unpinned P [] = Unit
Unpinned P (r ∷ rs) = (P r ≡ false) × Unpinned P rs

module _ {U : Upstream} (V : View U) (L : Laws V) (S : StatusLaws U) (P : ℕ → Bool) where
  -- The pods that the sequence yields are not pinned, and making them changes nothing observable, once
  -- `low` pods are allocated.
  abbrev pub Avoids : ℕ → Seq U → Type 0
  Avoids low [] = Unit
  Avoids low (next ∷ pods) =
      ((w : World U) → low ≤ w.next_pod → SameWorld V P w (next w).1 × (P (next w).0 ≡ false))
      × Avoids low pods

  pub record Looped (n : ℕ) (s : ClusterSnapshot U) (r : Scheduled U) : Type 0 where
    pub grown : ExtendsBy V P n s r.snapshot
    pub frame : Frame s r.snapshot

  Looped-after :
      (n : ℕ) {s t : ClusterSnapshot U} (o : Option (Scheduled U))
      → ExtendsBy V P 1 s t
      → Frame s t
      → OnReturn (Looped n t) o
      → OnReturn (Looped (suc n) s) o
  Looped-after n none e f h = tt
  Looped-after n (some r) e f h = record {
    grown =
        let g = ExtendsBy-trans V P e h.grown in
        record { extends = g.extends; most = omega (arith, g.most) };
    frame = Frame-trans f h.frame;
  }

  -- What the loop is assumed to do from the next pod on.
  abbrev Goes :
      ℕ → ℕ → (List (SchedulingResult U) → ClusterSnapshot U → Option (Scheduled U)) → Type 0
  Goes low n go =
      (rs : List (SchedulingResult U)) (t : ClusterSnapshot U)
      → low ≤ t.world.next_pod
      → t.undo_log.state_version + n < 2 ^ 64
      → OnReturn (Looped n t) (go rs t)

  stop_or_go :
      (low n : ℕ) (s t : ClusterSnapshot U) (b : Bool) (rs : List (SchedulingResult U))
      (go : List (SchedulingResult U) → ClusterSnapshot U → Option (Scheduled U))
      → low ≤ s.world.next_pod
      → s.undo_log.state_version + suc n < 2 ^ 64
      → ExtendsBy V P 1 s t
      → Frame s t
      → Goes low n go
      → OnReturn (Looped (suc n) s) (elim b [
        | true ↦ some (record { results = rs; error = none; snapshot = t })
        | false ↦ go rs t
      ])
  stop_or_go low n s t true rs go l b e f h = record {
    grown = record { extends = e.extends; most = omega (arith, e.most) };
    frame = f;
  }
  stop_or_go low n s t false rs go l b e f h =
      Looped-after n (go rs t) e f
        (h rs t (omega (arith, l, e.extends.next)) (omega (arith, e.most)))

  after_one-Looped :
      (o : SchedulePodsOptions) (low n r : ℕ) (rs : List (SchedulingResult U))
      (s : ClusterSnapshot U)
      (go : List (SchedulingResult U) → ClusterSnapshot U → Option (Scheduled U))
      (one : Option (OnePod U))
      → P r ≡ false
      → low ≤ s.world.next_pod
      → s.undo_log.state_version + suc n < 2 ^ 64
      → Goes low n go
      → OnReturn (OnePlaced V L S P s.world) one
      → OnReturn (Looped (suc n) s) (after_one U o r rs s go one)
  unfolding after_one
  after_one-Looped o low n r rs s go none free l b h p = tt
  after_one-Looped o low n r rs s go (some _) free l b h (refused e g) = record {
    grown = same-ExtendsBy V P refl g;
    frame = record { profiles = refl; flag = refl; preemption = refl };
  }
  after_one-Looped o low n r rs s go (some _) free l b h (scheduled res op good u) =
      stop_or_go low n s _ _ _ go l b
        (record_result-ExtendsBy V L S P r res (some op) _ s free (omega arith)
          (scheduled res op good u))
        (record_result-Frame V L S P r res (some op) _ s) h
  after_one-Looped o low n r rs s go (some _) free l b h (rejected res bad g) =
      stop_or_go low n s _ _ _ go l b
        (record_result-ExtendsBy V L S P r res none _ s free (omega arith) (rejected res bad g))
        (record_result-Frame V L S P r res none _ s) h

  pub schedule_loop-Looped :
      (o : SchedulePodsOptions) (low cycle : ℕ) (pods : Seq U) (rs : List (SchedulingResult U))
      (s : ClusterSnapshot U)
      → low ≤ s.world.next_pod
      → Avoids low pods
      → s.undo_log.state_version + length pods < 2 ^ 64
      → OnReturn (Looped (length pods) s) (schedule_loop U o cycle pods rs s)
  unfolding schedule_loop
  schedule_loop-Looped o low cycle [] rs s l a b = record {
    grown = same-ExtendsBy V P refl (SameWorld-refl V P s.world);
    frame = record { profiles = refl; flag = refl; preemption = refl };
  }
  schedule_loop-Looped o low cycle (next ∷ pods) rs s l a b =
      let (same, free) = a.0 s.world l in
      let (r, w) = next s.world in
      let one = schedule_one_pod U s.profiles (new_scheduler cycle 0 1) r w in
      after_one-Looped o low (length pods) r rs s (schedule_loop U o (succ64 cycle) pods) one free l
        b (λ rs' t l' b'. schedule_loop-Looped o low (succ64 cycle) pods rs' t l' a.1 b')
        (OnePlaced-base V L S P one same
          (schedule_one_pod-OnePlaced V L S P s.profiles (new_scheduler cycle 0 1) r w))

  pub values-Avoids : (rs : List ℕ) → Unpinned P rs → Avoids 0 (values U rs)
  values-Avoids [] h = tt
  values-Avoids (r ∷ rs) h = ((λ w l. (SameWorld-refl V P w, h.0)), values-Avoids rs h.1)

pub length-values : (U : Upstream) (rs : List ℕ) → length (values U rs) ≡ length rs
length-values U [] = refl
length-values U (r ∷ rs) = ap suc (length-values U rs)
