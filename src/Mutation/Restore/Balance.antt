-- ===== src/Mutation/Restore/Balance.antt =====
-- How many pods of a key a node lists, against what the two maps owe.
use mathlib.Core.Path.{subst}
use mathlib.Core.Option.{none-ne-some}
use scheduler_library.Base.{
  ℕ, ◌+◌, ◌≡◌, sym, ◌∙◌, ◌⊎◌, inl, inr, String, true, none, some, lookup, is_some, arith,
  Bool-cases,
}
use scheduler_library.Upstream.{Upstream, PodInfo}
use scheduler_library.Upstream.Laws.{View, Grows, one}
use scheduler_library.World.{World, Tracker}
use scheduler_library.Mutation.{note_removed, note_added}
use scheduler_library.Mutation.Restore.Debts.{
  debt, debt_here, debt-none, no_mark, debt-erase, debt-insert,
}
use scheduler_library.Mutation.Restore.Calls.{Quiet, Shrunk, Grown}
use scheduler_library.Mutation.Restore.Tracked.{Home, Sound, note_removed-Sound, note_added-Sound}

module _ {U : Upstream} (V : View U) (home : String → String) (base : U.Snap) where
  open U use {kinds}

  abbrev added_debt : Tracker U → String → String → ℕ
  added_debt t j n = debt (lookup j t.added_pods) (home j) n

  abbrev removed_debt : Tracker U → String → String → ℕ
  removed_debt t j n = debt (lookup j t.removed_pods) (home j) n

  -- The maps of tracker `m` balance the change from `base` to the snapshot of `w`.
  pub record Tracked (m : ℕ) (w : World U) : Type 0 where
    pub sound : Sound U home base (w.trackers m)
    pub nodes : (n : String) → U.get base n ≡ U.get w.snap n
    pub records : (k : String) → V.assumed base k ≡ V.assumed w.snap k
    pub balance :
        (n j : String)
        → V.count w.snap n j + removed_debt (w.trackers m) j n
          ≡ V.count base n j + added_debt (w.trackers m) j n

  note_removed-balance :
      (t : Tracker U) (k : String) (pi : PodInfo kinds)
      → ((is_some (lookup k t.added_pods) ≡ true) ⊎ (lookup k t.removed_pods ≡ none))
      → (j n : String)
      → added_debt t j n + removed_debt (note_removed U t k pi) j n
        ≡ added_debt (note_removed U t k pi) j n + removed_debt t j n + one (home k) k n j
  note_removed-balance t k pi h j n = elim (Bool-cases (is_some (lookup k t.added_pods))) [
    | inl q ↦ rw q (omega (arith, debt-erase home k j n t.added_pods q))
    | inr q ↦
        let free : lookup k t.removed_pods ≡ none = ground (arith, h) in
        rw q (omega (arith, debt-insert home k j n pi t.removed_pods free))
  ]

  note_added-balance :
      (t : Tracker U) (k : String) (pi : PodInfo kinds)
      → ((is_some (lookup k t.removed_pods) ≡ true) ⊎ (lookup k t.added_pods ≡ none))
      → (j n : String)
      → added_debt t j n + one (home k) k n j + removed_debt (note_added U t k pi) j n
        ≡ added_debt (note_added U t k pi) j n + removed_debt t j n
  note_added-balance t k pi h j n = elim (Bool-cases (is_some (lookup k t.removed_pods))) [
    | inl q ↦ rw q (omega (arith, debt-erase home k j n t.removed_pods q))
    | inr q ↦
        let free : lookup k t.added_pods ≡ none = ground (arith, h) in
        rw q (omega (arith, debt-insert home k j n pi t.added_pods free))
  ]

  pub Quiet-Tracked : (m : ℕ) {w w' : World U} → Tracked m w → Quiet V m w w' → Tracked m w'
  Quiet-Tracked m h g = record {
    sound = subst (Sound U home base) (sym g.tracker) h.sound;
    nodes = λ n. h.nodes n ∙ g.snap.nodes n;
    records = λ k. h.records k ∙ g.snap.records k;
    balance = λ n j. rw g.tracker (omega (arith, h.balance n j, g.snap.counts n j));
  }

  pub shrink-Tracked :
      (m : ℕ) (pi : PodInfo kinds) (k : String) {w w' : World U}
      → Tracked m w
      → Shrunk V m pi k w w'
      → Home U home base k pi
      → ((is_some (lookup k (w.trackers m).added_pods) ≡ true)
          ⊎ (lookup k (w.trackers m).removed_pods ≡ none))
      → Tracked m w'
  shrink-Tracked m pi k {w} {w'} h g at c =
      let s : Grows V 0 (home k) k w'.snap w.snap =
        subst (λ n. Grows V 0 n k w'.snap w.snap) at.node_name g.snap in
      record {
        sound =
            subst (Sound U home base) (sym g.tracker)
              (note_removed-Sound U home base (w.trackers m) k pi h.sound at);
        nodes = λ n. h.nodes n ∙ sym (s.nodes n);
        records = λ j. h.records j ∙ (omega (arith, s.records j, no_mark k j));
        balance = λ n j. rw g.tracker (
            omega
              (arith, h.balance n j, s.counts n j, note_removed-balance (w.trackers m) k pi c j n));
      }

  pub grow-Tracked :
      (m : ℕ) (pi : PodInfo kinds) (k : String) {w w' : World U}
      → Tracked m w
      → Grown V m pi k w w'
      → Home U home base k pi
      → ((is_some (lookup k (w.trackers m).removed_pods) ≡ true)
          ⊎ (lookup k (w.trackers m).added_pods ≡ none))
      → Tracked m w'
  grow-Tracked m pi k {w} {w'} h g at c =
      let s : Grows V 0 (home k) k w.snap w'.snap =
        subst (λ n. Grows V 0 n k w.snap w'.snap) at.node_name g.snap in
      record {
        sound =
            subst (Sound U home base) (sym g.tracker)
              (note_added-Sound U home base (w.trackers m) k pi h.sound at);
        nodes = λ n. h.nodes n ∙ s.nodes n;
        records = λ j. h.records j ∙ (omega (arith, s.records j, no_mark k j));
        balance = λ n j. rw g.tracker (
            omega
              (arith, h.balance n j, s.counts n j, note_added-balance (w.trackers m) k pi c j n));
      }

  -- A key of the one map is not owed by the other, so its pod is there, or is missing.
  pub listed_if_added :
      (m : ℕ) (k : String) (pi : PodInfo kinds) {w : World U}
      → Tracked m w
      → lookup k (w.trackers m).added_pods ≡ some pi
      → V.count w.snap (home k) k ≡ V.count base (home k) k + 1
  listed_if_added m k pi {w} h e = elim (h.sound.apart k) [
    | inl n ↦ absurd (none-ne-some _ (sym n ∙ e))
    | inr n ↦
        let b = h.balance (home k) k in
        let b' : V.count w.snap (home k) k + debt {A = PodInfo kinds} none (home k) (home k)
            ≡ V.count base (home k) k + debt (some pi) (home k) (home k) =
          rw (n, e) at b in
        omega (arith, b', debt_here pi (home k), debt-none (PodInfo kinds) (home k) (home k))
  ]

  pub missing_if_removed :
      (m : ℕ) (k : String) (pi : PodInfo kinds) {w : World U}
      → Tracked m w
      → lookup k (w.trackers m).removed_pods ≡ some pi
      → V.count w.snap (home k) k + 1 ≡ V.count base (home k) k
  missing_if_removed m k pi {w} h e = elim (h.sound.apart k) [
    | inr n ↦ absurd (none-ne-some _ (sym n ∙ e))
    | inl n ↦
        let b = h.balance (home k) k in
        let b' : V.count w.snap (home k) k + debt (some pi) (home k) (home k)
            ≡ V.count base (home k) k + debt {A = PodInfo kinds} none (home k) (home k) =
          rw (n, e) at b in
        omega (arith, b', debt_here pi (home k), debt-none (PodInfo kinds) (home k) (home k))
  ]
