-- ===== src/Mutation/Restore/Undone.antt =====
-- `RestoreState` takes back what a client has changed through a MutatingSnapshot.
use mathlib.Core.Path.{subst}
use mathlib.Core.Option.{none-ne-some}
use scheduler_library.Base.{
  ℕ, ◌≤◌, ◌≡◌, refl, sym, ap, ◌∙◌, inl, String, false, none, List, [], ◌∷◌, lookup, any, str_eq,
  eq_iff, arith,
}
use scheduler_library.Upstream.{Upstream, PodInfo}
use scheduler_library.Upstream.Laws.{View, Same, Laws}
use scheduler_library.World.{World}
use scheduler_library.Mutation.{empty_tracker}
use scheduler_library.Mutation.Restore.{
  undo_added, undo_removed, restore_added, restore_removed, restore_mutations, Change, make_changes,
  AllAtHome,
}
use scheduler_library.Mutation.Restore.Debts.{debt, debt-none}
use scheduler_library.Mutation.Restore.Calls.{tracker_at}
use scheduler_library.Mutation.Restore.Tracked.{Sound}
use scheduler_library.Mutation.Restore.Balance.{Tracked}
use scheduler_library.Mutation.Restore.Steps.{
  Balanced, added_by, removed_by, changes-Tracked, undo_added-Tracked, undo_removed-Tracked,
}

-- The keys of a map are all in the order.
abbrev pub Covers {ℓ} : {A : Type ℓ} → List String → List (String × A) → Type ℓ
Covers ks t = (k : String) → any (str_eq k) ks ≡ false → lookup k t ≡ none

module _ {U : Upstream} (V : View U) (L : Laws V) (home : String → String) (base : U.Snap)
    (once : (k : String) → V.count base (home k) k ≤ 1) (m : ℕ) where
  open U use {kinds}

  abbrev Kept : World U → Type 0
  Kept = Balanced V L home base once m

  abbrev added_map : World U → List (String × PodInfo kinds)
  added_map = added_by V L home base once m

  abbrev removed_map : World U → List (String × PodInfo kinds)
  removed_map = removed_by V L home base once m

  restore_added-Tracked :
      (ks : List String) (w : World U)
      → Kept w
      → Covers ks (added_map w)
      → Kept (restore_added U m ks w)
        × (((j : String) → lookup j (added_map (restore_added U m ks w)) ≡ none)
            × (removed_map (restore_added U m ks w) ≡ removed_map w))
  unfolding restore_added
  restore_added-Tracked [] w h c = (h, ((λ j. c j refl), refl))
  restore_added-Tracked (k ∷ ks) w h c =
      let (h1, (a1, r1)) = undo_added-Tracked V L home base once m k w h in
      let c1 : Covers ks (added_map (undo_added U m k w)) =
        λ j e. a1 j ∙ (ground (arith, c j, eq_iff j k, eq_iff k j)) in
      let (h2, (a2, r2)) = restore_added-Tracked ks (undo_added U m k w) h1 c1 in
      (h2, (a2, r2 ∙ r1))

  restore_removed-Tracked :
      (ks : List String) (w : World U)
      → Kept w
      → Covers ks (removed_map w)
      → Kept (restore_removed U m ks w)
        × (((j : String) → lookup j (removed_map (restore_removed U m ks w)) ≡ none)
            × (added_map (restore_removed U m ks w) ≡ added_map w))
  unfolding restore_removed
  restore_removed-Tracked [] w h c = (h, ((λ j. c j refl), refl))
  restore_removed-Tracked (k ∷ ks) w h c =
      let (h1, (a1, r1)) = undo_removed-Tracked V L home base once m k w h in
      let c1 : Covers ks (removed_map (undo_removed U m k w)) =
        λ j e. a1 j ∙ (ground (arith, c j, eq_iff j k, eq_iff k j)) in
      let (h2, (a2, r2)) = restore_removed-Tracked ks (undo_removed U m k w) h1 c1 in
      (h2, (a2, r2 ∙ r1))

  -- With nothing owed, the snapshot looks like `base`.
  settled-Same :
      (w : World U)
      → Kept w
      → ((j : String) → lookup j (added_map w) ≡ none)
      → ((j : String) → lookup j (removed_map w) ≡ none)
      → Same V base w.snap
  settled-Same w h a r = record {
    nodes = h.nodes;
    counts = λ n j.
        let b = h.balance n j in
        let none_owed : debt (lookup j (removed_map w)) (home j) n ≡ 0 =
          ap (λ o. debt o (home j) n) (r j) ∙ debt-none (PodInfo kinds) (home j) n in
        let none_added : debt (lookup j (added_map w)) (home j) n ≡ 0 =
          ap (λ o. debt o (home j) n) (a j) ∙ debt-none (PodInfo kinds) (home j) n in
        omega (arith, b, none_owed, none_added);
    records = h.records;
  }

  restore-Same :
      (added removed : List String) (w : World U)
      → Kept w
      → Covers added (added_map w)
      → Covers removed (removed_map w)
      → Same V base (restore_mutations U m added removed w).snap
  unfolding restore_mutations
  restore-Same added removed w h c d =
      let (h1, (a1, r1)) = restore_added-Tracked added w h c in
      let v = restore_added U m added w in
      let d1 : Covers removed (removed_map v) = λ j e. ap (lookup j) r1 ∙ d j e in
      let (h2, (a2, r2)) = restore_removed-Tracked removed v h1 d1 in
      settled-Same (restore_removed U m removed v) h2 (λ j. ap (lookup j) r2 ∙ a1 j) a2

module _ {U : Upstream} (V : View U) (L : Laws V) (home : String → String) where
  -- Take a MutatingSnapshot that is new, on a scheduler snapshot that lists every pod at most once on
  -- the node `home` of its key. Let a client add and remove pods by any calls, failed ones included,
  -- that name each pod with its home, and that add none that is listed there already. Then
  -- `RestoreState`, in any order of the keys of its two maps, leads back to a scheduler snapshot with
  -- the same observations, and empties the maps.
  pub restore_mutations_undoes :
      (m : ℕ) (cs : List (Change U)) (w : World U) (added removed : List String)
      → w.trackers m ≡ empty_tracker U
      → ((k : String) → V.count w.snap (home k) k ≤ 1)
      → AllAtHome U V home m cs w
      → Covers added ((make_changes U m cs w).trackers m).added_pods
      → Covers removed ((make_changes U m cs w).trackers m).removed_pods
      → Same V w.snap (restore_mutations U m added removed (make_changes U m cs w)).snap
        × ((restore_mutations U m added removed (make_changes U m cs w)).trackers m
            ≡ empty_tracker U)
  unfolding restore_mutations
  restore_mutations_undoes m cs w added removed fresh once at_home c d = (
    restore-Same V L home w.snap once m added removed (make_changes U m cs w)
        (changes-Tracked V L home w.snap once m cs w begun at_home) c d,
    tracker_at U (restore_removed U m removed (restore_added U m added (make_changes U m cs w))) m
        (empty_tracker U),
  )
    where
      begun : Tracked V home w.snap m w
      begun = record {
        sound = subst (Sound U home w.snap) (sym fresh) (record {
          apart = λ k. inl refl;
          added = λ k pi e. absurd (none-ne-some _ e);
          removed = λ k pi e. absurd (none-ne-some _ e);
        });
        nodes = λ n. refl;
        records = λ k. refl;
        balance = λ n j. rw fresh refl;
      }
