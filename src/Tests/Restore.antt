-- ===== src/Tests/Restore.antt =====
-- Adding, removing and restoring through a MutatingSnapshot.
use mathlib.Core.Path.{subst}
use scheduler_library.Base.{
  ◌+◌, ◌≤◌, ◌≡◌, refl, String, false, none, List, [], ◌∷◌, lookup, any, str_eq, eq_iff, arith,
  if◌then◌else◌,
}
use scheduler_library.Upstream.{PodInfo}
use scheduler_library.Upstream.Laws.{Same, one}
use scheduler_library.World.{World}
use scheduler_library.Mutation.{empty_tracker, remove_pod, add_pod}
use scheduler_library.Upstream.Results.{ok-injective}
use scheduler_library.Mutation.Restore.{
  Change, adds, removes, make_change, make_changes, restore_mutations,
}
use scheduler_library.Mutation.Restore.Undone.{restore_mutations_undoes}
use scheduler_library.Mutation.Restore.Moved.{moved_pod_stays}
use scheduler_library.Tests.Cluster.{cluster, kinds, view, remove}
use scheduler_library.Tests.Cluster.Assumptions.{cluster-Laws}
use scheduler_library.Tests.Fixture.{a_pod, world}

abbrev home : String → String
home k = if str_eq k "a" then "n1" else "n2"

abbrev info : String → String → PodInfo kinds
info k n = record { pod = a_pod k n; terms = tt }

-- A pod that is listed goes, one that is not listed comes, and a third removal fails.
abbrev changes : List (Change cluster)
changes = removes (info "a" "n1") ∷ adds (info "b" "n2") ∷ removes (info "c" "n2") ∷ []

abbrev changed : World cluster
changed = make_changes cluster 0 changes world

abbrev once_changed : World cluster
once_changed = make_change cluster 0 (removes (info "a" "n1")) world

listed_once-le : (k : String) → world.snap.listed (home k) k ≤ 1
listed_once-le k = ground (arith, eq_iff k "a")

covered :
    {A : Type 0} (k j : String) (v : A)
    → any (str_eq j) (k ∷ []) ≡ false
    → lookup j ((k, v) ∷ []) ≡ none
covered k j v h = ground (arith, eq_iff k j, eq_iff j k)

restore_mutations_undoes_example :
    Same view (world.snap) (restore_mutations cluster 0 ("b" ∷ []) ("a" ∷ []) changed).snap
    × ((restore_mutations cluster 0 ("b" ∷ []) ("a" ∷ []) changed).trackers 0
        ≡ empty_tracker cluster)
unfolding make_change remove_pod remove one make_changes add_pod
restore_mutations_undoes_example =
    restore_mutations_undoes view cluster-Laws home 0 changes world ("b" ∷ []) ("a" ∷ []) refl
      listed_once-le
      (
        (λ k e. subst (λ j. "n1" ≡ home j) (ok-injective e) refl),
        (
          (λ k e.
              subst (λ j. ("n2" ≡ home j) × (once_changed.snap.listed (home j) j ≡ 0))
                (ok-injective e) (refl, refl)),
          ((λ k e. subst (λ j. "n2" ≡ home j) (ok-injective e) refl), tt),
        ),
      )
      (λ k e. covered "b" k (info "b" "n2") e) (λ k e. covered "a" k (info "a" "n1") e)

abbrev moved : List (Change cluster)
moved = removes (info "a" "n1") ∷ adds (info "a" "n2") ∷ []

moved_pod_stays_example :
    let s =
      (restore_mutations cluster 0
        ("a" ∷ [])
        ("a" ∷ [])
        (make_changes cluster 0 moved world)).snap in
    (s.listed "n1" "a" + 1 ≡ 1) × (s.listed "n2" "a" ≡ 0 + 1)
moved_pod_stays_example =
    moved_pod_stays view cluster-Laws 0 "a" (info "a" "n1") (info "a" "n2") world ("a" ∷ [])
      ("a" ∷ []) refl (record { node = "n1"; has_key = refl; found = refl; known = refl })
      (record { node = "n2"; has_key = refl; found = refl; known = refl }) (omega arith) refl
