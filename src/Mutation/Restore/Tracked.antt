-- ===== src/Mutation/Restore/Tracked.antt =====
-- The two maps of a MutatingSnapshot balance what has happened to the scheduler snapshot.
use mathlib.Core.Path.{subst}
use scheduler_library.Base.{
  ◌≡◌, refl, ◌⊎◌, inl, inr, String, true, false, none, some, List, lookup, insert, erase,
  lookup-insert, lookup-erase, is_some, str_eq, eq_iff, arith, Bool-cases, Option-cases,
}
use scheduler_library.Upstream.{Upstream, PodInfo}
use scheduler_library.World.{Tracker}
use scheduler_library.Mutation.{note_removed, note_added}
use scheduler_library.Mutation.Restore.Calls.{Reached}

-- No key stands in both maps, and every entry is for a pod of its key, on the key's home, which is in
-- the snapshot `base`.
module _ (U : Upstream) (home : String → String) (base : U.Snap) where
  open U use {kinds}

  pub record Home (k : String) (pi : PodInfo kinds) : Type 0 where
    pub reached : Reached U base pi.pod k
    pub node_name : pi.pod.spec.node_name ≡ home k

  pub record Sound (t : Tracker U) : Type 0 where
    pub apart : (k : String) → (lookup k t.added_pods ≡ none) ⊎ (lookup k t.removed_pods ≡ none)
    pub added : (k : String) (pi : PodInfo kinds) → lookup k t.added_pods ≡ some pi → Home k pi
    pub removed : (k : String) (pi : PodInfo kinds) → lookup k t.removed_pods ≡ some pi → Home k pi

  inserted :
      (k : String) (pi : PodInfo kinds) (m : List (String × PodInfo kinds))
      → Home k pi
      → ((j : String) (q : PodInfo kinds) → lookup j m ≡ some q → Home j q)
      → (j : String) (q : PodInfo kinds) → lookup j (insert k pi m) ≡ some q
      → Home j q
  inserted k pi m h all j q e = elim (Bool-cases (str_eq k j)) [
    | inr n ↦ all j q (ground (arith, lookup-insert j k pi m))
    | inl n ↦
        let same_key : k ≡ j = ground (arith, eq_iff k j) in
        let same : pi ≡ q = ground (arith, lookup-insert j k pi m) in
        subst (λ i. Home i q) same_key (subst (Home k) same h)
  ]

  erased :
      (k : String) (m : List (String × PodInfo kinds))
      → ((j : String) (q : PodInfo kinds) → lookup j m ≡ some q → Home j q)
      → (j : String) (q : PodInfo kinds) → lookup j (erase k m) ≡ some q
      → Home j q
  erased k m all j q e = all j q (ground (arith, lookup-erase j k m))

  -- The debts of the two maps before and after a pod of key `k` is taken away.
  pub note_removed-Sound :
      (t : Tracker U) (k : String) (pi : PodInfo kinds)
      → Sound t
      → Home k pi
      → Sound (note_removed U t k pi)
  note_removed-Sound t k pi h g = elim (Option-cases (lookup k t.added_pods)) [
    | inr (q, e) ↦
        let has : is_some (lookup k t.added_pods) ≡ true = rw e refl in
        rw has (record {
          apart = λ j. elim (h.apart j) [
            | inl n ↦ inl (ground (arith, lookup-erase j k t.added_pods))
            | inr n ↦ inr n
          ];
          added = erased k t.added_pods h.added;
          removed = h.removed;
        })
    | inl e ↦
        let has : is_some (lookup k t.added_pods) ≡ false = rw e refl in
        rw has (record {
          apart = λ j. elim (Bool-cases (str_eq k j)) [
            | inl n ↦
                let same : k ≡ j = ground (arith, eq_iff k j) in
                inl (subst (λ i. lookup i t.added_pods ≡ none) same e)
            | inr n ↦ elim (h.apart j) [
              | inl x ↦ inl x
              | inr x ↦ inr (ground (arith, lookup-insert j k pi t.removed_pods))
            ]
          ];
          added = h.added;
          removed = inserted k pi t.removed_pods g h.removed;
        })
  ]

  pub note_added-Sound :
      (t : Tracker U) (k : String) (pi : PodInfo kinds)
      → Sound t
      → Home k pi
      → Sound (note_added U t k pi)
  note_added-Sound t k pi h g = elim (Option-cases (lookup k t.removed_pods)) [
    | inr (q, e) ↦
        let has : is_some (lookup k t.removed_pods) ≡ true = rw e refl in
        rw has (record {
          apart = λ j. elim (h.apart j) [
            | inl n ↦ inl n
            | inr n ↦ inr (ground (arith, lookup-erase j k t.removed_pods))
          ];
          added = h.added;
          removed = erased k t.removed_pods h.removed;
        })
    | inl e ↦
        let has : is_some (lookup k t.removed_pods) ≡ false = rw e refl in
        rw has (record {
          apart = λ j. elim (Bool-cases (str_eq k j)) [
            | inl n ↦
                let same : k ≡ j = ground (arith, eq_iff k j) in
                inr (subst (λ i. lookup i t.removed_pods ≡ none) same e)
            | inr n ↦ elim (h.apart j) [
              | inr x ↦ inr x
              | inl x ↦ inl (ground (arith, lookup-insert j k pi t.added_pods))
            ]
          ];
          added = inserted k pi t.added_pods g h.added;
          removed = h.removed;
        })
  ]
