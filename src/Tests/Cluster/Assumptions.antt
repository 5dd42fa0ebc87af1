-- ===== src/Tests/Cluster/Assumptions.antt =====
-- The concrete cluster meets all the assumptions on the external code.
use mathlib.Core.Path.{subst}
use mathlib.Core.Bool.{true≢false}
use scheduler_library.Upstream.Results.{ok-injective}
use scheduler_library.Scheduler.Returns.{ScoreLaws}
use scheduler_library.Scheduler.Returns.Fits.{CountLaws}
use scheduler_library.Base.{
  ℕ, zero, suc, List, [], ◌∷◌, length, ap, map, is_empty, ◌+◌, ◌-◌, ◌≤◌, ◌<◌, ◌≡◌, refl, sym,
  String, true, false, none, some, ◌==◌, eq_iff, arith,
}
use scheduler_library.Upstream.{Pod, PodInfo, Error, ok}
use scheduler_library.Upstream.Laws.{one, mark, Same, Grows, Laws, StatusLaws, Same-refl}
use scheduler_library.Tests.Cluster.{
  first, score, Listing, Verdict, kinds, is_good, is_refused, key, grown, shrunk, remove, assume,
  forget, find, cluster, view,
}

one-le : (s : Listing) (n k m j : String) → 0 < s.listed n k → one n k m j ≤ s.listed m j
unfolding one
one-le s n k m j h = ground (arith, eq_iff n m, eq_iff k j)

mark-le : (s : Listing) (k j : String) → 0 < s.marked k → mark 1 k j ≤ s.marked j
unfolding mark
mark-le s k j h = ground (arith, eq_iff k j)

mark_zero : (k j : String) → mark 0 k j ≡ 0
unfolding mark
mark_zero k j = ground arith

key_is : (p : Pod kinds) (k : String) → key p ≡ ok k → p.uid ≡ k
key_is p k h = ground arith

ok_is : (n ni : String) → find n ≡ ok ni → ni ≡ n
ok_is n ni h = ground arith

grown-Grows : (s : Listing) (n k : String) → Grows view 0 n k s (grown s n k)
grown-Grows s n k = record {
  nodes = λ m. refl;
  counts = λ m j. refl;
  records = λ j. omega (arith, mark_zero k j);
}

shrunk-Grows : (s : Listing) (n k : String) → 0 < s.listed n k → Grows view 0 n k (shrunk s n k) s
shrunk-Grows s n k h = record {
  nodes = λ m. refl;
  counts = λ m j. omega (arith, one-le s n k m j h);
  records = λ j. omega (arith, mark_zero k j);
}

remove_shrinks :
    (s t : Listing) (n k ni : String) (p : Pod kinds)
    → find n ≡ ok ni
    → key p ≡ ok k
    → remove s ni p ≡ (none, t)
    → Grows view 0 n k t s
unfolding remove
remove_shrinks s t n k ni p f q e =
    let a : ni ≡ n = ok_is n ni f in
    let b : p.uid ≡ k = key_is p k q in
    let c : 0 < s.listed ni p.uid = ground arith in
    let d : shrunk s ni p.uid ≡ t = ground arith in
    subst (λ t'. Grows view 0 n k t' s) d
      (subst (λ m. Grows view 0 m k (shrunk s ni p.uid) s) a
        (subst (λ j. Grows view 0 ni j (shrunk s ni p.uid) s) b (shrunk-Grows s ni p.uid c)))

remove_failed :
    (s t : Listing) (e : Error kinds) (ni : String) (p : Pod kinds)
    → remove s ni p ≡ (some e, t)
    → Same view s t
unfolding remove
remove_failed s t e ni p h =
    let d : s ≡ t = ground arith in subst (Same view s) d (Same-refl view s)

remove_found :
    (s : Listing) (n k ni : String) (p : Pod kinds)
    → find n ≡ ok ni
    → key p ≡ ok k
    → 0 < s.listed n k
    → (remove s ni p).0 ≡ none
unfolding remove
remove_found s n k ni p f q h = ground (arith, ok_is n ni f, key_is p k q)

abbrev assumed_in : Listing → String → String → Listing
assumed_in s n k = record (grown s n k) { marked = λ j. s.marked j + mark 1 k j }

assume-Grows :
    (s t : Listing) (k : String) (p : PodInfo kinds)
    → key p.pod ≡ ok k
    → assume s p ≡ (none, t)
    → Grows view 1 p.pod.spec.node_name k s t
unfolding assume
assume-Grows s t k p q e =
    let b : p.pod.uid ≡ k = key_is p.pod k q in
    let d : assumed_in s p.pod.spec.node_name p.pod.uid ≡ t = ground arith in
    subst (λ t'. Grows view 1 p.pod.spec.node_name k s t') d
      (subst
        (λ j. Grows view 1 p.pod.spec.node_name j s (assumed_in s p.pod.spec.node_name p.pod.uid)) b
        (record { nodes = λ m. refl; counts = λ m j. refl; records = λ j. refl }))

assume-key :
    (s t : Listing) (p : PodInfo kinds) → assume s p ≡ (none, t) → (k : String) × (key p.pod ≡ ok k)
unfolding assume
assume-key s t p e = (p.pod.uid, ground arith)

assume_failed :
    (s t : Listing) (e : Error kinds) (p : PodInfo kinds) → assume s p ≡ (some e, t) → Same view s t
unfolding assume
assume_failed s t e p h = let d : s ≡ t = ground arith in subst (Same view s) d (Same-refl view s)

forget_lem :
    (s : Listing) (k : String) (p : Pod kinds)
    → p.uid ≡ k
    → 0 < s.listed p.spec.node_name k
    → 0 < s.marked k
    → (forget s p).1
      ≡ record (shrunk s p.spec.node_name k) { marked = λ j. s.marked j - mark 1 k j }
unfolding forget
forget_lem s k p e a b =
    let p' : (s.listed p.spec.node_name p.uid == 0) ≡ false = ground arith in
    let q : (s.marked p.uid == 0) ≡ false = ground arith in rw (p', q, forget, e)

forget_shrinks :
    (s : Listing) (k : String) (p : Pod kinds)
    → key p ≡ ok k
    → 0 < s.listed p.spec.node_name k
    → 0 < s.marked k
    → Grows view 1 p.spec.node_name k (forget s p).1 s
forget_shrinks s k p q a b =
    subst (λ t. Grows view 1 p.spec.node_name k t s) (sym there)
      (record {
        nodes = λ m. refl;
        counts = λ m j. omega (arith, one-le s p.spec.node_name k m j a);
        records = λ j. omega (arith, mark-le s k j b);
      })
  where
    there :
        (forget s p).1
        ≡ record (shrunk s p.spec.node_name k) { marked = λ j. s.marked j - mark 1 k j }
    there = forget_lem s k p (key_is p k q) a b

pub cluster-Laws : Laws view
cluster-Laws = record {
  key_of_node = λ p n. refl;
  set_generation_same = λ s ni g. Same-refl view s;
  add_grows = λ s n k ni p f q.
      subst (λ m. Grows view 0 m k s (grown s ni p.pod.uid)) (ok_is n ni f)
        (subst (λ j. Grows view 0 ni j s (grown s ni p.pod.uid)) (key_is p.pod k q)
          (grown-Grows s ni p.pod.uid));
  remove_shrinks = remove_shrinks;
  remove_found = remove_found;
  remove_failed = remove_failed;
  assume_placement_same =
      λ s pl. record { nodes = λ n. refl; counts = λ n k. refl; records = λ k. refl };
  forget_placement_same =
      λ s. record { nodes = λ n. refl; counts = λ n k. refl; records = λ k. refl };
  assume_key = assume-key;
  assume_grows = assume-Grows;
  assume_failed = assume_failed;
  forget_shrinks = forget_shrinks;
}

refused_fails : (st : Verdict) → is_refused st ≡ true → is_good st ≡ false
refused_fails st h = ground arith

pub cluster-StatusLaws : StatusLaws cluster
cluster-StatusLaws = record {
  nil_succeeds = refl;
  as_status_fails = λ e. refl;
  unresolvable_fails = λ e. refl;
  unschedulable_fails = λ e. refl;
  rejected_fails = λ st e h. refused_fails st h;
}

length-first : (k : ℕ) (ns : List String) → length (first k ns) ≤ k
length-first zero ns = omega arith
length-first (suc k) [] = omega arith
length-first (suc k) (n ∷ ns) = omega (arith, length-first k ns)

placed_some : (ns : List String) → is_empty ns ≡ false → (length (first 8 ns) == 0) ≡ false
placed_some [] h = absurd (true≢false h)
placed_some (n ∷ ns) h = ground arith

pub cluster-CountLaws : CountLaws cluster
cluster-CountLaws = record {
  listed = λ snap ns e. ap length (sym (ok-injective e));
  placed = λ snap t pl nodes e.
      subst (λ (x : Listing). (length (first 8 x.placement) == 0) ≡ false) (ap (λ x. x.1) e)
        (placed_some pl.nodes nodes);
  few_nodes = λ snap. omega (arith, length-first 8 snap.placement);
  few_names = λ pre. omega arith;
}

length-scores : (ns : List String) → length (map score ns) ≡ length ns
length-scores [] = refl
length-scores (n ∷ ns) = omega (arith, length-scores ns)

pub cluster-ScoreLaws : ScoreLaws cluster
cluster-ScoreLaws = record {
  one_each = λ snap env f p ns e. length-scores ns;
  some_best = λ s ss. refl;
}
