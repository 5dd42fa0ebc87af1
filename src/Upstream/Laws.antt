-- ===== src/Upstream/Laws.antt =====
-- What the library relies on in `cache.Snapshot` and `framework.NodeInfo`, as hypotheses: the
-- effect of each call on how many pods of a key every node lists, and on how often a key is
-- recorded as assumed. The order of the pods on a node is no part of it.
use scheduler_library.Base.{
  ℕ, ◌+◌, ◌<◌, ◌≡◌, refl, sym, ◌∙◌, String, true, false, ◌&&◌, none, some, [], arith, str_eq,
  eq_iff, if◌then◌else◌,
}
use scheduler_library.Upstream.{Upstream, Pod, PodInfo, Placement, Error, ok}

-- The count that one pod with key `k` on node `n` adds to key `j` on node `m`.
unfoldable pub one : String → String → String → String → ℕ
one n k m j = if str_eq n m && str_eq k j then 1 else 0

-- The records that `a` assumed pods with key `k` add to key `j`.
unfoldable pub mark : ℕ → String → String → ℕ
mark a k j = if str_eq k j then a else 0

pub one_self : (n k : String) → one n k n k ≡ 1
unfolding one
one_self n k = ground (arith, eq_iff n n, eq_iff k k)

pub mark_self : (a : ℕ) (k : String) → mark a k k ≡ a
unfolding mark
mark_self a k = ground (arith, eq_iff k k)

-- What can be observed of a `cache.Snapshot`.
pub record View (U : Upstream) : Type 0 where
  pub count : U.Snap → String → String → ℕ
  pub assumed : U.Snap → String → ℕ

module _ {U : Upstream} (V : View U) where
  open U use {kinds, Snap, Node}

  -- The same nodes, and on each of them the same pods.
  pub record Same (s t : Snap) : Type 0 where
    pub nodes : (n : String) → U.get s n ≡ U.get t n
    pub counts : (n k : String) → V.count s n k ≡ V.count t n k
    pub records : (k : String) → V.assumed s k ≡ V.assumed t k

  -- `t` has one more pod than `s`: with key `k`, on node `n`, recorded as assumed `a` times.
  pub record Grows (a : ℕ) (n k : String) (s t : Snap) : Type 0 where
    pub nodes : (m : String) → U.get s m ≡ U.get t m
    pub counts : (m j : String) → V.count t m j ≡ V.count s m j + one n k m j
    pub records : (j : String) → V.assumed t j ≡ V.assumed s j + mark a k j

  pub Same-refl : (s : Snap) → Same s s
  Same-refl s = record { nodes = λ n. refl; counts = λ n k. refl; records = λ k. refl }

  pub Same-sym : {s t : Snap} → Same s t → Same t s
  Same-sym h = record {
    nodes = λ n. sym (h.nodes n);
    counts = λ n k. sym (h.counts n k);
    records = λ k. sym (h.records k);
  }

  pub Same-trans : {s t u : Snap} → Same s t → Same t u → Same s u
  Same-trans h g = record {
    nodes = λ n. h.nodes n ∙ g.nodes n;
    counts = λ n k. h.counts n k ∙ g.counts n k;
    records = λ k. h.records k ∙ g.records k;
  }

  -- Growth is seen from any snapshots that look the same.
  pub Grows-cong :
      {a : ℕ} {n k : String} {s s' t t' : Snap}
      → Same s s'
      → Same t t'
      → Grows a n k s t
      → Grows a n k s' t'
  Grows-cong {a} {n} {k} h g r = record {
    nodes = λ m. sym (h.nodes m) ∙ (r.nodes m ∙ g.nodes m);
    counts = λ m j. omega (arith, h.counts m j, g.counts m j, r.counts m j);
    records = λ j. omega (arith, h.records j, g.records j, r.records j);
  }

  -- Taking the same pod away again leads back.
  pub Grows-cancel :
      {a : ℕ} {n k : String} {s t u : Snap} → Grows a n k s t → Grows a n k u t → Same s u
  Grows-cancel h g = record {
    nodes = λ m. h.nodes m ∙ sym (g.nodes m);
    counts = λ m j. omega (arith, h.counts m j, g.counts m j);
    records = λ j. omega (arith, h.records j, g.records j);
  }

  -- So does putting it back.
  pub Grows-again :
      {a : ℕ} {n k : String} {s t u : Snap} → Grows a n k s t → Grows a n k s u → Same t u
  Grows-again h g = record {
    nodes = λ m. sym (h.nodes m) ∙ g.nodes m;
    counts = λ m j. omega (arith, h.counts m j, g.counts m j);
    records = λ j. omega (arith, h.records j, g.records j);
  }

  pub Grows-count :
      {a : ℕ} {n k : String} {s t : Snap} → Grows a n k s t → V.count t n k ≡ V.count s n k + 1
  Grows-count {n} {k} h = omega (arith, h.counts n k, one_self n k)

  pub Grows-record :
      {n k : String} {s t : Snap} → Grows 1 n k s t → V.assumed t k ≡ V.assumed s k + 1
  Grows-record {k} h = omega (arith, h.records k, mark_self 1 k)

  pub record Laws : Type 0 where
    -- the key of a pod is its UID, whatever its node
    pub key_of_node :
        (p : Pod kinds) (n : String)
        → U.get_pod_key (record p { spec = record (p.spec) { node_name = n } }) ≡ U.get_pod_key p
    pub set_generation_same : (s : Snap) (ni : Node) (g : ℕ) → Same s (U.set_generation s ni g)
    -- `NodeInfo.AddPodInfo` and `NodeInfo.RemovePod`
    pub add_grows :
        (s : Snap) (n k : String) (ni : Node) (p : PodInfo kinds)
        → U.get s n ≡ ok ni
        → U.get_pod_key p.pod ≡ ok k
        → Grows 0 n k s (U.node_add_pod_info s ni p)
    pub remove_shrinks :
        (s t : Snap) (n k : String) (ni : Node) (p : Pod kinds)
        → U.get s n ≡ ok ni
        → U.get_pod_key p ≡ ok k
        → U.node_remove_pod s ni p ≡ (none, t)
        → Grows 0 n k t s
    pub remove_found :
        (s : Snap) (n k : String) (ni : Node) (p : Pod kinds)
        → U.get s n ≡ ok ni
        → U.get_pod_key p ≡ ok k
        → 0 < V.count s n k
        → (U.node_remove_pod s ni p).0 ≡ none
    pub remove_failed :
        (s t : Snap) (e : Error kinds) (ni : Node) (p : Pod kinds)
        → U.node_remove_pod s ni p ≡ (some e, t)
        → Same s t
    -- `Snapshot.AssumePlacement` and `Snapshot.ForgetPlacement`
    pub assume_placement_same :
        (s : Snap) (pl : Placement kinds) → Same s (U.assume_placement s pl).1
    pub forget_placement_same : (s : Snap) → Same s (U.forget_placement s)
    -- `Snapshot.AssumePod` and `Snapshot.ForgetPod`
    pub assume_key :
        (s t : Snap) (p : PodInfo kinds)
        → U.assume_pod s p ≡ (none, t)
        → (k : String) × (U.get_pod_key p.pod ≡ ok k)
    pub assume_grows :
        (s t : Snap) (k : String) (p : PodInfo kinds)
        → U.get_pod_key p.pod ≡ ok k
        → U.assume_pod s p ≡ (none, t)
        → Grows 1 p.pod.spec.node_name k s t
    pub assume_failed :
        (s t : Snap) (e : Error kinds) (p : PodInfo kinds)
        → U.assume_pod s p ≡ (some e, t)
        → Same s t
    pub forget_shrinks :
        (s : Snap) (k : String) (p : Pod kinds)
        → U.get_pod_key p ≡ ok k
        → 0 < V.count s p.spec.node_name k
        → 0 < V.assumed s k
        → Grows 1 p.spec.node_name k (U.forget_pod s p).1 s

-- What the library relies on in `fwk.Status`: a nil status is a success, and one that is made from
-- an error or of a rejecting code is not.
pub record StatusLaws (U : Upstream) : Type 0 where
  pub nil_succeeds : U.is_success U.nil_status ≡ true
  pub as_status_fails : (e : Error U.kinds) → U.is_success (U.as_status e) ≡ false
  pub unresolvable_fails :
      (e : Error U.kinds) → U.is_success (U.with_error (U.new_status U.unresolvable []) e) ≡ false
  pub unschedulable_fails :
      (e : Error U.kinds) → U.is_success (U.with_error (U.new_status U.unschedulable []) e) ≡ false
  pub rejected_fails :
      (st : U.Status) (e : Error U.kinds)
      → U.is_rejected st ≡ true
      → U.is_success (U.with_error (U.new_status (U.code st) []) e) ≡ false
