-- ===== src/Tests/Cache.antt =====
-- A cache that updates a snapshot only if it has changed since the last time.
use scheduler_library.Base.{
  ℕ, ◌≡◌, sym, ap, ◌∙◌, inl, inr, String, Bool, true, false, Option, none, if◌then◌else◌,
  Bool-cases,
}
use mathlib.Core.Bool.{true≢false}
use scheduler_library.Upstream.{Error}
use scheduler_library.ClusterState.Synced.{CacheLaws}
use scheduler_library.Tests.Cluster.{Listing, kinds, view}

pub record Nodes : Type 0 where
  pub pods : String → String → ℕ
  pub dirty : Bool

abbrev pub no_nodes : Nodes
no_nodes = record { pods = λ n k. 0; dirty = false }

abbrev pub refresh : Nodes → Listing → Option (Error kinds) × Listing × Nodes
refresh c s =
    if c.dirty
    then (none, record s { listed = c.pods }, record c { dirty = false })
    else (none, s, c)

-- A change puts other pods on the nodes.
abbrev pub relist : (String → String → ℕ) → Nodes → Nodes
relist f c = record { pods = f; dirty = true }

abbrev UpToDate : Nodes → Listing → Type 0
UpToDate c s = c.dirty ≡ false → (n k : String) → s.listed n k ≡ c.pods n k

pub refresh_lists :
    (c : Nodes) (s : Listing) {c' : Nodes} {t : Listing}
    → UpToDate c s
    → refresh c s ≡ (none, t, c')
    → (n k : String) → (t.listed n k ≡ c.pods n k) × (t.listed n k ≡ c'.pods n k)
refresh_lists c s up h n k = elim (Bool-cases c.dirty) [
  | inl q ↦
      let e = sym (rw q at h) in
      let same = ap (λ x. x.1.listed n k) e in (same, same ∙ ap (λ x. x.2.pods n k) (sym e))
  | inr q ↦
      let e = sym (rw q at h) in
      let same = ap (λ x. x.1.listed n k) e ∙ up q n k in
      (same, same ∙ ap (λ x. x.2.pods n k) (sym e))
]

abbrev pub cache-Laws : CacheLaws view Nodes refresh (String → String → ℕ) relist
cache-Laws = record {
  listed = λ c. c.pods;
  Taken = UpToDate;
  taken_same = λ g up q n k. sym (g.counts n k) ∙ up q n k;
  taken_before = λ f up q. absurd (true≢false q);
  update_lists = λ {c} {c'} {s} {t} up h n k. (refresh_lists c s up h n k).0;
  update_takes = λ {c} {c'} {s} {t} up h q n k. (refresh_lists c s up h n k).1;
}
