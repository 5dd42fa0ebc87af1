-- ===== src/World.antt =====
-- What the closures of the library act on: the caller's pods, which are shared by pointer, the
-- scheduler snapshot, the state of the plugins, and the maps of every MutatingSnapshot.
use scheduler_library.Base.{ℕ, String, List, ◌==◌, if◌then◌else◌}
use scheduler_library.Upstream.{Upstream, Pod, PodInfo}

-- The two maps of a MutatingSnapshot. The closure stored for a key is the opposite call on the
-- pod info that stands here.
pub record Tracker (U : Upstream) : Type 0 where
  pub added_pods : List (String × PodInfo U.kinds)
  pub removed_pods : List (String × PodInfo U.kinds)

pub record World (U : Upstream) : Type 0 where
  -- `*v1.Pod` is a number, and `pods` is the store that it points into
  pub pods : ℕ → Pod U.kinds
  pub next_pod : ℕ
  pub snap : U.Snap
  pub env : U.Env
  pub trackers : ℕ → Tracker U
  pub next_tracker : ℕ

-- `func()`
abbrev pub Undo : Upstream → Type 0
Undo U = World U → World U

-- `f[p] = v`
abbrev pub update {ℓ} : {A : Type ℓ} → (ℕ → A) → ℕ → A → ℕ → A
update f p v q = if p == q then v else f q

module _ (U : Upstream) where
  open U use {kinds}

  abbrev pub with_node_name : Pod kinds → String → Pod kinds
  with_node_name p n = record p { spec = record (p.spec) { node_name = n } }

  -- `pod.Spec.NodeName = n`
  abbrev pub set_node_name : World U → ℕ → String → World U
  set_node_name w r n = record w { pods = update w.pods r (with_node_name (w.pods r) n) }
