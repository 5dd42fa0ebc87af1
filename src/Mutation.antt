-- ===== src/Mutation.antt =====
-- pkg/upstreamsync/mutable_snapshot.go, and addPodToNode and removePodFromNode of
-- pkg/upstreamsync/snapshot/helpers.go. Loggers are left out.
pub mod Located
pub mod Effects
pub mod Reverts
pub mod Aliasing
pub mod Restore
use scheduler_library.Base.{
  ℕ, ◌+◌, String, Option, none, some, [], lookup, insert, erase, is_some, if◌then◌else◌,
}
use scheduler_library.Upstream.{Upstream, Pod, PodInfo, Error, message, wrap, Result, ok, err}
use scheduler_library.World.{Tracker, World, Undo, update, with_node_name}

module _ (U : Upstream) where
  open U use {kinds, Node}

  -- `NewMutatingSnapshot`
  abbrev pub empty_tracker : Tracker U
  empty_tracker = record { added_pods = []; removed_pods = [] }

  abbrev pub new_mutating_snapshot : World U → ℕ × World U
  new_mutating_snapshot w = (
    w.next_tracker,
    record w {
      trackers = update w.trackers w.next_tracker empty_tracker;
      next_tracker = w.next_tracker + 1;
    },
  )

  -- `GetNodeByPod`
  abbrev pub get_node_by_pod : World U → Pod kinds → Result kinds Node
  get_node_by_pod w p = U.get w.snap p.spec.node_name

  abbrev pub note_removed : Tracker U → String → PodInfo kinds → Tracker U
  note_removed t key pi =
      if is_some (lookup key t.added_pods)
      then record t { added_pods = erase key t.added_pods }
      else record t { removed_pods = insert key pi t.removed_pods }

  abbrev pub note_added : Tracker U → String → PodInfo kinds → Tracker U
  note_added t key pi =
      if is_some (lookup key t.removed_pods)
      then record t { removed_pods = erase key t.removed_pods }
      else record t { added_pods = insert key pi t.added_pods }

  abbrev pub set_tracker : World U → ℕ → Tracker U → World U
  set_tracker w m t = record w { trackers = update w.trackers m t }

  -- The body of `RemovePod` once the node is found; `defer` puts the generation back.
  pub remove_from : ℕ → PodInfo kinds → String → Node → World U → Option (Error kinds) × World U
  remove_from m pi key ni w =
      let old = U.generation w.snap ni in
      let (e, s) = U.node_remove_pod w.snap ni pi.pod in
      let w' = record w { snap = U.set_generation s ni old } in
      elim e [
        | some x ↦ (some x, w')
        | none ↦ (none, set_tracker w' m (note_removed (w'.trackers m) key pi))
      ]

  pub add_to : ℕ → PodInfo kinds → String → Node → World U → Option (Error kinds) × World U
  add_to m pi key ni w =
      let old = U.generation w.snap ni in
      let s = U.node_add_pod_info w.snap ni pi in
      let w' = record w { snap = U.set_generation s ni old } in
      (none, set_tracker w' m (note_added (w'.trackers m) key pi))

  -- The steps that both operations take first.
  abbrev pub on_node :
      (ℕ → PodInfo kinds → String → Node → World U → Option (Error kinds) × World U)
      → ℕ
      → PodInfo kinds
      → World U
      → Option (Error kinds) × World U
  on_node body m pi w = elim (U.get_pod_key pi.pod) [
    | err e ↦ (some e, w)
    | ok key ↦ elim (get_node_by_pod w pi.pod) [
      | err e ↦ (some e, w)
      | ok ni ↦
          if U.is_framework_node ni
          then body m pi key ni w
          else (some (message "unknown node info type"), w)
    ]
  ]

  unfoldable pub remove_pod : ℕ → PodInfo kinds → World U → Option (Error kinds) × World U
  unfolding remove_from
  remove_pod = on_node remove_from

  unfoldable pub add_pod : ℕ → PodInfo kinds → World U → Option (Error kinds) × World U
  unfolding add_to
  add_pod = on_node add_to

  -- `if err != nil { return fmt.Errorf("…: %w", err) }`
  abbrev pub wrapping : String → Option (Error kinds) × World U → Option (Error kinds) × World U
  wrapping s (none, w) = (none, w)
  wrapping s (some e, w) = (some (wrap s e), w)

  abbrev pub with_undo : Undo U → Option (Error kinds) × World U → Result kinds (Undo U) × World U
  with_undo u (none, w) = (ok u, w)
  with_undo u (some e, w) = (err e, w)

  -- `removePodFromNode` without the closure that it returns. The pod is a deep copy.
  unfoldable pub remove_pod_effect : ℕ → Pod kinds → World U → Option (Error kinds) × World U
  remove_pod_effect m p w = elim (U.pod_terms p) [
    | err e ↦ (some (wrap "failed to create pod info" e), w)
    | ok t ↦
        wrapping "failed to remove pod from snapshot"
          (remove_pod m (record { pod = p; terms = t }) w)
  ]

  -- `addPodToNode` without the closure that it returns.
  unfoldable pub add_pod_effect : ℕ → Pod kinds → String → World U → Option (Error kinds) × World U
  add_pod_effect m p n w =
      let p' = with_node_name U p n in
      elim (U.pod_terms p') [
        | err e ↦ (some (wrap "failed to create pod info" e), w)
        | ok t ↦
            wrapping "failed to add pod to snapshot" (add_pod m (record { pod = p'; terms = t }) w)
      ]

  -- The closures. `addPodToNode` keeps its own copy of the pod; `removePodFromNode` keeps the
  -- caller's pointer, and reads the pod and its node name through it when the closure runs.
  unfoldable pub undo_add : ℕ → Pod kinds → String → Undo U
  undo_add m p n w = (remove_pod_effect m (with_node_name U p n) w).1

  unfoldable pub undo_remove : ℕ → ℕ → Undo U
  undo_remove m r w = (add_pod_effect m (w.pods r) (w.pods r).spec.node_name w).1

  unfoldable pub add_pod_to_node :
      ℕ → Pod kinds → String → World U → Result kinds (Undo U) × World U
  add_pod_to_node m p n w = with_undo (undo_add m p n) (add_pod_effect m p n w)

  unfoldable pub remove_pod_from_node : ℕ → ℕ → World U → Result kinds (Undo U) × World U
  remove_pod_from_node m r w = with_undo (undo_remove m r) (remove_pod_effect m (w.pods r) w)
