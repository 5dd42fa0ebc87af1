-- ===== src/Snapshot/Preempt.antt =====
-- `PreemptPods` and `Unpreempt`.
pub mod Grown
pub mod Rollback
pub mod Handles
pub mod Expiry
pub mod RoundTrip
use scheduler_library.Base.{
  ℕ, Bool, true, false, Option, none, some, List, [], ◌∷◌, reverse, ◌==◌, str_eq, any,
  if◌then◌else◌,
}
use scheduler_library.Upstream.{
  Upstream, Error, Errors, end, also, message, wrap, joined, Result, ok, err,
}
use scheduler_library.World.{World, Undo}
use scheduler_library.Mutation.{new_mutating_snapshot, add_pod_to_node, remove_pod_from_node}
use scheduler_library.Snapshot.Types.{ClusterSnapshot, Unpreemption, register, restore}

module _ (U : Upstream) where
  open U use {kinds}

  abbrev pub set_world : World U → ClusterSnapshot U → ClusterSnapshot U
  set_world w s = record s { world = w }

  -- The rest of the loop's body, and of the loop, once the pod has been removed or not.
  abbrev pub after_removal :
      (ClusterSnapshot U → Option (Error kinds) × ClusterSnapshot U)
      → ClusterSnapshot U
      → Result kinds (Undo U) × World U
      → Option (Error kinds) × ClusterSnapshot U
  after_removal go s (err e, w) =
      (some (wrap "failed to unreserve and forget pod" e), set_world w s)
  after_removal go s (ok undo, w) = go (register U (some undo) (set_world w s))

  -- The loop of `PreemptPods` over the pods, up to the first error.
  unfoldable pub preempt_loop :
      ℕ → List ℕ → ClusterSnapshot U → Option (Error kinds) × ClusterSnapshot U
  preempt_loop m [] s = (none, s)
  preempt_loop m (r ∷ rs) s =
      after_removal (preempt_loop m rs) s (remove_pod_from_node U m r s.world)

  abbrev pub unassigned : ClusterSnapshot U → ℕ → Bool
  unassigned s r = str_eq (s.world.pods r).spec.node_name ""

  pub record Preempted : Type 0 where
    pub result : Result kinds (Unpreemption U)
    pub snapshot : ClusterSnapshot U

  -- The deferred function and the result, after the loop.
  unfoldable pub finish_preempt :
      ℕ → ℕ → List ℕ → Option (Error kinds) × ClusterSnapshot U → Option Preempted
  finish_preempt v m pods (some e, s) = elim (restore U v s) [
    | none ↦ none
    | some s' ↦ some (record { result = err e; snapshot = s' })
  ]
  finish_preempt v m pods (none, s) = some (record {
    result = ok (record {
      pods = pods;
      tracker = m;
      reverted = false;
      valid_preemption_version = s.preemption_version;
    });
    snapshot = s;
  })

  unfoldable pub preempt_pods : List ℕ → ClusterSnapshot U → Option Preempted
  unfolding preempt_loop finish_preempt
  preempt_pods pods s =
      if any (unassigned s) pods
      then some (record { result = err (message "pod has no node name"); snapshot = s })
      else (let (m, w) = new_mutating_snapshot U s.world in
          finish_preempt s.undo_log.state_version m pods (preempt_loop m pods (set_world w s)))

  abbrev pub after_addition :
      ClusterSnapshot U → Result kinds (Undo U) × World U → Option (Error kinds) × ClusterSnapshot U
  after_addition s (err e, w) = (some (wrap "failed to unpreempt pod" e), set_world w s)
  after_addition s (ok undo, w) = (none, register U (some undo) (set_world w s))

  -- One closure of `unpreemptFns`: the pod and its node name are read when it runs.
  unfoldable pub unpreempt_one :
      ℕ → ℕ → ClusterSnapshot U → Option (Error kinds) × ClusterSnapshot U
  unpreempt_one m r s =
      let p = s.world.pods r in after_addition s (add_pod_to_node U m p p.spec.node_name s.world)

  abbrev pub note_error : Option (Error kinds) → Errors kinds → Errors kinds
  note_error none es = es
  note_error (some e) es = also e es

  -- The loop of `unpreemptFn`, which goes on after an error.
  unfoldable pub unpreempt_loop : ℕ → List ℕ → ClusterSnapshot U → Errors kinds × ClusterSnapshot U
  unpreempt_loop m [] s = (end, s)
  unpreempt_loop m (r ∷ rs) s =
      let (e, s1) = unpreempt_one m r s in
      let (es, s2) = unpreempt_loop m rs s1 in (note_error e es, s2)

  -- `errors.Join`
  abbrev pub join_errors : Errors kinds → Option (Error kinds)
  join_errors end = none
  join_errors (also e es) = some (joined (also e es))

  -- `u.revertFn()`
  abbrev pub revert_preemption :
      Unpreemption U → ClusterSnapshot U → Option (Error kinds) × ClusterSnapshot U
  revert_preemption u s =
      let (es, s') = unpreempt_loop u.tracker (reverse u.pods) s in (join_errors es, s')

  -- The pods that are back, the handle and the snapshot.
  pub record Unpreempted : Type 0 where
    pub result : Result kinds (List ℕ)
    pub handle : Option (Unpreemption U)
    pub snapshot : ClusterSnapshot U

  abbrev pub result_of : Option (Error kinds) → List ℕ → Result kinds (List ℕ)
  result_of none pods = ok pods
  result_of (some e) pods = err e

  unfoldable pub unpreempt : Option (Unpreemption U) → ClusterSnapshot U → Unpreempted
  unfolding unpreempt_loop unpreempt_one
  unpreempt none s = record {
    result = err (message "preemption handle is nil");
    handle = none;
    snapshot = s;
  }
  unpreempt (some u) s =
      if s.preemption_version == u.valid_preemption_version
      then (if u.reverted
          then record {
            result = err (message "preemption handle is invalid: already unpreempted");
            handle = some u;
            snapshot = s;
          }
          else (let (e, s') = revert_preemption u s in
              record {
                result = result_of e u.pods;
                handle = some (record u { reverted = true });
                snapshot = s';
              }))
      else record {
        result = err (
            message
              "preemption handle is invalid: snapshot has been permanently mutated since preemption");
        handle = some u;
        snapshot = s;
      }
