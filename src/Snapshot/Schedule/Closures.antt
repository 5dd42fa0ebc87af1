-- ===== src/Snapshot/Schedule/Closures.antt =====
-- The closures of the library leave the fields of the caller's pods alone: running the undo log takes
-- back no `Spec.NodeName`.
use mathlib.Core.Path.{subst}
use mathlib.Core.Option.{none-ne-some, some-injective}
use scheduler_library.Base.{
  ◌+◌, ◌-◌, ◌%◌, ◌^◌, sym, ap, ℕ, zero, suc, ◌≡◌, refl, ◌∙◌, inl, inr, Option, none, some, List, [],
  ◌∷◌, length, ◌==◌, Bool-cases, Option-cases,
}
use scheduler_library.Upstream.{Upstream, Pod}
use scheduler_library.World.{World, Undo}
use scheduler_library.Trail.{OnReturn}
use scheduler_library.UndoLog.{UndoLog, undo, restore_loop, restore_state}
use scheduler_library.Scheduler.Filters.Sound.{All}
use scheduler_library.Snapshot.Types.{ClusterSnapshot, restore}

module _ (U : Upstream) where
  abbrev pub KeepsPods : Undo U → Type 0
  KeepsPods op = (w : World U) → (op w).pods ≡ w.pods

  abbrev pub MayKeepPods : Option (Undo U) → Type 0
  MayKeepPods none = Unit
  MayKeepPods (some op) = KeepsPods op

  restore_loop_pods :
      (k v : ℕ) (ops : List (Undo U)) (n : ℕ) (w : World U)
      → All KeepsPods ops
      → OnReturn
          (λ (x : UndoLog (World U) × World U). x.1.pods ≡ w.pods)
          (restore_loop k v (record { undo_operations = ops; state_version = n }) w)
  unfolding restore_loop undo
  restore_loop_pods zero v ops n w h = elim (Bool-cases (n == v)) [
    | inl q ↦ rw (q, restore_loop) refl
    | inr q ↦ rw (q, restore_loop) tt
  ]
  restore_loop_pods (suc k) v [] n w h = elim (Bool-cases (n == v)) [
    | inl q ↦ rw (q, restore_loop) refl
    | inr q ↦ rw (q, restore_loop) tt
  ]
  restore_loop_pods (suc k) v (op ∷ ops) n w h = elim (Bool-cases (n == v)) [
    | inl q ↦ rw (q, restore_loop) refl
    | inr q ↦
        rw (q, restore_loop)
          (subst
            (λ (ps : ℕ → Pod U.kinds).
              OnReturn (λ (x : UndoLog (World U) × World U). x.1.pods ≡ ps)
                (restore_loop k v
                  (record { undo_operations = ops; state_version = (n + 2 ^ 64 - 1) % 2 ^ 64 })
                  (op w)))
            (h.0 w) (restore_loop_pods k v ops ((n + 2 ^ 64 - 1) % 2 ^ 64) (op w) h.1))
  ]

  -- Whatever `restoreState` takes back, the pods are as they are.
  pub restore_pods :
      (v : ℕ) (s t : ClusterSnapshot U)
      → All KeepsPods s.undo_log.undo_operations
      → restore U v s ≡ some t
      → t.world.pods ≡ s.world.pods
  unfolding restore restore_state
  restore_pods v s t h e = elim (Option-cases (restore_state v s.undo_log s.world)) [
    | inl q ↦ absurd (none-ne-some _ (rw (q, restore) at e))
    | inr (x, q) ↦
        let kept : x.1.pods ≡ s.world.pods = rw q at (
          restore_loop_pods (length s.undo_log.undo_operations) v s.undo_log.undo_operations
            s.undo_log.state_version s.world h) in
        ap (λ (y : ClusterSnapshot U). y.world.pods)
          (sym (some-injective _ _ (rw (q, restore) at e)))
        ∙ kept
  ]
