-- ===== src/UndoLog/Restore.antt =====
-- `restoreState` pops and runs exactly the operations registered since the version was recorded.
use scheduler_library.Base.{
  ℕ, zero, suc, ◌+◌, ◌^◌, ◌≤◌, ◌<◌, ◌≡◌, some, List, [], ◌∷◌, ◌++◌, length, length-append, arith,
}
use scheduler_library.UndoLog.{UndoLog, undo, restore_loop, restore_state}

module _ {W : Type 0} where
  -- The operations run one after another, the newest first.
  unfoldable pub run_undos : List (W → W) → W → W
  run_undos [] w = w
  run_undos (op ∷ ops) w = run_undos ops (op w)

  abbrev pub log_of : List (W → W) → ℕ → UndoLog W
  log_of ops v = record { undo_operations = ops; state_version = v }

  restore_loop_lem :
      (k v : ℕ) (recent ops : List (W → W)) (w : W)
      → length recent ≤ k
      → v + length recent < 2 ^ 64
      → restore_loop k v (log_of (recent ++ ops) (v + length recent)) w
        ≡ some (log_of ops v, run_undos recent w)
  unfolding restore_loop run_undos undo
  restore_loop_lem zero v [] ops w h b = ground arith
  restore_loop_lem (suc k) v [] ops w h b = ground arith
  restore_loop_lem zero v (op ∷ recent) ops w h b = elim h [ ]
  restore_loop_lem (suc k) v (op ∷ recent) ops w h b =
      ground (arith, restore_loop_lem k v recent ops (op w) (omega arith) (omega arith))

  -- If `recent` was registered after version `v` and the version has not wrapped, `restoreState`
  -- does not panic, runs `recent` in reverse order of registration and leaves the older log.
  pub restore_state_lem :
      (v : ℕ) (recent ops : List (W → W)) (w : W)
      → v + length recent < 2 ^ 64
      → restore_state v (log_of (recent ++ ops) (v + length recent)) w
        ≡ some (log_of ops v, run_undos recent w)
  unfolding restore_state
  restore_state_lem v recent ops w b =
      restore_loop_lem (length (recent ++ ops)) v recent ops w
        (omega (arith, length-append recent ops)) b

  restore_loop_here :
      (k : ℕ) (ul : UndoLog W) (w : W) → restore_loop k ul.state_version ul w ≡ some (ul, w)
  unfolding restore_loop
  restore_loop_here zero ul w = ground arith
  restore_loop_here (suc k) ul w = ground arith

  -- At the current version there is nothing to undo.
  pub restore_state_here :
      (ul : UndoLog W) (w : W) → restore_state ul.state_version ul w ≡ some (ul, w)
  unfolding restore_state
  restore_state_here ul w = restore_loop_here (length ul.undo_operations) ul w
