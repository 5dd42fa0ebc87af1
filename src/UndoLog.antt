-- ===== src/UndoLog.antt =====
-- The undo log of pkg/upstreamsync/snapshot/snapshot.go. The stack is a list, its newest operation
-- first; popping an empty stack panics (`none`). `stateVersion` is a uint64.
pub mod Restore
use scheduler_library.Base.{
  ℕ, zero, suc, ◌+◌, ◌-◌, ◌%◌, ◌^◌, Bool, true, false, Option, none, some, List, [], ◌∷◌, ◌==◌,
  succ64, length,
}

pub record UndoLog (W : Type 0) : Type 0 where
  pub undo_operations : List (W → W)
  pub state_version : ℕ

module _ {W : Type 0} where
  abbrev pub empty_log : UndoLog W
  empty_log = record { undo_operations = []; state_version = 0 }

  unfoldable pub register_operation : UndoLog W → Option (W → W) → UndoLog W
  register_operation ul none = ul
  register_operation ul (some op) = record {
    undo_operations = op ∷ ul.undo_operations;
    state_version = succ64 ul.state_version;
  }

  -- One round of `undo`, on the popped stack.
  unfoldable pub undo : UndoLog W → W → Option (UndoLog W × W)
  undo ul w = elim ul.undo_operations [
    | [] ↦ none
    | op ∷ ops ↦ some (
      record { undo_operations = ops; state_version = (ul.state_version + 2 ^ 64 - 1) % 2 ^ 64 },
      op w,
    )
  ]

  -- `restoreState`: a pop for each unit of fuel. The stack is the fuel, and one more round panics.
  unfoldable pub restore_loop : ℕ → ℕ → UndoLog W → W → Option (UndoLog W × W)
  restore_loop zero v ul w = elim (ul.state_version == v) [ true ↦ some (ul, w) | false ↦ none ]
  restore_loop (suc k) v ul w = elim (ul.state_version == v) [
    | true ↦ some (ul, w)
    | false ↦ elim (undo ul w) [ none ↦ none | some (ul', w') ↦ restore_loop k v ul' w' ]
  ]

  unfoldable pub restore_state : ℕ → UndoLog W → W → Option (UndoLog W × W)
  restore_state v ul w = restore_loop (length ul.undo_operations) v ul w
