-- ===== src/Snapshot/Transaction.antt =====
-- `ResetMutations` and `Transaction`.
pub mod Rollback
use scheduler_library.Base.{
  ℕ, String, Bool, true, false, ◌||◌, Option, none, some, ltb, is_some, if◌then◌else◌,
}
use scheduler_library.Upstream.{Upstream, Error, message, wrap}
use scheduler_library.Snapshot.Types.{
  ClusterSnapshot, TransactionResult, commit, revert, restore, bump_preemption,
}

module _ (U : Upstream) where
  open U use {kinds}

  abbrev pub Returned : Type 0
  Returned = Option (Error kinds) × ClusterSnapshot U

  unfoldable pub reset_mutations : ClusterSnapshot U → Option Returned
  reset_mutations s =
      if s.transaction_in_progress
      then some (some (message "transaction is in progress, cannot reset mutations"), s)
      else if ltb 0 s.undo_log.state_version
      then elim (restore U 0 s) [ none ↦ none | some s' ↦ some (none, bump_preemption U s') ]
      else some (none, s)

  -- `func() (TransactionResult, error)`
  abbrev pub TransactionFn : Type 0
  TransactionFn =
      ClusterSnapshot U → Option (TransactionResult × Option (Error kinds) × ClusterSnapshot U)

  abbrev pub is_revert : TransactionResult → Bool
  is_revert commit = false
  is_revert revert = true

  abbrev pub transaction_error : Option (Error kinds) → Option (Error kinds)
  transaction_error none = none
  transaction_error (some e) = some (wrap "transaction failed" e)

  -- The deferred reset of the flag, and the result.
  abbrev pub close : Option (Error kinds) → ClusterSnapshot U → Returned
  close e s = (transaction_error e, record s { transaction_in_progress = false })

  -- What follows `transactionFn()`, given the two versions recorded before it.
  unfoldable pub end_transaction :
      ℕ → ℕ → TransactionResult → Option (Error kinds) → ClusterSnapshot U → Option Returned
  end_transaction v pv r e s =
      if is_some e || is_revert r
      then elim (restore U v s) [
        | none ↦ none
        | some s' ↦ some (close e (record s' { preemption_version = pv }))
      ]
      else some (close e (bump_preemption U s))

  abbrev pub begin_transaction : ClusterSnapshot U → ClusterSnapshot U
  begin_transaction s = bump_preemption U (record s { transaction_in_progress = true })

  unfoldable pub transaction : TransactionFn → ClusterSnapshot U → Option Returned
  unfolding end_transaction
  transaction fn s =
      if s.transaction_in_progress
      then some (some (message "a transaction is already in progress"), s)
      else elim (fn (begin_transaction s)) [
        | none ↦ none
        | some (r, e, s') ↦ end_transaction s.undo_log.state_version s.preemption_version r e s'
      ]
