-- ===== src/Snapshot/Transaction/Rollback.antt =====
-- A transaction that is reverted or fails leaves the snapshot as it found it.
use mathlib.Core.Path.{subst}
use mathlib.Core.Option.{some-injective}
use scheduler_library.Base.{
  ℕ, ◌^◌, ◌<◌, ◌≡◌, refl, sym, ap, ◌∙◌, ◌⊎◌, inl, inr, Bool, true, false, ◌||◌, Option, none, some,
  is_some, arith, Bool-cases, ltb,
}
use scheduler_library.Upstream.{Upstream, Error}
use scheduler_library.Upstream.Laws.{View}
use scheduler_library.Trail.{SameWorld}
use scheduler_library.Snapshot.Types.{ClusterSnapshot, TransactionResult, restore, bump_preemption}
use scheduler_library.Snapshot.Extends.{
  Extends, Restored, restore-Restored, restore_here, Unchanged,
}
use scheduler_library.Snapshot.Transaction.{
  TransactionFn, transaction_error, begin_transaction, transaction, reset_mutations, is_revert,
}

module _ {U : Upstream} (V : View U) (P : ℕ → Bool) where
  open U use {kinds}

  -- A body whose mutations the undo log covers, from the point where the transaction has begun: the
  -- transaction returns the body's error, wrapped. If the body failed or asked to revert, then the
  -- snapshot looks as before the call, with the same undo log and the same preemption version.
  pub transaction_reverts :
      (fn : TransactionFn U) (s s' : ClusterSnapshot U) (r : TransactionResult)
      (e : Option (Error kinds))
      → s.transaction_in_progress ≡ false
      → fn (begin_transaction U s) ≡ some (r, e, s')
      → Extends V P (begin_transaction U s) s'
      → s'.undo_log.state_version < 2 ^ 64
      → s'.profiles ≡ s.profiles
      → (is_some e || is_revert U r) ≡ true
      → (t : ClusterSnapshot U) × (transaction U fn s ≡ some (transaction_error U e, t))
        × Unchanged V P s t
  unfolding transaction
  transaction_reverts fn s s' r e idle ran x b pr h =
      let (t, q, d) = restore-Restored V P {s = begin_transaction U s} {s' = s'} x b in
      (
        record t { preemption_version = s.preemption_version; transaction_in_progress = false },
        rw (idle, ran, transaction, h, q),
        record {
          log = d.log;
          world = d.world;
          frame = record {
            profiles = ap (λ y. y.profiles) d.rest ∙ pr;
            flag = sym idle;
            preemption = refl;
          };
        },
      )

  -- What `ResetMutations` gives: no error, and a snapshot like `base`.
  pub record ResetBack (base s : ClusterSnapshot U) : Type 0 where
    pub snapshot : ClusterSnapshot U
    pub returns : reset_mutations U s ≡ some (none, snapshot)
    pub log : snapshot.undo_log ≡ base.undo_log
    pub world : SameWorld V P base.world snapshot.world
    pub flag : snapshot.transaction_in_progress ≡ s.transaction_in_progress
    pub profiles : snapshot.profiles ≡ s.profiles

  reset_more :
      (s t : ClusterSnapshot U)
      → s.transaction_in_progress ≡ false
      → ltb 0 s.undo_log.state_version ≡ true
      → restore U 0 s ≡ some t
      → reset_mutations U s ≡ some (none, bump_preemption U t)
  unfolding reset_mutations restore
  reset_more s t idle more e = rw (idle, more, e, reset_mutations)

  reset_nothing :
      (s : ClusterSnapshot U)
      → s.transaction_in_progress ≡ false
      → ltb 0 s.undo_log.state_version ≡ false
      → reset_mutations U s ≡ some (none, s)
  unfolding reset_mutations
  reset_nothing s idle less = rw (idle, less, reset_mutations)

  -- `ResetMutations` leads back to a snapshot at version 0.
  pub reset_reverts :
      (base s : ClusterSnapshot U)
      → Extends V P base s
      → s.undo_log.state_version < 2 ^ 64
      → base.undo_log.state_version ≡ 0
      → s.transaction_in_progress ≡ false
      → ResetBack base s
  reset_reverts base s x b zero idle =
      go (restore-Restored V P {s = base} {s' = s} x b)
        (Bool-cases (ltb 0 s.undo_log.state_version))
    where
      go :
          ((t : ClusterSnapshot U) × (restore U base.undo_log.state_version s ≡ some t)
            × Restored V P base s t)
          → ((ltb 0 s.undo_log.state_version ≡ true) ⊎ (ltb 0 s.undo_log.state_version ≡ false))
          → ResetBack base s
      go (t, e, d) (inl more) = record {
        snapshot = bump_preemption U t;
        returns = reset_more s t idle more (subst (λ v. restore U v s ≡ some t) zero e);
        log = d.log;
        world = d.world;
        flag = ap (λ y. y.transaction_in_progress) d.rest;
        profiles = ap (λ y. y.profiles) d.rest;
      }
      go (t, e, d) (inr less) =
          let same_version : base.undo_log.state_version ≡ s.undo_log.state_version =
            ground arith in
          let e' : restore U s.undo_log.state_version s ≡ some t =
            subst (λ v. restore U v s ≡ some t) same_version e in
          let same : t ≡ s = some-injective _ _ (sym e' ∙ restore_here V P s) in
          record {
            snapshot = s;
            returns = reset_nothing s idle less;
            log = sym (ap (λ y. y.undo_log) same) ∙ d.log;
            world =
                subst (λ (y : ClusterSnapshot U). SameWorld V P base.world y.world) same d.world;
            flag = refl;
            profiles = refl;
          }
