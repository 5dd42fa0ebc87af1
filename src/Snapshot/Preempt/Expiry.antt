-- ===== src/Snapshot/Preempt/Expiry.antt =====
-- When a preemption handle is rejected.
use scheduler_library.Base.{
  ℕ, ◌≡◌, refl, ap, ◌∙◌, ◌⊎◌, inl, inr, true, false, Option, none, some, succ64, ◌==◌, arith,
  Bool-cases,
}
use scheduler_library.Upstream.{Upstream, Error, err}
use scheduler_library.Snapshot.Types.{ClusterSnapshot, Unpreemption, commit, bump_preemption}
use scheduler_library.Snapshot.Transaction.{
  TransactionFn, begin_transaction, transaction, end_transaction,
}
use scheduler_library.Snapshot.Preempt.{unpreempt, Unpreempted}

module _ (U : Upstream) where
  open U use {kinds}

  -- The call fails and leaves the snapshot as it was.
  pub record Rejected (s : ClusterSnapshot U) (x : Unpreempted U) : Type 0 where
    pub error : Error kinds
    pub result : x.result ≡ err error
    pub snapshot : x.snapshot ≡ s

  nil-Rejected : (s : ClusterSnapshot U) → Rejected s (unpreempt U none s)
  unfolding unpreempt
  nil-Rejected s = record { error = _; result = refl; snapshot = refl }

  pub reverted-Rejected :
      (u : Unpreemption U) (s : ClusterSnapshot U)
      → u.reverted ≡ true
      → Rejected s (unpreempt U (some u) s)
  unfolding unpreempt
  reverted-Rejected u s h = elim (Bool-cases (s.preemption_version == u.valid_preemption_version)) [
    | inl q ↦ rw (q, unpreempt, h) (record { error = _; result = refl; snapshot = refl })
    | inr q ↦ rw (q, unpreempt) (record { error = _; result = refl; snapshot = refl })
  ]

  pub stale-Rejected :
      (u : Unpreemption U) (s : ClusterSnapshot U)
      → (s.preemption_version == u.valid_preemption_version) ≡ false
      → Rejected s (unpreempt U (some u) s)
  unfolding unpreempt
  stale-Rejected u s h = rw (h, unpreempt) (record { error = _; result = refl; snapshot = refl })

  -- What the call leaves of a handle.
  handle_after :
      (u : Unpreemption U) (s : ClusterSnapshot U)
      → (((unpreempt U (some u) s).handle ≡ some u)
          × ((unpreempt U (some u) s).snapshot ≡ s)
          × Rejected s (unpreempt U (some u) s))
        ⊎ ((unpreempt U (some u) s).handle ≡ some (record u { reverted = true }))
  unfolding unpreempt
  handle_after u s = elim (Bool-cases (s.preemption_version == u.valid_preemption_version)) [
    | inr q ↦
        inl (rw (q, unpreempt) (refl, refl, record { error = _; result = refl; snapshot = refl }))
    | inl q ↦ elim (Bool-cases u.reverted) [
      | inl q1 ↦
          inl (rw (q, unpreempt, q1) refl, rw (q, unpreempt, q1) refl, reverted-Rejected u s q1)
      | inr q1 ↦ inr (rw (q, unpreempt, q1) refl)
    ]
  ]

  nil_handle : (s : ClusterSnapshot U) → (unpreempt U none s).handle ≡ none
  unfolding unpreempt
  nil_handle s = refl

  -- `Unpreempt` works at most once on a handle: whatever the first call does, calling it again with
  -- the handle that the first call leaves fails, and leaves the snapshot alone.
  pub unpreempt_again :
      (h : Option (Unpreemption U)) (s : ClusterSnapshot U)
      → Rejected
          (unpreempt U h s).snapshot
          (unpreempt U (unpreempt U h s).handle (unpreempt U h s).snapshot)
  unpreempt_again none s = rw (nil_handle s) (nil-Rejected (unpreempt U none s).snapshot)
  unpreempt_again (some u) s = elim (handle_after u s) [
    | inl (h, q, r) ↦ rw (h, q) r
    | inr h ↦ rw h (reverted-Rejected (record u { reverted = true }) _ refl)
  ]

  pub succ64_moves : (n : ℕ) → (succ64 n == n) ≡ false
  succ64_moves n = ground arith

  -- When a transaction commits, a handle that is valid at the end of its body is rejected afterwards:
  -- `Unpreempt` fails and leaves the snapshot alone.
  pub commit_expires :
      (fn : TransactionFn U) (s s' : ClusterSnapshot U) (u : Unpreemption U)
      → s.transaction_in_progress ≡ false
      → fn (begin_transaction U s) ≡ some (commit, none, s')
      → u.valid_preemption_version ≡ s'.preemption_version
      → (t : ClusterSnapshot U) × (transaction U fn s ≡ some (none, t))
        × Rejected t (unpreempt U (some u) t)
  unfolding transaction end_transaction
  commit_expires fn s s' u idle ran valid =
      let t : ClusterSnapshot U = record (bump_preemption U s') {
        transaction_in_progress = false;
      } in
      (
        t,
        rw (idle, transaction, ran, end_transaction) refl,
        stale-Rejected u t (
            ap (λ v. succ64 s'.preemption_version == v) valid ∙ succ64_moves s'.preemption_version),
      )
