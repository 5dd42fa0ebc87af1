-- ===== src/Session/Events/Shape.antt =====
-- The snapshot between the steps of a client: idle, or inside of one transaction. The undo log leads back
-- to where everything began, and from the inside of a transaction to where that began.
use scheduler_library.Base.{
  ◌≤◌, ℕ, ◌^◌, ◌<◌, ◌≡◌, refl, ap, ◌∙◌, inl, inr, Bool, true, false, ◌||◌, Option, some, List, [],
  ◌∷◌, is_some, arith, Bool-cases,
}
use scheduler_library.Upstream.{Upstream, Error, message}
use scheduler_library.Upstream.Laws.{View}
use scheduler_library.Trail.{SameWorld, SameWorld-refl}
use scheduler_library.Snapshot.Types.{ClusterSnapshot, TransactionResult, bump_preemption}
use scheduler_library.Snapshot.Extends.{Extends, Extends-trans, same-Extends, restore-Restored}
use scheduler_library.Snapshot.Transaction.{
  TransactionFn, close, end_transaction, transaction, transaction_error, is_revert, reset_mutations,
}
use scheduler_library.Session.Events.{Opened}

module _ {U : Upstream} (V : View U) (P : ℕ → Bool) where
  open U use {kinds}

  -- The undo log has grown out of that of `base`.
  pub record Grown (base s : ClusterSnapshot U) : Type 0 where
    pub extends : Extends V P base s
    pub fits : s.undo_log.state_version < 2 ^ 64
    pub profiles : s.profiles ≡ base.profiles

  pub record Idle (base s : ClusterSnapshot U) : Type 0 where
    pub grown : Grown base s
    pub flag : s.transaction_in_progress ≡ false

  -- `before` is the snapshot as the transaction began.
  pub record Busy (base : ClusterSnapshot U) (o : Opened) (s : ClusterSnapshot U) : Type 0 where
    pub before : ClusterSnapshot U
    pub since : Grown base before
    pub inside : Grown before s
    pub flag : s.transaction_in_progress ≡ true
    pub version : o.state_version ≡ before.undo_log.state_version

  abbrev pub Shape : ClusterSnapshot U → ClusterSnapshot U → List Opened → Type 0
  Shape base s [] = Idle base s
  Shape base s (o ∷ []) = Busy base o s
  Shape base s (o ∷ o' ∷ os) = ⊥

  pub Grown-trans : {s t u : ClusterSnapshot U} → Grown s t → Grown t u → Grown s u
  Grown-trans h g = record {
    extends = Extends-trans V P h.extends g.extends;
    fits = g.fits;
    profiles = g.profiles ∙ h.profiles;
  }

  -- Steps that leave the log and the observations alone.
  pub Grown-same :
      {s t : ClusterSnapshot U}
      → s.undo_log.state_version < 2 ^ 64
      → t.undo_log ≡ s.undo_log
      → SameWorld V P s.world t.world
      → t.profiles ≡ s.profiles
      → Grown s t
  Grown-same b e h p = record {
    extends = same-Extends V P e h;
    fits = let v = ap (λ ul. ul.state_version) e in omega (arith, v);
    profiles = p;
  }

  abbrev closed : Opened → ClusterSnapshot U → ClusterSnapshot U
  closed o t = record t {
    preemption_version = o.preemption_version;
    transaction_in_progress = false;
  }

  -- The end of a transaction: the log covers what is left of it.
  pub record Ended (base s : ClusterSnapshot U) (o : Opened) (r : TransactionResult)
      (x : Option (Error kinds)) : Type 0 where
    pub last : ClusterSnapshot U
    pub returns :
        end_transaction U o.state_version o.preemption_version r x s
        ≡ some (transaction_error U x, last)
    pub idle : Idle base last

  pub end_transaction-Ended :
      (base s : ClusterSnapshot U) (o : Opened) (r : TransactionResult) (x : Option (Error kinds))
      → Busy base o s
      → Ended base s o r x
  unfolding end_transaction
  end_transaction-Ended base s o r x h = elim (Bool-cases (is_some x || is_revert U r)) [
    | inl q ↦
        let (t, e, d) =
          restore-Restored V P {s = h.before} {s' = s} h.inside.extends h.inside.fits in
        record {
          last = closed o t;
          returns = rw (q, h.version, e) refl;
          idle = record {
            grown = Grown-trans h.since (
                Grown-same {t = closed o t} h.since.fits d.log d.world
                  (ap (λ y. y.profiles) d.rest ∙ h.inside.profiles));
            flag = refl;
          };
        }
    | inr q ↦ record {
      last = (close U x (bump_preemption U s)).1;
      returns = rw q refl;
      idle = record {
        grown =
            Grown-trans (Grown-trans h.since h.inside)
              (Grown-same h.inside.fits refl (SameWorld-refl V P s.world) refl);
        flag = refl;
      };
    }
  ]

  -- The methods that an open transaction rejects.
  pub transaction-refused :
      (fn : TransactionFn U) (s : ClusterSnapshot U)
      → s.transaction_in_progress ≡ true
      → transaction U fn s ≡ some (some (message "a transaction is already in progress"), s)
  unfolding transaction
  transaction-refused fn s h = rw h refl

  pub reset_mutations-refused :
      (s : ClusterSnapshot U)
      → s.transaction_in_progress ≡ true
      → reset_mutations U s
        ≡ some (some (message "transaction is in progress, cannot reset mutations"), s)
  unfolding reset_mutations
  reset_mutations-refused s h = rw h refl

  pub Shape-moved :
      (base s t : ClusterSnapshot U) (os : List Opened)
      → Shape base s os
      → Grown s t
      → t.transaction_in_progress ≡ s.transaction_in_progress
      → Shape base t os
  Shape-moved base s t [] h g e = record { grown = Grown-trans h.grown g; flag = e ∙ h.flag }
  Shape-moved base s t (o ∷ []) h g e = record {
    before = h.before;
    since = h.since;
    inside = Grown-trans h.inside g;
    flag = e ∙ h.flag;
    version = h.version;
  }
  Shape-moved base s t (o ∷ o' ∷ os) h g e = h

  -- No pod is deallocated.
  pub Shape-next :
      (base s : ClusterSnapshot U) (os : List Opened)
      → Shape base s os
      → base.world.next_pod ≤ s.world.next_pod
  Shape-next base s [] h = h.grown.extends.next
  Shape-next base s (o ∷ []) h = omega (arith, h.since.extends.next, h.inside.extends.next)
  Shape-next base s (o ∷ o' ∷ os) h = absurd h
