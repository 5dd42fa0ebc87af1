-- ===== src/Session/Events.antt =====
-- A client that also begins, ends and resets, at any time: the methods of the interface `Simulator`
-- as the steps of a state machine. A transaction that is under way is what `Transaction` has recorded
-- before it calls its function; what the function does is steps of its own.
pub mod Shape
pub mod Sound
pub mod Progress
use scheduler_library.Base.{
  ℕ, ◌+◌, ◌^◌, ◌<◌, ◌≡◌, Bool, true, false, Option, none, some, List, [], ◌∷◌, length,
}
use scheduler_library.Upstream.{Upstream, Error}
use scheduler_library.Snapshot.Types.{ClusterSnapshot, TransactionResult}
use scheduler_library.Snapshot.Transaction.{
  TransactionFn, begin_transaction, end_transaction, transaction, reset_mutations,
}
use scheduler_library.Session.{Call, Session, step_call, registered, Separate}

-- `initialStateVersion` and `initialStateVersionForPreemption`
pub record Opened : Type 0 where
  pub state_version : ℕ
  pub preemption_version : ℕ

module _ (U : Upstream) where
  open U use {kinds}

  pub data Event : Type 0 where
    calls : Call U → Event
    begins : Event
    begins_again : TransactionFn U → Event
    ends : TransactionResult → Option (Error kinds) → Event
    resets : Event

  -- The transactions under way, the innermost first.
  pub record Client : Type 0 where
    pub session : Session U
    pub open_ones : List Opened

  abbrev pub began : Session U → Client
  began s = record { session = s; open_ones = [] }

  abbrev pub with_snapshot : Session U → ClusterSnapshot U → Session U
  with_snapshot s t = record s { snapshot = t }

  abbrev pub opened : ClusterSnapshot U → Opened
  opened s = record {
    state_version = s.undo_log.state_version;
    preemption_version = s.preemption_version;
  }

  -- `Transaction` runs its function only if no transaction is in progress.
  pub data Step : Event → Client → Client → Type 0 where
    call :
        {c : Call U} {s t : Session U} {os : List Opened}
        → step_call U c s ≡ some t
        → Step
            (calls c)
            (record { session = s; open_ones = os })
            (record { session = t; open_ones = os })
    begin :
        {s : Session U} {os : List Opened}
        → s.snapshot.transaction_in_progress ≡ false
        → Step begins
            (record { session = s; open_ones = os })
            (record {
              session = with_snapshot s (begin_transaction U s.snapshot);
              open_ones = opened s.snapshot ∷ os;
            })
    refuse :
        {fn : TransactionFn U} {s : Session U} {os : List Opened} {e : Option (Error kinds)}
        {t : ClusterSnapshot U}
        → s.snapshot.transaction_in_progress ≡ true
        → transaction U fn s.snapshot ≡ some (e, t)
        → Step
            (begins_again fn)
            (record { session = s; open_ones = os })
            (record { session = with_snapshot s t; open_ones = os })
    finish :
        {r : TransactionResult} {x : Option (Error kinds)} {s : Session U} {o : Opened}
        {os : List Opened} {e : Option (Error kinds)} {t : ClusterSnapshot U}
        → end_transaction U o.state_version o.preemption_version r x s.snapshot ≡ some (e, t)
        → Step
            (ends r x)
            (record { session = s; open_ones = o ∷ os })
            (record { session = with_snapshot s t; open_ones = os })
    reset :
        {s : Session U} {os : List Opened} {e : Option (Error kinds)} {t : ClusterSnapshot U}
        → reset_mutations U s.snapshot ≡ some (e, t)
        → Step resets
            (record { session = s; open_ones = os })
            (record { session = with_snapshot s t; open_ones = os })

  -- What has happened so far, the newest event first.
  pub data Trace (first : Client) : List Event → Client → Type 0 where
    still : Trace first [] first
    and_then :
        {es : List Event} {e : Event} {c d : Client}
        → Trace first es c
        → Step e c d
        → Trace first (e ∷ es) d

  -- The pods that are preempted are pinned, and those that are scheduled are not.
  abbrev pub AllApart : (ℕ → Bool) → List Event → Type 0
  AllApart P [] = Unit
  AllApart P (calls c ∷ es) = Separate U P c × AllApart P es
  AllApart P (begins ∷ es) = AllApart P es
  AllApart P (begins_again fn ∷ es) = AllApart P es
  AllApart P (ends r x ∷ es) = AllApart P es
  AllApart P (resets ∷ es) = AllApart P es

  abbrev pub Counted : Event → Client → Type 0
  Counted (calls c) k =
      k.session.snapshot.undo_log.state_version + registered U c k.session < 2 ^ 64
  Counted begins k = Unit
  Counted (begins_again fn) k = Unit
  Counted (ends r x) k = Unit
  Counted resets k = Unit

  -- The version, which counts registered operations, does not wrap in any step.
  abbrev pub CountsUp : {first last : Client} {es : List Event} → Trace first es last → Type 0
  CountsUp still = Unit
  CountsUp (and_then {e} {c} t st) = CountsUp t × Counted e c
