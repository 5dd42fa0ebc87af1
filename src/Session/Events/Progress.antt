-- ===== src/Session/Events/Progress.antt =====
-- No step of the client panics.
use mathlib.Core.Path.{subst}
use mathlib.Core.Bool.{false≢true}
use scheduler_library.Base.{
  ℕ, ◌≡◌, sym, ap, ◌∙◌, Bool, false, List, [], ◌∷◌, is_some-some, is_empty,
}
use scheduler_library.Upstream.{Upstream}
use scheduler_library.Upstream.Laws.{View, Laws, StatusLaws}
use scheduler_library.UndoLog.{empty_log}
use scheduler_library.Scheduler.Returns.{ScoreLaws}
use scheduler_library.Scheduler.Returns.Fits.{CountLaws}
use scheduler_library.Snapshot.Types.{ClusterSnapshot}
use scheduler_library.Snapshot.Schedule.Returns.{AllFiltered}
use scheduler_library.Snapshot.Transaction.Rollback.{reset_reverts}
use scheduler_library.Snapshot.Template.Fresh.{Below}
use scheduler_library.Session.{Session, step_call}
use scheduler_library.Session.Returns.{step_call-returns}
use scheduler_library.Session.Events.Shape.{
  Shape-next, Shape, end_transaction-Ended, transaction-refused, reset_mutations-refused,
}
use scheduler_library.Session.Events.Sound.{Sound, reached-Sound}
use scheduler_library.Session.Events.{
  Opened, began, Event, calls, begins, begins_again, ends, resets, Client, Step, call, begin,
  refuse, finish, reset, Trace, AllApart, Counted, CountsUp,
}

-- What a client can do next: a transaction can only end if one is under way, and only then is an
-- attempt to begin one an attempt to nest.
abbrev pub Possible : {U : Upstream} → Event U → List Opened → Type 0
Possible (calls c) os = Unit
Possible begins os = os ≡ []
Possible (begins_again fn) os = is_empty os ≡ false
Possible (ends r x) os = is_empty os ≡ false
Possible resets os = Unit

module _ {U : Upstream} (V : View U) (L : Laws V) (S : StatusLaws U) (C : CountLaws U)
    (R : ScoreLaws U) (P : ℕ → Bool) where
  Shape-profiles :
      (base s : ClusterSnapshot U) (os : List Opened)
      → Shape V P base s os
      → s.profiles ≡ base.profiles
  Shape-profiles base s [] h = h.grown.profiles
  Shape-profiles base s (o ∷ []) h = h.inside.profiles ∙ h.since.profiles
  Shape-profiles base s (o ∷ o' ∷ os) h = absurd h

  -- The step of each event, from a state in which the invariant holds.
  leads_on :
      (base : ClusterSnapshot U) (known : Below P base.world.next_pod) (e : Event U) (s : Session U)
      (os : List Opened)
      → base.undo_log.state_version ≡ 0
      → AllFiltered U base.profiles
      → AllApart U P (e ∷ [])
      → Counted U e (record { session = s; open_ones = os })
      → Possible e os
      → Shape V P base s.snapshot os
      → (next : Client U) × Step U e (record { session = s; open_ones = os }) next
  leads_on base known (calls c) s os zero all apart counts p h =
      let has = subst (AllFiltered U) (sym (Shape-profiles base s.snapshot os h)) all in
      let (t, q) = is_some-some (step_call U c s) (
        step_call-returns V L S C R P base.world.next_pod c s known
          (Shape-next V P base s.snapshot os h) has apart.0 counts) in
      (_, call q)
  leads_on base known begins s [] zero all apart counts p h = (_, begin h.flag)
  leads_on base known begins s (o ∷ os) zero all apart counts p h =
      absurd (false≢true (ap is_empty p))
  leads_on base known (begins_again fn) s [] zero all apart counts p h = absurd (false≢true (sym p))
  leads_on base known (begins_again fn) s (o ∷ []) zero all apart counts p h =
      (_, refuse h.flag (transaction-refused V P fn s.snapshot h.flag))
  leads_on base known (begins_again fn) s (o ∷ o' ∷ os) zero all apart counts p h = absurd h
  leads_on base known (ends r x) s [] zero all apart counts p h = absurd (false≢true (sym p))
  leads_on base known (ends r x) s (o ∷ []) zero all apart counts p h =
      (_, finish (end_transaction-Ended V P base s.snapshot o r x h).returns)
  leads_on base known (ends r x) s (o ∷ o' ∷ os) zero all apart counts p h = absurd h
  leads_on base known resets s [] zero all apart counts p h =
      let d = reset_reverts V P base s.snapshot h.grown.extends h.grown.fits zero h.flag in
      (_, reset d.returns)
  leads_on base known resets s (o ∷ []) zero all apart counts p h =
      (_, reset (reset_mutations-refused V P s.snapshot h.flag))
  leads_on base known resets s (o ∷ o' ∷ os) zero all apart counts p h = absurd h

  -- Take any steps of a client, from a snapshot with an empty undo log and no transaction, whose
  -- profiles all have filter plugins. `P` pins allocated pods, those that the calls preempt among
  -- them and those that they are given to schedule not, and the version does not wrap. Then every
  -- event that is possible next leads to a next state: no call, no end of a transaction and no reset
  -- panics. Relied on are the laws on the number of nodes, on the number of scores and on the heap
  -- that are named in Scheduler/Returns.
  pub never_stuck :
      (first : Session U) (fresh : first.snapshot.undo_log ≡ empty_log)
      (idle : first.snapshot.transaction_in_progress ≡ false)
      (known : Below P first.snapshot.world.next_pod) (last : Client U) (es : List (Event U))
      (t : Trace U (began U first) es last) (e : Event U)
      → AllFiltered U first.snapshot.profiles
      → AllApart U P es
      → CountsUp U t
      → AllApart U P (e ∷ [])
      → Counted U e last
      → Possible e last.open_ones
      → (next : Client U) × Step U e last next
  unfolding Sound
  never_stuck first fresh idle known last es t e all apart counts apart' counts' p =
      leads_on first.snapshot known e last.session last.open_ones
        (ap (λ ul. ul.state_version) fresh) all apart' counts' p
        (reached-Sound V L S P first fresh idle known last es t apart counts)
