-- ===== src/Session/Events/Sound.antt =====
-- The invariant of the client's steps: at most one transaction is under way, exactly while the flag is
-- set, and the undo log leads back to where everything began.
use mathlib.Core.Path.{subst}
use mathlib.Core.Option.{some-injective}
use mathlib.Core.Bool.{true≢false}
use scheduler_library.Base.{
  ℕ, ◌+◌, ◌^◌, ◌≤◌, ◌<◌, ◌≡◌, refl, sym, ap, ◌∙◌, Bool, false, Option, none, some, List, [], ◌∷◌,
  ◌++◌, append-nil, not, length, is_empty, arith,
}
use scheduler_library.Upstream.{Upstream, Error}
use scheduler_library.Upstream.Laws.{View, Laws, StatusLaws}
use scheduler_library.UndoLog.{empty_log}
use scheduler_library.Trail.{SameWorld, SameWorld-refl}
use scheduler_library.Snapshot.Types.{ClusterSnapshot, TransactionResult}
use scheduler_library.Snapshot.Extends.{Extends}
use scheduler_library.Snapshot.Transaction.{begin_transaction, end_transaction, reset_mutations}
use scheduler_library.Snapshot.Transaction.Rollback.{reset_reverts}
use scheduler_library.Snapshot.Template.Fresh.{Below}
use scheduler_library.Session.{Call, Session, step_call, registered, Separate}
use scheduler_library.Session.Rollback.{Stepped, step_call-Stepped}
use scheduler_library.Session.Events.Shape.{
  Idle, Busy, Shape, Shape-next, Grown-trans, Grown-same, end_transaction-Ended,
  transaction-refused, reset_mutations-refused, Shape-moved,
}
use scheduler_library.Session.Events.{
  Opened, opened, began, Event, calls, begins, begins_again, ends, resets, Client, Step, call,
  begin, refuse, finish, reset, Trace, still, and_then, AllApart, Counted, CountsUp,
}

module _ {U : Upstream} (V : View U) (L : Laws V) (S : StatusLaws U) (P : ℕ → Bool)
    (base : ClusterSnapshot U) (fresh : base.undo_log ≡ empty_log)
    (known : Below P base.world.next_pod) where
  open U use {kinds}

  version_zero : base.undo_log.state_version ≡ 0
  version_zero = ap (λ ul. ul.state_version) fresh

  unfoldable pub Sound : Client U → Type 0
  Sound k = Shape V P base k.session.snapshot k.open_ones

  abbrev ApartIn : Event U → Type 0
  ApartIn e = AllApart U P (e ∷ [])

  finish-Shape :
      (s t : ClusterSnapshot U) (o : Opened) (os : List Opened) (r : TransactionResult)
      (x e : Option (Error kinds))
      → Shape V P base s (o ∷ os)
      → end_transaction U o.state_version o.preemption_version r x s ≡ some (e, t)
      → Shape V P base t os
  finish-Shape s t o [] r x e h q =
      let d = end_transaction-Ended V P base s o r x h in
      subst (Idle V P base) (ap (λ y. y.1) (some-injective _ _ (sym d.returns ∙ q))) d.idle
  finish-Shape s t o (o' ∷ os) r x e h q = absurd h

  begin-Shape :
      (s : ClusterSnapshot U) (os : List Opened)
      → Shape V P base s os
      → s.transaction_in_progress ≡ false
      → Shape V P base (begin_transaction U s) (opened U s ∷ os)
  begin-Shape s [] h e = record {
    before = s;
    since = h.grown;
    inside = Grown-same V P h.grown.fits refl (SameWorld-refl V P s.world) refl;
    flag = refl;
    version = refl;
  }
  begin-Shape s (o ∷ []) h e = absurd (true≢false (sym h.flag ∙ e))
  begin-Shape s (o ∷ o' ∷ os) h e = h

  reset-Shape :
      (s t : ClusterSnapshot U) (os : List Opened) (e : Option (Error kinds))
      → Shape V P base s os
      → reset_mutations U s ≡ some (e, t)
      → Shape V P base t os
  reset-Shape s t [] e h q =
      let d = reset_reverts V P base s h.grown.extends h.grown.fits version_zero h.flag in
      let same : d.snapshot ≡ t = ap (λ y. y.1) (some-injective _ _ (sym d.returns ∙ q)) in
      subst (Idle V P base) same (record {
        grown =
            Grown-same V P (omega (arith, version_zero)) d.log d.world
              (d.profiles ∙ h.grown.profiles);
        flag = d.flag ∙ h.flag;
      })
  reset-Shape s t (o ∷ []) e h q =
      let same : s ≡ t =
        ap (λ y. y.1) (some-injective _ _ (sym (reset_mutations-refused V P s h.flag) ∙ q)) in
      subst (λ y. Busy V P base o y) same h
  reset-Shape s t (o ∷ o' ∷ os) e h q = h

  Shape-fits :
      (s : ClusterSnapshot U) (os : List Opened)
      → Shape V P base s os
      → s.undo_log.state_version < 2 ^ 64
  Shape-fits s [] h = h.grown.fits
  Shape-fits s (o ∷ []) h = h.inside.fits
  Shape-fits s (o ∷ o' ∷ os) h = absurd h

  call-Shape :
      (c : Call U) (s t : Session U) (os : List Opened)
      → Shape V P base s.snapshot os
      → Separate U P c
      → s.snapshot.undo_log.state_version + registered U c s < 2 ^ 64
      → step_call U c s ≡ some t
      → Shape V P base t.snapshot os
  call-Shape c s t os h apart b q =
      let d : Stepped V L S P (registered U c s) s.snapshot t.snapshot = rw q at (
        step_call-Stepped V L S P base.world.next_pod c s known
          (Shape-next V P base s.snapshot os h) apart b) in
      Shape-moved V P base s.snapshot t.snapshot os h
        (record {
          extends = d.grown.extends;
          fits = omega (arith, d.grown.most);
          profiles = d.profiles;
        })
        d.flag

  Step-Sound :
      {e : Event U} {c d : Client U} → Step U e c d → ApartIn e → Counted U e c → Sound c → Sound d
  unfolding Sound
  Step-Sound (call {c} {s} {t} {os} q) a b h = call-Shape c s t os h a.0 b q
  Step-Sound (begin {s} {os} q) a b h = begin-Shape s.snapshot os h q
  Step-Sound (refuse {fn} {s} {os} {e} {t} q r) a b h =
      let same : s.snapshot ≡ t =
        ap (λ y. y.1) (some-injective _ _ (sym (transaction-refused V P fn s.snapshot q) ∙ r)) in
      subst (λ y. Shape V P base y os) same h
  Step-Sound (finish {r} {x} {s} {o} {os} {e} {t} q) a b h =
      finish-Shape s.snapshot t o os r x e h q
  Step-Sound (reset {s} {os} {e} {t} q) a b h = reset-Shape s.snapshot t os e h q

  trace-Sound :
      {first last : Client U} {es : List (Event U)}
      → (t : Trace U first es last) → AllApart U P es
      → CountsUp U t
      → Sound first
      → Sound last
  trace-Sound still a b h = h
  trace-Sound (and_then {es} {e} t st) a b h =
      let (one, rest) = split e es a in Step-Sound st one b.1 (trace-Sound t rest b.0 h)
    where
      split :
          (e : Event U) (es : List (Event U)) → AllApart U P (e ∷ es) → ApartIn e × AllApart U P es
      split (calls c) es a = ((a.0, tt), a.1)
      split begins es a = (tt, a)
      split (begins_again fn) es a = (tt, a)
      split (ends r x) es a = (tt, a)
      split resets es a = (tt, a)

  log_counts :
      {s : ClusterSnapshot U}
      → Extends V P base s
      → s.undo_log.state_version ≡ length s.undo_log.undo_operations
  log_counts {s} h =
      let none_before : base.undo_log.undo_operations ≡ [] = ap (λ ul. ul.undo_operations) fresh in
      let all : s.undo_log.undo_operations ≡ h.recent =
        h.operations ∙ (ap (λ l. h.recent ++ l) none_before ∙ append-nil h.recent) in
      omega (arith, h.version, version_zero, ap length all)

  Sound-counts :
      (s : ClusterSnapshot U) (os : List Opened)
      → Shape V P base s os
      → (length os ≤ 1)
        × (s.transaction_in_progress ≡ not (is_empty os))
        × (s.undo_log.state_version ≡ length s.undo_log.undo_operations)
  Sound-counts s [] h = (omega arith, h.flag, log_counts h.grown.extends)
  Sound-counts s (o ∷ []) h =
      (omega arith, h.flag, log_counts (Grown-trans V P h.since h.inside).extends)
  Sound-counts s (o ∷ o' ∷ os) h = absurd h

module _ {U : Upstream} (V : View U) (L : Laws V) (S : StatusLaws U) (P : ℕ → Bool)
    (first : Session U) (fresh : first.snapshot.undo_log ≡ empty_log)
    (idle : first.snapshot.transaction_in_progress ≡ false)
    (known : Below P first.snapshot.world.next_pod) where
  pub reached-Sound :
      (last : Client U) (es : List (Event U)) (t : Trace U (began U first) es last)
      → AllApart U P es
      → CountsUp U t
      → Sound V L S P first.snapshot fresh known last
  unfolding Sound
  reached-Sound last es t apart counts =
      trace-Sound V L S P first.snapshot fresh known t apart counts (record {
        grown =
            Grown-same V P (omega (arith, ap (λ ul. ul.state_version) fresh)) refl
              (SameWorld-refl V P first.snapshot.world) refl;
        flag = idle;
      })

  -- Take any steps of a client, from a snapshot with an empty undo log and no transaction: calls,
  -- transactions that begin and end, attempts to begin another one, and resets, each at any time. `P`
  -- pins allocated pods, those that the calls preempt among them and those that they are given to
  -- schedule not, and the version does not wrap. Then at most one transaction is under way, the flag is
  -- set exactly if one is, and the version of the undo log is the number of its operations.
  pub one_transaction :
      (last : Client U) (es : List (Event U)) (t : Trace U (began U first) es last)
      → AllApart U P es
      → CountsUp U t
      → (length last.open_ones ≤ 1)
        × (last.session.snapshot.transaction_in_progress ≡ not (is_empty last.open_ones))
        × (last.session.snapshot.undo_log.state_version
            ≡ length last.session.snapshot.undo_log.undo_operations)
  unfolding Sound
  one_transaction last es t apart counts =
      Sound-counts V L S P first.snapshot fresh known last.session.snapshot last.open_ones
        (reached-Sound last es t apart counts)

  -- After any such steps, between transactions, `ResetMutations` returns without an error, the undo log
  -- is empty again, and the observations of the scheduler's snapshot and the pinned pods are as they
  -- were before the first step: what transactions have committed is taken back as well.
  pub reset_mutations-reached :
      (last : Client U) (es : List (Event U)) (t : Trace U (began U first) es last)
      → AllApart U P es
      → CountsUp U t
      → last.open_ones ≡ []
      → (s : ClusterSnapshot U) × (reset_mutations U last.session.snapshot ≡ some (none, s))
        × (s.undo_log ≡ empty_log)
        × SameWorld V P first.snapshot.world s.world
  unfolding Sound
  reset_mutations-reached last es t apart counts closed =
      let h : Idle V P first.snapshot last.session.snapshot =
        subst (Shape V P first.snapshot last.session.snapshot) closed
          (reached-Sound last es t apart counts) in
      let d =
        reset_reverts V P first.snapshot last.session.snapshot h.grown.extends h.grown.fits
          (ap (λ ul. ul.state_version) fresh) h.flag in
      (d.snapshot, d.returns, d.log ∙ fresh, d.world)
