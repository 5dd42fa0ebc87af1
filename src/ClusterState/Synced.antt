-- ===== src/ClusterState/Synced.antt =====
-- What `SyncSnapshot` makes of the snapshot, whatever was simulated on it since the last time.
use mathlib.Core.Path.{subst}
use mathlib.Core.Option.{none-ne-some, some-injective}
use scheduler_library.Base.{
  ℕ, ◌≡◌, sym, ap, ◌∙◌, inl, inr, String, Bool, false, Option, none, some, List, [], ◌∷◌, arith,
  Option-cases,
}
use scheduler_library.Upstream.{Upstream, Error, wrap}
use scheduler_library.Upstream.Laws.{View, Same, Laws, StatusLaws}
use scheduler_library.UndoLog.{empty_log}
use scheduler_library.Snapshot.Types.{ClusterSnapshot, Unpreemption}
use scheduler_library.Snapshot.Template.Fresh.{Below}
use scheduler_library.Session.{Call, Session, run_calls, AllSeparate, Counts}
use scheduler_library.Session.Rollback.{run_calls-ResetBack}
use scheduler_library.ClusterState.{ClusterState, updated, sync_snapshot}

-- What is relied on in `cache.Cache`. Its `UpdateSnapshot` updates only those entries of a snapshot that
-- have changed in the cache since the snapshot was taken, and so brings it up to date if it still looks
-- as it did then; a change of the cache leaves a taken snapshot taken. It tells changed entries by the
-- generations of the nodes, which every mutation of the library writes back.
pub record CacheLaws {U : Upstream} (V : View U) (Cache : Type 0)
    (update_snapshot : Cache → U.Snap → Option (Error U.kinds) × U.Snap × Cache) (Change : Type 0)
    (change : Change → Cache → Cache) : Type 1 where
  -- how often the cache has a pod key on a node
  pub listed : Cache → String → String → ℕ
  -- the snapshot was taken from the cache, maybe before some changes, and looks as it did then
  pub Taken : Cache → U.Snap → Type 0
  pub taken_same : {c : Cache} {s t : U.Snap} → Same V s t → Taken c s → Taken c t
  pub taken_before : (x : Change) {c : Cache} {s : U.Snap} → Taken c s → Taken (change x c) s
  pub update_lists :
      {c c' : Cache} {s t : U.Snap}
      → Taken c s
      → update_snapshot c s ≡ (none, t, c')
      → (n k : String) → V.count t n k ≡ listed c n k
  pub update_takes :
      {c c' : Cache} {s t : U.Snap} → Taken c s → update_snapshot c s ≡ (none, t, c') → Taken c' t

module _ {U : Upstream} {V : View U} {Cache : Type 0}
    {update_snapshot : Cache → U.Snap → Option (Error U.kinds) × U.Snap × Cache} {Change : Type 0}
    {change : Change → Cache → Cache} (K : CacheLaws V Cache update_snapshot Change change)
    (P : ℕ → Bool) where
  open U use {kinds}

  abbrev State : Type 0
  State = ClusterState U Cache update_snapshot

  -- The changes that the owner of the cache makes to it, one after the other.
  abbrev pub changed : List Change → Cache → Cache
  changed [] c = c
  changed (x ∷ xs) c = changed xs (change x c)

  -- A state between two rounds of simulation.
  pub record InStep (cs : State) : Type 0 where
    pub taken : K.Taken cs.cache cs.snapshot.world.snap
    pub log : cs.snapshot.undo_log ≡ empty_log
    pub idle : cs.snapshot.transaction_in_progress ≡ false
    pub known : Below P cs.snapshot.world.next_pod

  -- A call of `SyncSnapshot` with the cache `c`: `UpdateSnapshot` has failed, or the state is in step
  -- and its snapshot has on every node exactly the pods that the cache has there.
  pub data Synced (c : Cache) : Option (Option (Error kinds) × State) → Type 0 where
    update_failed :
        (e : Error kinds) (s sn : U.Snap) (c' : Cache) (cs : State)
        → K.Taken c s
        → update_snapshot c s ≡ (some e, sn, c')
        → Synced c (some (some (wrap "failed to update snapshot" e), cs))
    in_step :
        (cs : State)
        → InStep cs
        → ((n k : String) → V.count cs.snapshot.world.snap n k ≡ K.listed c n k)
        → Synced c (some (none, cs))

  changed-Taken :
      (xs : List Change) {c : Cache} {s : U.Snap} → K.Taken c s → K.Taken (changed xs c) s
  changed-Taken [] h = h
  changed-Taken (x ∷ xs) h = changed-Taken xs (K.taken_before x h)

  updated-Synced :
      (c : Cache) (t : ClusterSnapshot U)
      → K.Taken c t.world.snap
      → t.undo_log ≡ empty_log
      → t.transaction_in_progress ≡ false
      → Below P t.world.next_pod
      → Synced c (some (updated U Cache update_snapshot c (none, t)))
  updated-Synced c t taken log idle known = elim (Option-cases call.0) [
    | inl q ↦
        let done : update_snapshot c t.world.snap ≡ (none, call.1, call.2) =
          λ i. (q i, call.1, call.2) in
        rw q (
          in_step _
            (record { taken = K.update_takes taken done; log = log; idle = idle; known = known })
            (K.update_lists taken done))
    | inr (e, q) ↦
        rw q (update_failed e t.world.snap call.1 call.2 _ taken (λ i. (q i, call.1, call.2)))
  ]
    where
      call : Option (Error kinds) × U.Snap × Cache
      call = update_snapshot c t.world.snap

  module _ (L : Laws V) (S : StatusLaws U) where
    pub sync_snapshot-Synced :
        (cs : State) (xs : List Change) (calls : List (Call U)) (hs : List (Unpreemption U))
        (last : Session U)
        → InStep cs
        → AllSeparate U P calls
        → Counts U calls (record { snapshot = cs.snapshot; handles = hs })
        → run_calls U calls (record { snapshot = cs.snapshot; handles = hs }) ≡ some last
        → Synced (changed xs cs.cache) (
            sync_snapshot U Cache update_snapshot
              (record { cache = changed xs cs.cache; snapshot = last.snapshot }))
    unfolding sync_snapshot
    sync_snapshot-Synced cs xs calls hs last h separate counts ran =
        let (d, busy) =
          run_calls-ResetBack V L S P calls hs cs.snapshot last h.idle h.log h.known separate counts
            ran in
        rw d.returns (
          updated-Synced (changed xs cs.cache) d.snapshot
            (K.taken_same d.world.snaps (changed-Taken xs h.taken)) (d.log ∙ h.log) (d.flag ∙ busy)
            (λ r p. omega (arith, h.known r p, d.world.next)))

    -- The states that rounds without an error lead to.
    pub data History (first : State) : State → Type 0 where
      begun : History first first
      then_round :
          {cs : State} (xs : List Change) (calls : List (Call U)) (hs : List (Unpreemption U))
          (last : Session U) {cs' : State}
          → History first cs
          → AllSeparate U P calls
          → Counts U calls (record { snapshot = cs.snapshot; handles = hs })
          → run_calls U calls (record { snapshot = cs.snapshot; handles = hs }) ≡ some last
          → sync_snapshot U Cache update_snapshot
              (record { cache = changed xs cs.cache; snapshot = last.snapshot })
            ≡ some (none, cs')
          → History first cs'

    Synced-InStep :
        {c : Cache} {o : Option (Option (Error kinds) × State)} {cs : State}
        → Synced c o
        → o ≡ some (none, cs)
        → InStep cs
    Synced-InStep (update_failed e s sn c' cs' t h) q =
        absurd (none-ne-some _ (sym (ap (λ x. x.0) (some-injective _ _ q))))
    Synced-InStep (in_step cs' h counts) q = subst InStep (ap (λ x. x.1) (some-injective _ _ q)) h

    pub History-InStep : {first cs : State} → InStep first → History first cs → InStep cs
    History-InStep h begun = h
    History-InStep h (then_round {cs} xs calls hs last hist separate counts ran q) =
        Synced-InStep
          (sync_snapshot-Synced cs xs calls hs last (History-InStep h hist) separate counts ran) q
