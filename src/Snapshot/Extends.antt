-- ===== src/Snapshot/Extends.antt =====
-- When one snapshot has grown out of another by operations that its undo log can take back.
use mathlib.Core.List.{append_assoc}
use scheduler_library.Base.{
  ℕ, ◌+◌, ◌^◌, ◌≤◌, ◌<◌, ◌≡◌, refl, sym, ap, ◌∙◌, Bool, some, List, [], ◌∷◌, ◌++◌, length,
  length-append, arith,
}
use scheduler_library.Upstream.{Upstream}
use scheduler_library.Upstream.Laws.{View}
use scheduler_library.World.{World, Undo}
use scheduler_library.UndoLog.{register_operation, restore_state}
use scheduler_library.UndoLog.Restore.{run_undos, restore_state_lem, restore_state_here}
use scheduler_library.Trail.{
  SameWorld, SameWorld-refl, Undoes, Trail, start, step, Trail-append, Trail-run_undos,
}
use scheduler_library.Snapshot.Types.{ClusterSnapshot, register, restore}

module _ {U : Upstream} (V : View U) (P : ℕ → Bool) where
  -- The log of `s'` is that of `s` with `recent` on top, which leads from the world of `s'` back to
  -- that of `s`; the version has counted them.
  pub record Extends (s s' : ClusterSnapshot U) : Type 0 where
    pub recent : List (Undo U)
    pub operations : s'.undo_log.undo_operations ≡ recent ++ s.undo_log.undo_operations
    pub version : s'.undo_log.state_version ≡ s.undo_log.state_version + length recent
    pub trail : Trail V P s.world recent s'.world
    pub next : s.world.next_pod ≤ s'.world.next_pod

  -- A step that leaves the log alone and changes nothing observable.
  pub same-Extends :
      {s s' : ClusterSnapshot U}
      → s'.undo_log ≡ s.undo_log
      → SameWorld V P s.world s'.world
      → Extends s s'
  same-Extends e h = record {
    recent = [];
    operations = ap (λ ul. ul.undo_operations) e;
    version = omega (arith, ap (λ ul. ul.state_version) e);
    trail = start h;
    next = h.next;
  }

  pub Extends-refl : (s : ClusterSnapshot U) → Extends s s
  Extends-refl s = same-Extends refl (SameWorld-refl V P s.world)

  pub Extends-trans : {s t u : ClusterSnapshot U} → Extends s t → Extends t u → Extends s u
  Extends-trans {s} {t} {u} h g = record {
    recent = g.recent ++ h.recent;
    operations =
        g.operations
        ∙ (ap (λ l. g.recent ++ l) h.operations
            ∙ sym (append_assoc g.recent h.recent s.undo_log.undo_operations));
    version = omega (arith, g.version, h.version, length-append g.recent h.recent);
    trail = Trail-append V P h.trail g.trail;
    next = omega (arith, h.next, g.next);
  }

  -- Registering the closure of a step that it takes back.
  pub register-Extends :
      {s s' : ClusterSnapshot U} (op : Undo U)
      → s'.undo_log ≡ s.undo_log
      → Undoes V P s.world op s'.world
      → s.undo_log.state_version + 1 < 2 ^ 64
      → Extends s (register U (some op) s')
  unfolding register_operation
  register-Extends {s} op e u b = record {
    recent = op ∷ [];
    operations = ap (λ ul. op ∷ ul.undo_operations) e;
    version = let v = ap (λ ul. ul.state_version) e in omega (arith, v);
    trail = step op (start (SameWorld-refl V P s.world)) u;
    next = u.next;
  }

  -- What `restoreState` gives, when it is asked for the version of `s`.
  pub record Restored (s s' t : ClusterSnapshot U) : Type 0 where
    pub log : t.undo_log ≡ s.undo_log
    pub world : SameWorld V P s.world t.world
    pub rest : t ≡ record s' { undo_log = t.undo_log; world = t.world }

  pub restore-Restored :
      {s s' : ClusterSnapshot U}
      → Extends s s'
      → s'.undo_log.state_version < 2 ^ 64
      → (t : ClusterSnapshot U) × (restore U s.undo_log.state_version s' ≡ some t) × Restored s s' t
  unfolding restore
  restore-Restored {s} {s'} h b =
      let w : World U = run_undos h.recent s'.world in
      let e : s'.undo_log ≡ record {
        undo_operations = h.recent ++ s.undo_log.undo_operations;
        state_version = s.undo_log.state_version + length h.recent;
      } =
        λ i. record { undo_operations = h.operations i; state_version = h.version i } in
      let done =
        ap (λ ul. restore_state s.undo_log.state_version ul s'.world) e
        ∙ restore_state_lem s.undo_log.state_version h.recent s.undo_log.undo_operations s'.world
            (omega (arith, h.version)) in
      (
        record s' { undo_log = s.undo_log; world = w },
        rw (done, restore),
        record {
          log = refl;
          world = Trail-run_undos V P h.trail s'.world (SameWorld-refl V P s'.world);
          rest = refl;
        },
      )

  pub restore_here : (s : ClusterSnapshot U) → restore U s.undo_log.state_version s ≡ some s
  unfolding restore
  restore_here s = rw (restore_state_here s.undo_log s.world, restore)

  -- Growth by at most `n` operations.
  pub record ExtendsBy (n : ℕ) (s s' : ClusterSnapshot U) : Type 0 where
    pub extends : Extends s s'
    pub most : s'.undo_log.state_version ≤ s.undo_log.state_version + n

  pub same-ExtendsBy :
      {n : ℕ} {s s' : ClusterSnapshot U}
      → s'.undo_log ≡ s.undo_log
      → SameWorld V P s.world s'.world
      → ExtendsBy n s s'
  same-ExtendsBy e h = record {
    extends = same-Extends e h;
    most = let v = ap (λ ul. ul.state_version) e in omega (arith, v);
  }

  pub ExtendsBy-trans :
      {n m : ℕ} {s t u : ClusterSnapshot U}
      → ExtendsBy n s t
      → ExtendsBy m t u
      → ExtendsBy (n + m) s u
  ExtendsBy-trans h g = record {
    extends = Extends-trans h.extends g.extends;
    most = omega (arith, h.most, g.most);
  }

  pub register-ExtendsBy :
      {s s' : ClusterSnapshot U} (op : Undo U)
      → s'.undo_log ≡ s.undo_log
      → Undoes V P s.world op s'.world
      → s.undo_log.state_version + 1 < 2 ^ 64
      → ExtendsBy 1 s (register U (some op) s')
  unfolding register_operation
  register-ExtendsBy op e u b = record {
    extends = register-Extends op e u b;
    most = let v = ap (λ ul. ul.state_version) e in omega (arith, v);
  }

-- The fields that the loops leave alone.
pub record Frame {U : Upstream} (s s' : ClusterSnapshot U) : Type 0 where
  pub profiles : s'.profiles ≡ s.profiles
  pub flag : s'.transaction_in_progress ≡ s.transaction_in_progress
  pub preemption : s'.preemption_version ≡ s.preemption_version

pub Frame-trans : {U : Upstream} {s t u : ClusterSnapshot U} → Frame s t → Frame t u → Frame s u
Frame-trans h g = record {
  profiles = g.profiles ∙ h.profiles;
  flag = g.flag ∙ h.flag;
  preemption = g.preemption ∙ h.preemption;
}

-- Nothing that a caller can tell by has changed.
pub record Unchanged {U : Upstream} (V : View U) (P : ℕ → Bool) (s s' : ClusterSnapshot U)
    : Type 0 where
  pub log : s'.undo_log ≡ s.undo_log
  pub world : SameWorld V P s.world s'.world
  pub frame : Frame s s'
