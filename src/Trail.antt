-- ===== src/Trail.antt =====
-- When a list of undo operations leads back: each of them, run in any world that looks like the one
-- it was registered in, leads to one that looks like the world before.
use scheduler_library.Base.{
  ◌≤◌, arith, ℕ, ◌≡◌, refl, ◌∙◌, Bool, true, Option, none, some, List, [], ◌∷◌, ◌++◌,
}
use scheduler_library.Upstream.{Upstream}
use scheduler_library.Upstream.Laws.{View, Same, Same-refl, Same-trans}
use scheduler_library.UndoLog.Restore.{run_undos}
use scheduler_library.World.{World, Undo}

module _ {U : Upstream} (V : View U) (P : ℕ → Bool) where
  -- Two worlds that look the same: the snapshots do, and so do the pods that `P` pins down. Pods may
  -- have been allocated on the way.
  pub record SameWorld (w v : World U) : Type 0 where
    pub snaps : Same V w.snap v.snap
    pub pods : (r : ℕ) → P r ≡ true → w.pods r ≡ v.pods r
    pub next : w.next_pod ≤ v.next_pod

  pub SameWorld-refl : (w : World U) → SameWorld w w
  SameWorld-refl w = record { snaps = Same-refl V w.snap; pods = λ r h. refl; next = omega arith }

  pub SameWorld-trans : {w v u : World U} → SameWorld w v → SameWorld v u → SameWorld w u
  SameWorld-trans h g = record {
    snaps = Same-trans V h.snaps g.snaps;
    pods = λ r p. h.pods r p ∙ g.pods r p;
    next = omega (arith, h.next, g.next);
  }

  -- `op`, registered in `w`, leads back to `before`.
  pub record Undoes (before : World U) (op : Undo U) (w : World U) : Type 0 where
    pub back : (v : World U) → SameWorld w v → SameWorld before (op v)
    pub next : before.next_pod ≤ w.next_pod

  pub data Trail (base : World U) : List (Undo U) → World U → Type 0 where
    start : {w : World U} → SameWorld base w → Trail base [] w
    step :
        {ops : List (Undo U)} {mid w : World U} (op : Undo U)
        → Trail base ops mid
        → Undoes mid op w
        → Trail base (op ∷ ops) w

  pub Undoes-same :
      {before w v : World U} {op : Undo U} → SameWorld w v → Undoes before op w → Undoes before op v
  Undoes-same h u = record {
    back = λ x g. u.back x (SameWorld-trans h g);
    next = omega (arith, u.next, h.next);
  }

  pub Trail-same :
      {base w v : World U} {ops : List (Undo U)}
      → Trail base ops w
      → SameWorld w v
      → Trail base ops v
  Trail-same (start h) g = start (SameWorld-trans h g)
  Trail-same (step op t u) g = step op t (Undoes-same g u)

  pub Trail-append :
      {base mid w : World U} {older newer : List (Undo U)}
      → Trail base older mid
      → Trail mid newer w
      → Trail base (newer ++ older) w
  Trail-append t (start h) = Trail-same t h
  Trail-append t (step op s u) = step op (Trail-append t s) u

  -- Running a trail leads back to its base.
  pub Trail-run_undos :
      {base w : World U} {ops : List (Undo U)}
      → Trail base ops w
      → (v : World U) → SameWorld w v
      → SameWorld base (run_undos ops v)
  unfolding run_undos
  Trail-run_undos (start h) v g = SameWorld-trans h g
  Trail-run_undos (step op t u) v g = Trail-run_undos t (op v) (u.back v g)

  pub Undoes-base : {a b w : World U} {op : Undo U} → SameWorld a b → Undoes b op w → Undoes a op w
  Undoes-base h u = record {
    back = λ x g. SameWorld-trans h (u.back x g);
    next = omega (arith, u.next, h.next);
  }

-- What holds of a result if there is one.
abbrev pub OnReturn {ℓ} : {A : Type ℓ} → (A → Type 0) → Option A → Type 0
OnReturn Q none = Unit
OnReturn Q (some a) = Q a
