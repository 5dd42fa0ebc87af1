-- ===== src/Mutation/Restore/Debts.antt =====
-- What the two maps of a MutatingSnapshot owe: how many pods of a key have to be taken from, or put
-- back on, a node.
use scheduler_library.Base.{
  ℕ, ◌+◌, ◌≡◌, refl, String, true, ◌&&◌, Option, none, some, List, lookup, insert, erase,
  lookup-insert, lookup-erase, is_some, str_eq, eq_iff, arith, Bool-cases, inl, inr, if◌then◌else◌,
}
use scheduler_library.Upstream.Laws.{one, mark}

-- An entry for a pod of the node `home` counts on that node.
unfoldable pub debt {ℓ} : {A : Type ℓ} → Option A → String → String → ℕ
debt o home m = if is_some o && str_eq home m then 1 else 0

pub debt_here {ℓ} : {A : Type ℓ} (a : A) (home : String) → debt (some a) home home ≡ 1
unfolding debt
debt_here a home = ground (arith, eq_iff home home)

module _ {ℓ} {A : Type ℓ} (home : String → String) where
  pub debt-erase :
      (k j m : String) (t : List (String × A))
      → is_some (lookup k t) ≡ true
      → debt (lookup j t) (home j) m ≡ debt (lookup j (erase k t)) (home j) m + one (home k) k m j
  unfolding debt one
  debt-erase k j m t h = elim (Bool-cases (str_eq k j)) [
    | inl q ↦
        let same : k ≡ j = ground (arith, eq_iff k j) in
        ground (arith, lookup-erase j k t, eq_iff k j)
    | inr q ↦ ground (arith, lookup-erase j k t)
  ]

  pub debt-insert :
      (k j m : String) (v : A) (t : List (String × A))
      → lookup k t ≡ none
      → debt (lookup j (insert k v t)) (home j) m
        ≡ debt (lookup j t) (home j) m + one (home k) k m j
  unfolding debt one
  debt-insert k j m v t h = elim (Bool-cases (str_eq k j)) [
    | inl q ↦
        let same : k ≡ j = ground (arith, eq_iff k j) in
        ground (arith, lookup-insert j k v t, eq_iff k j)
    | inr q ↦ ground (arith, lookup-insert j k v t)
  ]

pub debt-none {ℓ} : (A : Type ℓ) (home m : String) → debt {A = A} none home m ≡ 0
unfolding debt
debt-none A home m = refl

-- No assumed record.
pub no_mark : (k j : String) → mark 0 k j ≡ 0
unfolding mark
no_mark k j = ground arith
