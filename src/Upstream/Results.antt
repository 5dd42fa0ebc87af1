-- ===== src/Upstream/Results.antt =====
-- The results of calls: a value or an error.
use scheduler_library.Base.{◌≡◌, refl, ◌⊎◌, inl, inr}
use scheduler_library.Upstream.{Kinds, Error, Result, ok, err}

pub Result-cases :
    {K : Kinds} {A : Type 0} (r : Result K A)
    → ((a : A) × (r ≡ ok a)) ⊎ ((e : Error K) × (r ≡ err e))
Result-cases (ok a) = inl (a, refl)
Result-cases (err e) = inr (e, refl)

pub ok-injective : {K : Kinds} {A : Type 0} {a b : A} → ◌≡◌ {A = Result K A} (ok a) (ok b) → a ≡ b
ok-injective h = cc

pub err-ne-ok :
    {K : Kinds} {A : Type 0} {a : A} {e : Error K} → ◌≡◌ {A = Result K A} (err e) (ok a) → ⊥
err-ne-ok h = cc
