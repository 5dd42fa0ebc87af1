-- ===== src/Profiles/IgnoredResources.antt =====
-- What `buildExtenders` writes to the plugin configurations of the profiles.
use mathlib.Core.Path.{subst}
use mathlib.Core.Bool.{true≢false}
use scheduler_library.Base.{
  ◌≡◌, refl, sym, ap, ◌∙◌, inl, inr, String, Bool, true, false, Option, none, some, List, [], ◌∷◌,
  ◌++◌, append-nil, append_assoc, str_eq, is_empty, Bool-cases,
}
use scheduler_library.Upstream.{Upstream, Error, Result, ok, err}
use scheduler_library.Upstream.Results.{Result-cases, ok-injective, err-ne-ok}
use scheduler_library.Profiles.BuildExtenders.{
  ExtenderConfig, PluginArgs, node_resources_fit, other_args, Profile, ignored, Built, put,
  build_loop, keep_first, ignore_in, ignore_in_all, and_next, or_error, finish_build,
  build_extenders,
}

-- The specification: of the managed resources, those that are marked as ignored by the scheduler.
pub data Declares : List (String × Bool) → List String → Type 0 where
  none_managed : Declares [] []
  marked :
      (r : String) {ms : List (String × Bool)} {rs : List String}
      → Declares ms rs
      → Declares ((r, true) ∷ ms) (r ∷ rs)
  unmarked :
      (r : String) {ms : List (String × Bool)} {rs : List String}
      → Declares ms rs
      → Declares ((r, false) ∷ ms) rs

-- The marked resources of all configurations, in order.
pub data DeclaresAll {C : Type 0} : List (ExtenderConfig C) → List String → Type 0 where
  none_configured : DeclaresAll [] []
  configured :
      (c : ExtenderConfig C) {cs : List (ExtenderConfig C)} {rs ss : List String}
      → Declares c.managed_resources rs
      → DeclaresAll cs ss
      → DeclaresAll (c ∷ cs) (rs ++ ss)

module _ (U : Upstream) (C A : Type 0)
    (new_http_extender : ExtenderConfig C → Result U.kinds U.Extender) (plugin_name : String) where
  open U use {kinds, Extender}

  -- The first entry of the plugin gets the resources; all else is kept.
  pub data Ignores (rs : List String) : Profile A → Profile A → Type 0 where
    here :
        (n : String) (old : List String) (a : A) (ps : Profile A)
        → str_eq n plugin_name ≡ true
        → Ignores rs ((n, node_resources_fit old a) ∷ ps) ((n, node_resources_fit rs a) ∷ ps)
    there :
        (n : String) (a : PluginArgs A) {ps qs : Profile A}
        → str_eq n plugin_name ≡ false
        → Ignores rs ps qs
        → Ignores rs ((n, a) ∷ ps) ((n, a) ∷ qs)

  pub data AllIgnore (rs : List String) : List (Profile A) → List (Profile A) → Type 0 where
    no_profile : AllIgnore rs [] []
    one_profile :
        {p q : Profile A} {ps qs : List (Profile A)}
        → Ignores rs p q
        → AllIgnore rs ps qs
        → AllIgnore rs (p ∷ ps) (q ∷ qs)

  abbrev OnProfile : (Profile A → Type 0) → Result kinds (Profile A) → Type 0
  OnProfile Q (err e) = Unit
  OnProfile Q (ok p) = Q p

  keep_first-Ignores :
      (rs : List String) (n : String) (a : PluginArgs A) (ps : Profile A)
      (r : Result kinds (Profile A))
      → str_eq n plugin_name ≡ false
      → OnProfile (Ignores rs ps) r
      → OnProfile
          (Ignores rs ((n, a) ∷ ps))
          (keep_first U C A new_http_extender plugin_name (n, a) r)
  keep_first-Ignores rs n a ps (err e) q h = tt
  keep_first-Ignores rs n a ps (ok qs) q h = there n a q h

  ignore_in-Ignores :
      (rs : List String) (ps : Profile A)
      → OnProfile (Ignores rs ps) (ignore_in U C A new_http_extender plugin_name rs ps)
  unfolding ignore_in
  ignore_in-Ignores rs [] = tt
  ignore_in-Ignores rs ((n, node_resources_fit old a) ∷ ps) =
      elim (Bool-cases (str_eq n plugin_name)) [
        | inl q ↦ rw q (here n old a ps q)
        | inr q ↦
            rw q
              (keep_first-Ignores rs n (node_resources_fit old a) ps _ q (ignore_in-Ignores rs ps))
      ]
  ignore_in-Ignores rs ((n, other_args a) ∷ ps) = elim (Bool-cases (str_eq n plugin_name)) [
    | inl q ↦ rw q tt
    | inr q ↦ rw q (keep_first-Ignores rs n (other_args a) ps _ q (ignore_in-Ignores rs ps))
  ]

  abbrev OnProfiles : (List (Profile A) → Type 0) → Option (Error kinds) × List (Profile A) → Type 0
  OnProfiles Q (some e, ps) = Unit
  OnProfiles Q (none, ps) = Q ps

  and_next-AllIgnore :
      (rs : List String) (p : Profile A) (ps : List (Profile A)) (r : Result kinds (Profile A))
      (rest : Option (Error kinds) × List (Profile A))
      → OnProfile (Ignores rs p) r
      → OnProfiles (AllIgnore rs ps) rest
      → OnProfiles
          (AllIgnore rs (p ∷ ps))
          (and_next U C A new_http_extender plugin_name p ps r rest)
  and_next-AllIgnore rs p ps (err e) rest h g = tt
  and_next-AllIgnore rs p ps (ok q) (none, qs) h g = one_profile h g
  and_next-AllIgnore rs p ps (ok q) (some e, qs) h g = tt

  ignore_in_all-AllIgnore :
      (rs : List String) (ps : List (Profile A))
      → OnProfiles (AllIgnore rs ps) (ignore_in_all U C A new_http_extender plugin_name rs ps)
  unfolding ignore_in_all
  ignore_in_all-AllIgnore rs [] = no_profile
  ignore_in_all-AllIgnore rs (p ∷ ps) =
      and_next-AllIgnore rs p ps _ _ (ignore_in-Ignores rs p) (ignore_in_all-AllIgnore rs ps)

  Declares-ignored :
      {ms : List (String × Bool)} {rs : List String}
      → Declares ms rs
      → ignored U C A new_http_extender plugin_name ms ≡ rs
  Declares-ignored none_managed = refl
  Declares-ignored (marked r d) = ap (λ l. r ∷ l) (Declares-ignored d)
  Declares-ignored (unmarked r d) = Declares-ignored d

  resources_put :
      (x : Extender) (rs : List (String × Bool)) (b : Built U C A new_http_extender plugin_name)
      → (put U C A new_http_extender plugin_name x rs b).resources
        ≡ b.resources ++ ignored U C A new_http_extender plugin_name rs
  resources_put x rs b = elim (Bool-cases (U.is_ignorable x)) [
    | inl q ↦ rw q refl
    | inr q ↦ rw q refl
  ]

  build_loop-DeclaresAll :
      {cs : List (ExtenderConfig C)} {rs : List String}
      (b b' : Built U C A new_http_extender plugin_name)
      → DeclaresAll cs rs
      → build_loop U C A new_http_extender plugin_name cs b ≡ ok b'
      → b'.resources ≡ b.resources ++ rs
  unfolding build_loop
  build_loop-DeclaresAll b b' none_configured h =
      ap (λ x. x.resources) (ok-injective (sym h)) ∙ sym (append-nil b.resources)
  build_loop-DeclaresAll b b' (configured c {rs = rs} {ss = ss} d ds) h =
      elim (Result-cases (new_http_extender c)) [
        | inr (e, q) ↦ absurd (err-ne-ok (rw (q, build_loop) at h))
        | inl (x, q) ↦
            let b1 = put U C A new_http_extender plugin_name x c.managed_resources b in
            build_loop-DeclaresAll b1 b' ds (rw (q, build_loop) at h)
            ∙ ap (λ l. l ++ ss) (resources_put x c.managed_resources b)
            ∙ ap (λ l. (b.resources ++ l) ++ ss) (Declares-ignored d)
            ∙ append_assoc b.resources rs ss
      ]

  or_error-AllIgnore :
      (ps qs : List (Profile A)) (xs ys : List Extender) (rs : List String)
      (changed : Option (Error kinds) × List (Profile A))
      → OnProfiles (AllIgnore rs ps) changed
      → or_error U C A new_http_extender plugin_name xs changed.0 ≡ ok ys
      → changed.1 ≡ qs
      → AllIgnore rs ps qs
  or_error-AllIgnore ps qs xs ys rs (none, qs') h e g = subst (AllIgnore rs ps) g h
  or_error-AllIgnore ps qs xs ys rs (some x, qs') h e g = absurd (err-ne-ok e)

  finish_build-AllIgnore :
      (ps qs : List (Profile A)) (ys : List Extender)
      (b : Built U C A new_http_extender plugin_name)
      → is_empty b.resources ≡ false
      → finish_build U C A new_http_extender plugin_name ps (ok b) ≡ (ok ys, qs)
      → AllIgnore b.resources ps qs
  finish_build-AllIgnore ps qs ys b some_ignored e =
      let changed = ignore_in_all U C A new_http_extender plugin_name b.resources ps in
      or_error-AllIgnore ps qs (b.plain ++ b.ignorable) ys b.resources changed
        (ignore_in_all-AllIgnore b.resources ps) (ap (λ c. c.0) (rw some_ignored at e))
        (ap (λ c. c.1) (rw some_ignored at e))

  -- If the configurations mark some managed resources, `rs`, as ignored by the scheduler, and
  -- `buildExtenders` returns without an error, then in every profile the first plugin configuration of
  -- NodeResourcesFit has as its `IgnoredResources` exactly `rs`, the marked resources of all
  -- configurations in their order, in place of those that it had; all other plugin configurations are
  -- kept.
  pub build_extenders_ignores :
      (cs : List (ExtenderConfig C)) (rs : List String) (ps qs : List (Profile A))
      (ys : List Extender)
      → DeclaresAll cs rs
      → is_empty rs ≡ false
      → build_extenders U C A new_http_extender plugin_name cs ps ≡ (ok ys, qs)
      → AllIgnore rs ps qs
  unfolding build_extenders
  build_extenders_ignores [] rs ps qs ys none_configured some_ignored e =
      absurd (true≢false some_ignored)
  build_extenders_ignores (c ∷ cs) rs ps qs ys d some_ignored e =
      let start : Built U C A new_http_extender plugin_name = record {
        plain = [];
        ignorable = [];
        resources = [];
      } in
      elim (Result-cases (build_loop U C A new_http_extender plugin_name (c ∷ cs) start)) [
        | inr (x, q) ↦ absurd (err-ne-ok (ap (λ r. r.0) (rw q at e)))
        | inl (b, q) ↦
            let all = build_loop-DeclaresAll start b d q in
            subst (λ l. AllIgnore l ps qs) all
              (finish_build-AllIgnore ps qs ys b (ap is_empty all ∙ some_ignored) (rw q at e))
      ]
