-- ===== src/ReadonlyClient.antt =====
-- The transport of `ReadonlyClient` of pkg/simulator/readonly_client.go. The wrapped transport is a
-- parameter: a function from a request and the state of the API server to a response and a state.
pub mod NewClient
use mathlib.Core.Path.{subst}
use mathlib.Core.Bool.{true≢false}
use scheduler_library.Base.{
  ◌≡◌, refl, sym, ap, ◌∙◌, inl, inr, String, Bool, true, false, ◌||◌, List, [], ◌∷◌, str_eq, eq_iff,
  if◌then◌else◌, Bool-cases,
}

pub record Request (B : Type 0) : Type 0 where
  pub method : String
  pub body : B

-- `(*http.Response, error)`, with the error of the library apart.
pub data Reply (R : Type 0) : Type 0 where
  response : R → Reply R
  unsupported : Reply R

-- The cases of the switch: `http.MethodPost`, `MethodPut`, `MethodPatch` and `MethodDelete`.
unfoldable pub is_mutating : String → Bool
is_mutating m = str_eq m "POST" || (str_eq m "PUT" || (str_eq m "PATCH" || str_eq m "DELETE"))

-- The methods that write to the server.
pub data Mutating : String → Type 0 where
  method_post : Mutating "POST"
  method_put : Mutating "PUT"
  method_patch : Mutating "PATCH"
  method_delete : Mutating "DELETE"

Mutating-is_mutating : {m : String} → Mutating m → is_mutating m ≡ true
unfolding is_mutating
Mutating-is_mutating method_post = refl
Mutating-is_mutating method_put = refl
Mutating-is_mutating method_patch = refl
Mutating-is_mutating method_delete = refl

is_mutating-Mutating : (m : String) → is_mutating m ≡ true → Mutating m
unfolding is_mutating
is_mutating-Mutating m h = elim (Bool-cases (str_eq m "POST")) [
  | inl q ↦ subst Mutating (sym ((eq_iff m "POST").0 q)) method_post
  | inr q ↦ elim (Bool-cases (str_eq m "PUT")) [
    | inl q1 ↦ subst Mutating (sym ((eq_iff m "PUT").0 q1)) method_put
    | inr q1 ↦ elim (Bool-cases (str_eq m "PATCH")) [
      | inl q2 ↦ subst Mutating (sym ((eq_iff m "PATCH").0 q2)) method_patch
      | inr q2 ↦ subst Mutating (sym ((eq_iff m "DELETE").0 (rw (q, q1, q2) at h))) method_delete
    ]
  ]
]

not-Mutating : {m : String} → is_mutating m ≡ false → ¬ Mutating m
not-Mutating h w = true≢false (sym (Mutating-is_mutating w) ∙ h)

module _ {B R T : Type 0} (send : Request B → T → R × T) where
  unfoldable pub round_trip : Request B → T → Reply R × T
  round_trip q t =
      if is_mutating q.method then (unsupported, t) else (response (send q t).0, (send q t).1)

  -- The replies to requests made one after the other.
  unfoldable pub round_trips : List (Request B) → T → List (Reply R) × T
  round_trips [] t = ([], t)
  round_trips (q ∷ qs) t =
      let (r, t1) = round_trip q t in let (rs, t2) = round_trips qs t1 in (r ∷ rs, t2)

  -- The specification of the replies in the state `t` of the server.
  pub data Answers (t : T) : List (Request B) → List (Reply R) → Type 0 where
    no_request : Answers t [] []
    refused :
        (q : Request B) {qs : List (Request B)} {rs : List (Reply R)}
        → Mutating q.method
        → Answers t qs rs
        → Answers t (q ∷ qs) (unsupported ∷ rs)
    passed :
        (q : Request B) {qs : List (Request B)} {rs : List (Reply R)}
        → ¬ Mutating q.method
        → Answers t qs rs
        → Answers t (q ∷ qs) (response (send q t).0 ∷ rs)

  -- The server changes its state on the four methods only.
  abbrev pub WritesOnMutating : Type 0
  WritesOnMutating = (q : Request B) (t : T) → ¬ Mutating q.method → (send q t).1 ≡ t

  pub round_trip-keeps : (q : Request B) (t : T) → WritesOnMutating → (round_trip q t).1 ≡ t
  unfolding round_trip
  round_trip-keeps q t writes = elim (Bool-cases (is_mutating q.method)) [
    | inl h ↦ rw h refl
    | inr h ↦ rw h (writes q t (not-Mutating h))
  ]

  round_trip-Answers :
      (q : Request B) (t : T) {qs : List (Request B)} {rs : List (Reply R)}
      → Answers t qs rs
      → Answers t (q ∷ qs) ((round_trip q t).0 ∷ rs)
  unfolding round_trip
  round_trip-Answers q t a = elim (Bool-cases (is_mutating q.method)) [
    | inl h ↦ rw h (refused q (is_mutating-Mutating q.method h) a)
    | inr h ↦ rw h (passed q (not-Mutating h) a)
  ]

  -- If the server changes its state only on the methods POST, PUT, PATCH and DELETE, then any requests
  -- through the client leave that state alone, those of these four methods get the library's error, and
  -- all others get the answer of the server in that state.
  pub round_trips_read_only :
      (qs : List (Request B)) (t : T)
      → WritesOnMutating
      → Answers t qs (round_trips qs t).0 × ((round_trips qs t).1 ≡ t)
  unfolding round_trips
  round_trips_read_only [] t writes = (no_request, refl)
  round_trips_read_only (q ∷ qs) t writes =
      let kept = round_trip-keeps q t writes in
      let (answers, same) = round_trips_read_only qs t writes in
      (
        subst (λ u. Answers t (q ∷ qs) ((round_trip q t).0 ∷ (round_trips qs u).0)) (sym kept)
            (round_trip-Answers q t answers),
        ap (λ u. (round_trips qs u).1) kept ∙ same,
      )
