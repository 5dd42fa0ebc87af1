-- ===== src/Tests/Requests.antt =====
-- Requests through the read-only client to a server that counts its writes.
use mathlib.Core.Path.{subst}
use scheduler_library.ReadonlyClient.NewClient.{
  ClientGo, Guarded, Layer, reply, ask, run, sent, new_readonly_client, made,
  new_readonly_client_reads,
}
use scheduler_library.Base.{
  ap, sym, none, some, String, ℕ, ◌+◌, ◌≡◌, refl, inl, inr, Bool, ◌||◌, List, [], ◌∷◌, str_eq,
  eq_iff, Bool-cases, if◌then◌else◌,
}
use scheduler_library.ReadonlyClient.{
  Request, Reply, response, unsupported, Mutating, method_patch, method_delete, is_mutating,
  Answers, WritesOnMutating, round_trip, round_trips, round_trips_read_only,
}

abbrev request : String → Request (Unit {0})
request m = record { method = m; body = tt }

abbrev requests : List (Request (Unit {0}))
requests = request "GET" ∷ request "DELETE" ∷ request "PATCH" ∷ request "GET" ∷ []

-- A server that counts a PATCH and a DELETE, and answers with its count.
abbrev writing : String → Bool
writing m = str_eq m "PATCH" || str_eq m "DELETE"

abbrev serve : Request (Unit {0}) → ℕ → ℕ × ℕ
serve q t = if writing q.method then (t, t + 1) else (t, t)

serve-WritesOnMutating : WritesOnMutating serve
serve-WritesOnMutating q t safe = elim (Bool-cases (str_eq q.method "PATCH")) [
  | inl h ↦ absurd (safe (subst Mutating (sym ((eq_iff q.method "PATCH").0 h)) method_patch))
  | inr h ↦ elim (Bool-cases (str_eq q.method "DELETE")) [
    | inl h1 ↦ absurd (safe (subst Mutating (sym ((eq_iff q.method "DELETE").0 h1)) method_delete))
    | inr h1 ↦ rw (h, h1) refl
  ]
]

replies :
    (round_trips serve requests 5).0 ≡ response 5 ∷ unsupported ∷ unsupported ∷ response 5 ∷ []
unfolding round_trips round_trip is_mutating
replies = refl

round_trips_read_only_example :
    Answers serve 5 requests (round_trips serve requests 5).0
    × ((round_trips serve requests 5).1 ≡ 5)
round_trips_read_only_example = round_trips_read_only serve requests 5 serve-WritesOnMutating

-- A client that asks once more, with GET, when it is refused.
abbrev again_on : Reply ℕ → Layer (Unit {0}) ℕ ℕ
again_on (response r) = reply (response r)
again_on unsupported = ask (request "GET") reply

abbrev insistent : Request (Unit {0}) → Layer (Unit {0}) ℕ ℕ
insistent q = ask q again_on

abbrev client_go : ClientGo (Unit {0}) ℕ ℕ
client_go = record {
  Config = String;
  Wrapped = Guarded (Unit {0}) ℕ ℕ;
  Client = Guarded (Unit {0}) ℕ ℕ;
  Failure = Unit {0};
  copy_config = λ c. c;
  wrap = λ f c. f serve;
  new_for_config = λ w. (none, w);
  transport_of = λ c. serve;
  transport_in = λ k q t. run (Unit {0}) ℕ ℕ k (insistent q) t;
  layers = λ k. insistent;
  copy_same = λ c. refl;
  wrap_layered = λ f c k e q t. ap (λ x. run (Unit {0}) ℕ ℕ x.1 (insistent q) t) (sym e);
}

new_readonly_client_reads_example :
    (sent (Unit {0}) ℕ ℕ (client_go.transport_in (round_trip serve)) requests 5).1 ≡ 5
unfolding new_readonly_client
new_readonly_client_reads_example =
    new_readonly_client_reads client_go "https://cluster" (round_trip serve) requests 5 new_client
      serve-WritesOnMutating
  where
    new_client :
        new_readonly_client (Unit {0}) ℕ ℕ client_go (some "https://cluster")
        ≡ made none (round_trip serve)
    new_client = refl
