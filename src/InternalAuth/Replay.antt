-- ===== src/InternalAuth/Replay.antt =====
-- Replays: an identifier that the in-memory fallback has accepted is refused for a minute, whatever
-- requests come in between.
use reserach.Base.{
  ℕ, ◌+◌, ◌≤◌, ◌≡◌, ◌∙◌, ap, refl, true, false, String, Option, none, some, List, [], ◌∷◌, arith,
  string_eq, Bool-cases, Option-cases, inl, inr, ◌⊎◌, beq→eq, str_eq, All,
}
use reserach.Base.Dict.{lookup, lookup-insert_self, lookup-insert_ne}
use reserach.InternalAuth.{
  World, Request, Payload, Decoded, payload, unavailable, stored, redis_error, Cache, granted,
  replayed_jti, bearer, cleanup, remember, remember_or_fail, check_replay, check_context,
  check_payload, check_jti, check_decoded, verify_internal_token,
}

-- The identifier is kept until that time.
abbrev pub Held : String → ℕ → Cache → Type 0
Held jti until cache = lookup string_eq jti cache ≡ some until

cleanup-Held :
    (now : ℕ) (jti : String) (until : ℕ) (cache : Cache)
    → now ≤ until
    → Held jti until cache
    → Held jti until (cleanup now cache)
unfolding cleanup
cleanup-Held now jti until [] h held = absurd (cc)
cleanup-Held now jti until ((j, u) ∷ cache) h held =
    ground (arith, cleanup-Held now jti until cache h)

remember-Held :
    (now : ℕ) (jti other : String) (until : ℕ) (cache : Cache)
    → Held jti until cache
    → Held jti until (remember now other cache).1
unfolding remember
remember-Held now jti other until cache held = elim (Option-cases (lookup string_eq other cache)) [
  | inl absent ↦ elim (Bool-cases (string_eq.beq jti other)) [
    | inl same ↦ absurd (cc (absent, rw (beq→eq string_eq jti other same) at held))
    | inr differ ↦
        rw (absent, remember)
          (lookup-insert_ne string_eq jti other (now + 60_000_000) cache differ ∙ held)
  ]
  | inr (u, present) ↦ rw (present, remember) held
]

check_replay-Held :
    (w : World) (jti other : String) (until : ℕ) (cache : Cache)
    → Held jti until cache
    → Held jti until (check_replay w other cache).1
unfolding check_replay remember_or_fail
check_replay-Held w jti other until cache held =
    ground (arith, remember-Held w.now jti other until cache held)

payload-Held :
    (w : World) (r : Request) (p : Payload) (jti other : String) (until : ℕ) (cache : Cache)
    → w.now ≤ until
    → Held jti until cache
    → Held jti until (check_payload w r p other cache).1
unfolding check_payload
payload-Held w r p jti other until cache h held = ground (
  arith,
  check_replay-Held w jti other until (cleanup w.now cache)
      (cleanup-Held w.now jti until cache h held),
)

jti-Held :
    (w : World) (r : Request) (p : Payload) (o : Option String) (jti : String) (until : ℕ)
    (cache : Cache)
    → w.now ≤ until
    → Held jti until cache
    → Held jti until (check_jti w r p o cache).1
unfolding check_jti
jti-Held w r p none jti until cache h held = held
jti-Held w r p (some other) jti until cache h held =
    ground (arith, payload-Held w r p jti other until cache h held)

decoded-Held :
    (w : World) (r : Request) (d : Decoded) (jti : String) (until : ℕ) (cache : Cache)
    → w.now ≤ until
    → Held jti until cache
    → Held jti until (check_decoded w r d cache).1
unfolding check_decoded
decoded-Held w r (payload p) jti until cache h held = jti-Held w r p p.jti jti until cache h held
decoded-Held w r _ jti until cache h held = held

-- No request of any kind drops an identifier before its time.
verify-Held :
    (w : World) (r : Request) (jti : String) (until : ℕ) (cache : Cache)
    → w.now ≤ until
    → Held jti until cache
    → Held jti until (verify_internal_token w r cache).1
unfolding verify_internal_token
verify-Held w r jti until cache h held = elim (Option-cases (bearer r.authorization)) [
  | inl missing ↦ rw (missing, verify_internal_token) held
  | inr (token, header) ↦
      rw (header, verify_internal_token) (decoded-Held w r (w.decode token) jti until cache h held)
]

-- The request carries a token whose claims have this identifier.
pub record Presents (w : World) (r : Request) (jti : String) : Type 0 where
  pub token : String
  pub claims : Payload
  pub header : bearer r.authorization ≡ some token
  pub decoded : w.decode token ≡ payload claims
  pub identified : claims.jti ≡ some jti

-- Redis is out of reach in a development environment, so the in-memory fallback decides.
pub record IsFallback (w : World) : Type 0 where
  pub development : w.development ≡ true
  pub no_redis : (w.redis ≡ unavailable) ⊎ (w.redis ≡ redis_error)

verify_presented :
    (w : World) (r : Request) (jti : String) (cache : Cache) (q : Presents w r jti)
    → verify_internal_token w r cache ≡ check_jti w r q.claims (some jti) cache
unfolding verify_internal_token check_decoded
verify_presented w r jti cache q =
    rw (q.header, verify_internal_token) (rw (q.decoded, check_decoded) (rw q.identified))

replay_fallback :
    (w : World) (jti : String) (cache : Cache)
    → IsFallback w
    → check_replay w jti cache ≡ remember w.now jti cache
unfolding check_replay remember_or_fail
replay_fallback w jti cache f = ground (arith, f.development, f.no_redis)

held_jti_lem :
    (w : World) (r : Request) (p : Payload) (jti : String) (cache : Cache)
    → IsFallback w
    → (check_jti w r p (some jti) cache).0 ≡ granted
    → Held jti (w.now + 60_000_000) (check_jti w r p (some jti) cache).1 × (str_eq jti "" ≡ false)
unfolding check_jti check_payload remember
held_jti_lem w r p jti cache f g =
    let kept = cleanup w.now cache in
    ground (
      arith,
      replay_fallback w jti kept f,
      lookup-insert_self string_eq jti (w.now + 60_000_000) kept,
    )

jti_refused :
    (w : World) (r : Request) (p : Payload) (jti : String) (until : ℕ) (cache : Cache)
    → IsFallback w
    → w.now ≤ until
    → str_eq jti "" ≡ false
    → Held jti until cache
    → (check_jti w r p (some jti) cache).0 ≡ replayed_jti
unfolding check_jti check_payload remember
jti_refused w r p jti until cache f h named held = ground (
  arith,
  replay_fallback w jti (cleanup w.now cache) f,
  cleanup-Held w.now jti until cache h held,
)

-- Requests in turn, each with what it meets outside.
unfoldable pub run_all : List (World × Request) → Cache → Cache
run_all [] cache = cache
run_all ((w, r) ∷ rest) cache = run_all rest (verify_internal_token w r cache).1

abbrev pub Before : ℕ → World × Request → Type 0
Before until (w, r) = w.now ≤ until

run_all-Held :
    (requests : List (World × Request)) (jti : String) (until : ℕ) (cache : Cache)
    → All (Before until) requests
    → Held jti until cache
    → Held jti until (run_all requests cache)
unfolding run_all
run_all-Held [] jti until cache early held = held
run_all-Held ((w, r) ∷ rest) jti until cache early held =
    run_all-Held rest jti until (verify_internal_token w r cache).1 early.1
      (verify-Held w r jti until cache early.0 held)

-- Replay protection of the in-memory fallback: once a request with some identifier has been let in
-- by it, any later request with that identifier, in whatever token, method or path, gets the replay
-- error for the next sixty seconds, whatever other requests were handled in between.
pub replay_refused :
    (w w' : World) (r r' : Request) (jti : String) (cache : Cache)
    (between : List (World × Request))
    → Presents w r jti
    → Presents w' r' jti
    → IsFallback w
    → IsFallback w'
    → (verify_internal_token w r cache).0 ≡ granted
    → All (Before (w.now + 60_000_000)) between
    → w'.now ≤ w.now + 60_000_000
    → (verify_internal_token w' r' (run_all between (verify_internal_token w r cache).1)).0
      ≡ replayed_jti
replay_refused w w' r r' jti cache between q q' f f' let_in early soon =
    let first_call = verify_presented w r jti cache q in
    let (held, named) = held_jti_lem w r q.claims jti cache f (rw first_call at let_in) in
    let after = run_all between (verify_internal_token w r cache).1 in
    let still =
      run_all-Held between jti (w.now + 60_000_000) (verify_internal_token w r cache).1 early
        (rw (← first_call) at held) in
    rw (verify_presented w' r' jti after q')
      (jti_refused w' r' q'.claims jti (w.now + 60_000_000) after f' soon named still)

cleanup-absent :
    (now : ℕ) (jti : String) (cache : Cache)
    → lookup string_eq jti cache ≡ none
    → lookup string_eq jti (cleanup now cache) ≡ none
unfolding cleanup
cleanup-absent now jti [] h = refl
cleanup-absent now jti ((j, u) ∷ cache) h = ground (arith, cleanup-absent now jti cache)

-- Where Redis stores the identifier, letting in depends on the claims alone, and the cache is only
-- cleaned up.
jti_stored :
    (w : World) (r : Request) (p : Payload) (jti : String) (cache : Cache)
    → w.redis ≡ stored
    → (check_jti w r p (some jti) cache).0 ≡ granted
    → (check_context r p ≡ granted)
      × ((check_jti w r p (some jti) cache).1 ≡ cleanup w.now cache)
      × (str_eq jti "" ≡ false)
unfolding check_jti check_payload check_replay
jti_stored w r p jti cache up g = ground arith

jti_absent :
    (w : World) (r : Request) (p : Payload) (jti : String) (cache : Cache)
    → IsFallback w
    → lookup string_eq jti cache ≡ none
    → str_eq jti "" ≡ false
    → check_context r p ≡ granted
    → (check_jti w r p (some jti) cache).0 ≡ granted
unfolding check_jti check_payload remember
jti_absent w r p jti cache f absent named context =
    ground
      (arith, replay_fallback w jti (cleanup w.now cache) f, cleanup-absent w.now jti cache absent)

-- The two stores do not know of each other: a request that Redis has let in for the first time is let
-- in once more when Redis then fails, by a fallback that has not seen its identifier.
pub failover_replays :
    (w w' : World) (r : Request) (jti : String) (cache : Cache)
    → Presents w r jti
    → Presents w' r jti
    → w'.decode ≡ w.decode
    → w.redis ≡ stored
    → IsFallback w'
    → lookup string_eq jti cache ≡ none
    → (verify_internal_token w r cache).0 ≡ granted
    → (verify_internal_token w' r (verify_internal_token w r cache).1).0 ≡ granted
failover_replays w w' r jti cache q q' same up f absent let_in =
    let first_call = verify_presented w r jti cache q in
    let (context, cleaned, named) =
      jti_stored w r q.claims jti cache up (rw first_call at let_in) in
    let claims : q'.claims ≡ q.claims =
      cc (
        q.header,
        q'.header,
        q.decoded,
        q'.decoded,
        ap (λ (d : String → Decoded). d q.token) same,
      ) in
    let after = (verify_internal_token w r cache).1 in
    let left : lookup string_eq jti after ≡ none =
      rw first_call (rw cleaned (cleanup-absent w.now jti cache absent)) in
    rw (verify_presented w' r jti after q')
      (jti_absent w' r q'.claims jti after f left named (rw claims context))
