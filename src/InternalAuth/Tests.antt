-- ===== src/InternalAuth/Tests.antt =====
-- Tests of the internal token check, and its theorems at concrete requests.
use reserach.Base.{
  ℕ, ◌≡◌, refl, inl, true, String, none, some, [], ◌∷◌, arith, before_char, after_char,
}
use reserach.InternalAuth.{
  World, Request, Payload, payload, Redis, unavailable, stored, granted, replayed_jti, bearer,
  cleanup, remember, remember_or_fail, check_replay, check_context, check_payload, check_jti,
  check_decoded, verify_internal_token,
}
use reserach.InternalAuth.Access.{MayEnter, verify_internal_token-MayEnter}
use reserach.InternalAuth.Replay.{Presents, IsFallback, run_all, replay_refused, failover_replays}

abbrev claims : Payload
claims = record {
  jti = some "j1";
  service = some "node-api";
  req_method = some "POST";
  req_path = none;
}

abbrev request : Request
request = record {
  method = "POST";
  path = "/internal/crypto/encrypt";
  authorization = some "Bearer t0k3n";
}

abbrev world : ℕ → Redis → World
world now redis = record {
  now = now;
  development = true;
  redis = redis;
  decode = λ token. payload claims;
}

presents : (now : ℕ) (redis : Redis) → Presents (world now redis) request "j1"
unfolding bearer before_char after_char
presents now redis = record {
  token = "t0k3n";
  claims = claims;
  header = refl;
  decoded = refl;
  identified = refl;
}

fallback : (now : ℕ) → IsFallback (world now unavailable)
fallback now = record { development = refl; no_redis = inl refl }

let_in : (verify_internal_token (world 5 unavailable) request []).0 ≡ granted
unfolding verify_internal_token check_decoded check_jti check_payload check_replay remember_or_fail
    remember check_context cleanup bearer before_char after_char
let_in = refl

let_in_by_redis : (verify_internal_token (world 5 stored) request []).0 ≡ granted
unfolding verify_internal_token check_decoded check_jti check_payload check_replay remember_or_fail
    remember check_context cleanup bearer before_char after_char
let_in_by_redis = refl

verify_internal_token-MayEnter_example :
    (token : String) × (jti : String) × (p : Payload) × MayEnter
      (world 5 unavailable)
      request
      token
      jti
      p
verify_internal_token-MayEnter_example =
    verify_internal_token-MayEnter (world 5 unavailable) request [] let_in

replay_refused_example :
    (verify_internal_token (world 60_000_000 unavailable) request (
      run_all
        ((world 9 stored, request) ∷ [])
        (verify_internal_token (world 5 unavailable) request []).1)).0
    ≡ replayed_jti
replay_refused_example =
    replay_refused (world 5 unavailable) (world 60_000_000 unavailable) request request "j1" []
      ((world 9 stored, request) ∷ []) (presents 5 unavailable) (presents 60_000_000 unavailable)
      (fallback 5) (fallback 60_000_000) let_in (omega arith) (omega arith)

failover_replays_example :
    (verify_internal_token
      (world 9 unavailable)
      request
      (verify_internal_token (world 5 stored) request []).1).0
    ≡ granted
failover_replays_example =
    failover_replays (world 5 stored) (world 9 unavailable) request "j1" [] (presents 5 stored)
      (presents 9 unavailable) refl refl (fallback 9) refl let_in_by_redis
