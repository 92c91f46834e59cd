-- ===== src/InternalAuth.antt =====
-- `verify_internal_token` (backend/app/security/internal_auth.py). `jwt.decode` and the answers of
-- Redis are parameters; times are in microseconds.
pub mod Access
pub mod Replay
mod Tests
use text.Mathlib.Text.{starts_with}
use reserach.Base.{
  ℕ, ◌+◌, Bool, true, false, ◌&&◌, not, String, Option, none, some, leb, str_eq, string_eq, keep,
  before_char, after_char, if◌then◌else◌,
}
use reserach.Base.Dict.{Dict, lookup, insert}

-- The claims that the code reads; a claim that is missing is `none`.
pub record Payload : Type 0 where
  pub jti : Option String
  pub service : Option String
  pub req_method : Option String
  pub req_path : Option String

-- What `jwt.decode` returns or raises.
pub data Decoded : Type 0 where
  payload : Payload → Decoded
  expired_signature invalid_issuer invalid_audience invalid_token : Decoded

-- What `get_redis` and then `r.set(key, "1", ex=60, nx=True)` give.
pub data Redis : Type 0 where
  unavailable stored exists redis_error : Redis

pub record Request : Type 0 where
  pub method : String
  pub path : String
  pub authorization : Option String

-- What one call meets outside.
pub record World : Type 0 where
  pub now : ℕ
  pub development : Bool
  pub redis : Redis
  pub decode : String → Decoded

-- `local_jti_cache`: the times until which the identifiers are kept.
abbrev pub Cache : Type 0
Cache = Dict String ℕ

-- `True`, or an `HTTPException`.
pub data Answer : Type 0 where
  granted : Answer
  missing_token missing_jti replayed_jti store_unavailable : Answer
  invalid_service method_mismatch path_mismatch : Answer
  token_expired issuer_error audience_error token_error : Answer

abbrev pub status_code : Answer → ℕ
status_code granted = 200
status_code store_unavailable = 500
status_code invalid_service = 403
status_code method_mismatch = 403
status_code path_mismatch = 403
status_code _ = 401

-- `authorization.split(" ")[1]`, of a header that starts with "Bearer "
unfoldable pub bearer : Option String → Option String
bearer none = none
bearer (some header) =
    if starts_with header "Bearer " then some (before_char b' ' (after_char b' ' header)) else none

-- "Cleanup expired JTIs from local cache"
unfoldable pub cleanup : ℕ → Cache → Cache
cleanup now cache = keep (λ (entry : String × ℕ). leb now entry.1) cache

-- "In-memory fallback"
unfoldable pub remember : ℕ → String → Cache → Option Answer × Cache
remember now jti cache = elim (lookup string_eq jti cache) [
  | some _ ↦ (some replayed_jti, cache)
  | none ↦ (none, insert string_eq jti (now + 60_000_000) cache)
]

unfoldable pub remember_or_fail : World → String → Cache → Option Answer × Cache
remember_or_fail w jti cache =
    if w.development then remember w.now jti cache else (some store_unavailable, cache)

-- The replay check: the exception that it raises, if any.
unfoldable pub check_replay : World → String → Cache → Option Answer × Cache
check_replay w jti cache = elim w.redis [
  | unavailable ↦ remember_or_fail w jti cache
  | redis_error ↦ remember_or_fail w jti cache
  | stored ↦ (none, cache)
  | exists ↦ (some replayed_jti, cache)
]

-- `payload.get(claim, "*")`
abbrev pub or_any : Option String → String
or_any none = "*"
or_any (some s) = s

abbrev pub is_service : Option String → String → Bool
is_service none name = false
is_service (some s) name = str_eq s name

-- The context that the token was made for.
unfoldable pub check_context : Request → Payload → Answer
check_context r p =
    if not (is_service p.service "node-api")
    then invalid_service
    else if not (str_eq (or_any p.req_method) "*") && not (str_eq (or_any p.req_method) r.method)
    then method_mismatch
    else if not (str_eq (or_any p.req_path) "*") && not (str_eq (or_any p.req_path) r.path)
    then path_mismatch
    else granted

unfoldable pub check_payload : World → Request → Payload → String → Cache → Answer × Cache
check_payload w r p jti cache =
    let (refusal, cache') = check_replay w jti (cleanup w.now cache) in
    elim refusal [ some answer ↦ (answer, cache') | none ↦ (check_context r p, cache') ]

unfoldable pub check_jti : World → Request → Payload → Option String → Cache → Answer × Cache
check_jti w r p none cache = (missing_jti, cache)
check_jti w r p (some jti) cache =
    if str_eq jti "" then (missing_jti, cache) else check_payload w r p jti cache

unfoldable pub check_decoded : World → Request → Decoded → Cache → Answer × Cache
check_decoded w r (payload p) cache = check_jti w r p p.jti cache
check_decoded w r expired_signature cache = (token_expired, cache)
check_decoded w r invalid_issuer cache = (issuer_error, cache)
check_decoded w r invalid_audience cache = (audience_error, cache)
check_decoded w r invalid_token cache = (token_error, cache)

unfoldable pub verify_internal_token : World → Request → Cache → Answer × Cache
verify_internal_token w r cache = elim (bearer r.authorization) [
  | none ↦ (missing_token, cache)
  | some token ↦ check_decoded w r (w.decode token) cache
]
