-- ===== src/RateLimit.antt =====
-- `InMemoryRateLimitMiddleware` (backend/app/core/rate_limiter.py). Times are in microseconds.
pub mod Window
pub mod Buckets
mod Tests
use Prim.Native.String.{◌++◌ as join}
use text.Mathlib.Text.{starts_with}
use reserach.Base.{
  ℕ, ◌+◌, ◌*◌, Bool, true, false, ◌&&◌, not, String, Option, none, some, List, [], ◌∷◌, ◌++◌,
  length, leb, if◌then◌else◌, string_eq, before_char, strip, str_eq,
}
use reserach.Base.Dict.{Dict, lookup, insert}

-- The settings of backend/app/core/config.py that the limiter reads.
pub record Settings : Type 0 where
  pub rate_limit_enabled : Bool
  pub rate_limit_window_seconds : ℕ
  pub rate_limit_general_requests : ℕ
  pub rate_limit_auth_requests : ℕ
  pub rate_limit_upload_requests : ℕ

-- `x-forwarded-for`, `request.client.host` and `request.url.path`.
pub record Request : Type 0 where
  pub forwarded : Option String
  pub client_host : Option String
  pub path : String

-- The times of the requests let through, oldest first.
abbrev pub Bucket : Type 0
Bucket = List ℕ

abbrev pub Buckets : Type 0
Buckets = Dict String Bucket

pub data Response : Type 0 where
  passed_on too_many_requests : Response

abbrev peer : Option String → String
peer none = "unknown"
peer (some host) = host

-- `_client_ip`: an empty header counts as none.
unfoldable pub client_ip : Request → String
client_ip r = elim r.forwarded [
  | none ↦ peer r.client_host
  | some header ↦ if str_eq header "" then peer r.client_host else strip (before_char b',' header)
]

-- `_limit_for_path`
unfoldable pub limit_for_path : Settings → String → ℕ
limit_for_path s path =
    if starts_with path "/api/auth/"
    then s.rate_limit_auth_requests
    else if starts_with path "/api/files/send"
    then s.rate_limit_upload_requests
    else s.rate_limit_general_requests

-- `while bucket and bucket[0] <= now - window: bucket.popleft()`
unfoldable pub drop_expired : ℕ → ℕ → Bucket → Bucket
drop_expired window now [] = []
drop_expired window now (t ∷ bucket) =
    if leb (t + window) now then drop_expired window now bucket else t ∷ bucket

-- The decision on one bucket.
unfoldable pub admit : ℕ → ℕ → ℕ → Bucket → Response × Bucket
admit limit window now bucket =
    let live = drop_expired window now bucket in
    if leb limit (length live) then (too_many_requests, live) else (passed_on, live ++ now ∷ [])

abbrev pub or_empty : Option Bucket → Bucket
or_empty none = []
or_empty (some bucket) = bucket

unfoldable pub bucket_key : Request → String
bucket_key r = join (client_ip r) (join ":" (before_char b'?' r.path))

unfoldable pub dispatch : Settings → ℕ → Request → Buckets → Response × Buckets
dispatch s now r buckets =
    if s.rate_limit_enabled && starts_with r.path "/api/"
    then (let key = bucket_key r in
        let (response, bucket) =
          admit (limit_for_path s r.path) (s.rate_limit_window_seconds * 1_000_000) now
            (or_empty (lookup string_eq key buckets)) in
        (response, insert string_eq key bucket buckets))
    else (passed_on, buckets)
