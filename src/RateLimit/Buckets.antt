-- ===== src/RateLimit/Buckets.antt =====
-- The middleware as a whole: what `dispatch` does on its branches, and to the other clients' buckets.
use text.Mathlib.Text.{starts_with}
use reserach.Base.{ℕ, ◌*◌, ◌≡◌, refl, true, false, ◌&&◌, String, string_eq}
use reserach.Base.Dict.{lookup, lookup-insert_self, lookup-insert_ne}
use reserach.RateLimit.{
  Settings, Request, Buckets, admit, limit_for_path, bucket_key, or_empty, dispatch,
}

-- The requests that the limiter looks at.
abbrev pub IsLimited : Settings → Request → Type 0
IsLimited s r = (s.rate_limit_enabled && starts_with r.path "/api/") ≡ true

-- A limited request is decided by its own bucket under the limit of its path, its bucket becomes the
-- one after the decision, and no other client's or path's bucket changes.
pub dispatch_limited :
    (s : Settings) (now : ℕ) (r : Request) (buckets : Buckets)
    → IsLimited s r
    → let key = bucket_key r in
      let (response, bucket) =
        admit
          (limit_for_path s r.path)
          (s.rate_limit_window_seconds * 1_000_000)
          now
          (or_empty (lookup string_eq key buckets)) in
      let (answer, buckets') = dispatch s now r buckets in
      (answer ≡ response)
      × (or_empty (lookup string_eq key buckets') ≡ bucket)
      × ((other : String)
          → string_eq.beq other key ≡ false
          → lookup string_eq other buckets' ≡ lookup string_eq other buckets)
unfolding dispatch
dispatch_limited s now r buckets limited =
    let key = bucket_key r in
    let decision =
      admit (limit_for_path s r.path) (s.rate_limit_window_seconds * 1_000_000) now
        (or_empty (lookup string_eq key buckets)) in
    rw limited (
      refl,
      rw (lookup-insert_self string_eq key decision.1 buckets),
      λ other differ. lookup-insert_ne string_eq other key decision.1 buckets differ,
    )
