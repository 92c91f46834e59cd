-- ===== src/RateLimit/Tests.antt =====
-- Tests of the rate limiter, and its theorems at concrete requests.
use reserach.Base.{
  ℕ, ◌≤◌, ◌≡◌, refl, true, none, some, List, [], ◌∷◌, length, keep, arith, before_char, strip,
}
use reserach.RateLimit.{Settings, Request, drop_expired, admit, client_ip}
use reserach.RateLimit.Window.{within, serve, sliding_window}

abbrev settings : Settings
settings = record {
  rate_limit_enabled = true;
  rate_limit_window_seconds = 60;
  rate_limit_general_requests = 180;
  rate_limit_auth_requests = 15;
  rate_limit_upload_requests = 20;
}

abbrev login : Request
login = record {
  forwarded = some " 10.0.0.1 , 10.0.0.2";
  client_host = none;
  path = "/api/auth/login";
}

forwarded_ip : client_ip login ≡ "10.0.0.1"
unfolding client_ip strip before_char
forwarded_ip = refl

abbrev burst : List ℕ
burst = 1 ∷ 2 ∷ 3 ∷ 11 ∷ 12 ∷ []

-- Two at most in ten units: the third is refused, and the times go as they expire.
burst_served : serve 2 10 burst ([], []) ≡ (11 ∷ 12 ∷ [], 1 ∷ 2 ∷ 11 ∷ 12 ∷ [])
unfolding serve admit drop_expired
burst_served = refl

sliding_window_example : length (keep (within 10 12) (serve 2 10 burst ([], [])).1) ≤ 2
sliding_window_example = sliding_window 2 10 burst (omega arith) 12
