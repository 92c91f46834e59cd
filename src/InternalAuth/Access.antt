-- ===== src/InternalAuth/Access.antt =====
-- Who gets in.
use reserach.Base.{
  ◌≡◌, ◌≢◌, ap, ◌⊎◌, inl, inr, refl, true, String, Option, none, some, arith, str_eq, Option-cases,
  Bool-cases,
}
use text.Mathlib.TextEquality.{eq_iff}
use reserach.InternalAuth.{
  World, Request, Payload, Decoded, payload, Cache, granted, bearer, cleanup, remember,
  remember_or_fail, check_replay, check_context, check_payload, check_jti, check_decoded,
  verify_internal_token, or_any, is_service,
}

-- What a token must say to be let in, and where the request is.
pub record MayEnter (w : World) (r : Request) (token jti : String) (p : Payload) : Type 0 where
  pub header : bearer r.authorization ≡ some token
  pub decoded : w.decode token ≡ payload p
  pub identified : p.jti ≡ some jti
  pub service : p.service ≡ some "node-api"
  pub method : (or_any p.req_method ≡ "*") ⊎ (or_any p.req_method ≡ r.method)
  pub path : (or_any p.req_path ≡ "*") ⊎ (or_any p.req_path ≡ r.path)

service_is : (o : Option String) (name : String) → is_service o name ≡ true → o ≡ some name
service_is none name h = absurd (cc)
service_is (some s) name h = ap some ((eq_iff s name).0 h)

context_granted :
    (r : Request) (p : Payload)
    → check_context r p ≡ granted
    → (p.service ≡ some "node-api")
      × ((or_any p.req_method ≡ "*") ⊎ (or_any p.req_method ≡ r.method))
      × ((or_any p.req_path ≡ "*") ⊎ (or_any p.req_path ≡ r.path))
unfolding check_context
context_granted r p h = ground (
  arith,
  service_is p.service "node-api",
  eq_iff (or_any p.req_method) "*",
  eq_iff (or_any p.req_method) r.method,
  eq_iff (or_any p.req_path) "*",
  eq_iff (or_any p.req_path) r.path,
)

-- The replay check refuses with an error, or lets the call go on.
replay_refuses :
    (w : World) (jti : String) (cache : Cache) → (check_replay w jti cache).0 ≢ some granted
unfolding check_replay remember_or_fail remember
replay_refuses w jti cache h = ground arith

payload_granted :
    (w : World) (r : Request) (p : Payload) (jti : String) (cache : Cache)
    → (check_payload w r p jti cache).0 ≡ granted
    → check_context r p ≡ granted
unfolding check_payload
payload_granted w r p jti cache h = ground (arith, replay_refuses w jti (cleanup w.now cache))

jti_granted :
    (w : World) (r : Request) (p : Payload) (o : Option String) (cache : Cache)
    → (check_jti w r p o cache).0 ≡ granted
    → (jti : String) × (o ≡ some jti) × (check_context r p ≡ granted)
unfolding check_jti
jti_granted w r p none cache h = absurd (cc)
jti_granted w r p (some jti) cache h = elim (Bool-cases (str_eq jti "")) [
  | inl blank ↦ absurd (cc (rw blank at h))
  | inr named ↦ (jti, refl, payload_granted w r p jti cache (rw named at h))
]

decoded_granted :
    (w : World) (r : Request) (d : Decoded) (cache : Cache)
    → (check_decoded w r d cache).0 ≡ granted
    → (p : Payload) × (jti : String) × (d ≡ payload p)
      × (p.jti ≡ some jti)
      × (check_context r p ≡ granted)
unfolding check_decoded
decoded_granted w r (payload p) cache h =
    let (jti, e, c) = jti_granted w r p p.jti cache h in (p, jti, refl, e, c)
decoded_granted w r _ cache h = absurd (cc)

-- A request is let in only with a bearer token that decodes to claims with an identifier, issued by the
-- service "node-api", for this method and path or for any; this holds of every state of the replay
-- stores.
pub verify_internal_token-MayEnter :
    (w : World) (r : Request) (cache : Cache)
    → (verify_internal_token w r cache).0 ≡ granted
    → (token : String) × (jti : String) × (p : Payload) × MayEnter w r token jti p
unfolding verify_internal_token
verify_internal_token-MayEnter w r cache h = elim (Option-cases (bearer r.authorization)) [
  | inl missing ↦ absurd (cc (rw (missing, verify_internal_token) at h))
  | inr (token, header) ↦
      let (p, jti, decoded, identified, context) =
        decoded_granted w r (w.decode token) cache (rw (header, verify_internal_token) at h) in
      let (service, method, path) = context_granted r p context in
      (
        token,
        jti,
        p,
        record {
          header = header;
          decoded = decoded;
          identified = identified;
          service = service;
          method = method;
          path = path;
        },
      )
]
