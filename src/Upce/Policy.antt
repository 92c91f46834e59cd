-- ===== src/Upce/Policy.antt =====
-- `select_crypto_policy` of `UniversalPolymorphicCryptoEngine`
-- (backend/app/services/upce_quantum_service.py); the score that is printed is left out. Floats are an
-- interface.
use reserach.Base.{
  ℕ, ◌*◌, ◌≤◌, ◌<◌, ◌≡◌, ◌||◌, String, List, [], ◌∷◌, ltb, leb, str_eq, lower, one_of, arith,
  if◌then◌else◌,
}
use reserach.Base.Float.{Float}

pub record SecurityPolicy : Type 0 where
  pub security_level : String
  pub min_chunk_bytes : ℕ
  pub max_chunk_bytes : ℕ
  pub algorithm_candidates : List String

abbrev pub maximum : SecurityPolicy
maximum = record {
  security_level = "Maximum";
  min_chunk_bytes = 512 * 1_024;
  max_chunk_bytes = 2 * 1_024 * 1_024;
  algorithm_candidates = "ChaCha20-Poly1305" ∷ [];
}

abbrev elevated : SecurityPolicy
elevated = record {
  security_level = "Elevated";
  min_chunk_bytes = 2 * 1_024 * 1_024;
  max_chunk_bytes = 5 * 1_024 * 1_024;
  algorithm_candidates = "AES-256-GCM" ∷ "ChaCha20-Poly1305" ∷ [];
}

abbrev standard : SecurityPolicy
standard = record {
  security_level = "Standard";
  min_chunk_bytes = 5 * 1_024 * 1_024;
  max_chunk_bytes = 15 * 1_024 * 1_024;
  algorithm_candidates = "AES-256-GCM" ∷ "ChaCha20-Poly1305" ∷ [];
}

abbrev pub alarming : List String
alarming = "high" ∷ "critical" ∷ []

abbrev pub protected_classes : List String
protected_classes = "sensitive" ∷ "confidential" ∷ "restricted" ∷ "secret" ∷ []

module _ (f : Float) where
  open f use {F, lit, le}

  -- Of the classification, the level of the analysis and the malware score.
  unfoldable pub select_crypto_policy : String → String → F → SecurityPolicy
  select_crypto_policy classification level malware_result =
      if one_of (lower level) alarming
        || one_of (lower classification) protected_classes
        || le (lit 9_000) malware_result
      then maximum
      else if str_eq (lower level) "medium"
          || one_of (lower classification) ("internal" ∷ "private" ∷ [])
      then elevated
      else standard

  -- The policies are graded: none of the fragments of a transfer is empty, the range of their sizes is
  -- not, and whatever is alarming, protected or scored as malware by 0.9 gets fragments of at most 2 MiB
  -- and only ChaCha20-Poly1305 as a candidate, where any other transfer gets fragments of 2 MiB and more
  -- and AES-256-GCM as a candidate too.
  pub select_crypto_policy-bounds :
      (classification level : String) (malware_result : F)
      → let policy = select_crypto_policy classification level malware_result in
        (1 ≤ policy.min_chunk_bytes)
        × (policy.min_chunk_bytes < policy.max_chunk_bytes)
        × (policy.max_chunk_bytes ≤ 15_728_640)
        × (one_of (lower level) alarming
              || one_of (lower classification) protected_classes
              || le (lit 9_000) malware_result
            ≡ ltb policy.min_chunk_bytes 2_097_152)
        × (leb policy.max_chunk_bytes 2_097_152 ≡ ltb policy.min_chunk_bytes 2_097_152)
        × (policy.algorithm_candidates ≡ (
            if ltb policy.min_chunk_bytes 2_097_152
            then "ChaCha20-Poly1305" ∷ []
            else "AES-256-GCM" ∷ "ChaCha20-Poly1305" ∷ []))
  unfolding select_crypto_policy
  select_crypto_policy-bounds classification level malware_result = ground arith
