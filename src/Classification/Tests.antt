-- ===== src/Classification/Tests.antt =====
-- Tests of the classification, and its theorem at a concrete file.
use reserach.Base.{ℕ, String, ◌↔◌, inl, inr, ◌≡◌, refl, true, false, List, [], ◌∷◌}
use reserach.Base.Float.{decimal}
use reserach.Pfce.{Draw, chacha20_poly1305}
use reserach.Pfce.Upload.{select_cipher}
use reserach.Upce.Policy.{select_crypto_policy}
use reserach.Classification.{Patterns, scan}
use reserach.Classification.Sensitive.{IsSensitive, scan-maximum}

abbrev patterns : Patterns
patterns = record {
  has_credit_card = λ text. false;
  has_social_security_number = λ text. false;
  decode = λ bytes. "the Password is";
}

password_found : scan patterns (1 ∷ []) "notes.txt" ≡ "Sensitive"
unfolding scan reserach.Base.lower reserach.Base.contains_any
password_found = refl

scan-maximum_example :
    ((scan patterns (1 ∷ []) "notes.txt" ≡ "Sensitive") ↔ IsSensitive patterns (1 ∷ []) "notes.txt")
    × (((d : Draw) → select_cipher (scan patterns (1 ∷ []) "notes.txt") d ≡ chacha20_poly1305)
        ↔ IsSensitive patterns (1 ∷ []) "notes.txt")
    × (((level : String) (score : ℕ)
          → (select_crypto_policy decimal
              (scan patterns (1 ∷ []) "notes.txt")
              level
              score).algorithm_candidates
            ≡ "ChaCha20-Poly1305" ∷ [])
        ↔ IsSensitive patterns (1 ∷ []) "notes.txt")
scan-maximum_example = scan-maximum decimal patterns (1 ∷ []) "notes.txt"
