-- ===== src/Classification/Sensitive.antt =====
-- Which files the scan finds sensitive, and what follows from it.
use reserach.Base.{
  ◌≡◌, refl, true, false, String, List, [], ◌∷◌, take, lower, contains_text, ◌⊎◌, inl, inr,
  Bool-cases, sym, ap, ◌∙◌, ◌↔◌, ◌≢◌, length, contains_any, str_eq, arith,
}
use mathlib.Core.Path.{subst}
use reserach.Base.Float.{Float}
use reserach.Malware.{Bytes}
use reserach.Pfce.{Draw, aes_gcm, chacha20_poly1305}
use reserach.Pfce.Upload.{is_protected, select_cipher}
use reserach.Upce.Policy.{select_crypto_policy}
use reserach.Classification.{Patterns, sensitive_keywords, is_sensitive_text, scan}

abbrev pub IsWord : String → Type 0
IsWord word = (word ≡ "confidential") ⊎ (word ≡ "password") ⊎ (word ≡ "medical")

abbrev pub text_of : Patterns → Bytes → String
text_of p file_bytes = lower (p.decode (take 10_240 file_bytes))

-- A file that is to be protected: one of three words in its name, or in the text of its first 10 KiB a
-- word, a credit card number or a social security number.
pub data IsSensitive (p : Patterns) (file_bytes : Bytes) (file_name : String) : Type 0 where
  named :
      (word : String)
      → IsWord word
      → contains_text word (lower file_name) ≡ true
      → IsSensitive p file_bytes file_name
  mentioned :
      (word : String)
      → IsWord word
      → contains_text word (text_of p file_bytes) ≡ true
      → str_eq (text_of p file_bytes) "" ≡ false
      → IsSensitive p file_bytes file_name
  credit_card :
      p.has_credit_card (text_of p file_bytes) ≡ true
      → str_eq (text_of p file_bytes) "" ≡ false
      → IsSensitive p file_bytes file_name
  social_security_number :
      p.has_social_security_number (text_of p file_bytes) ≡ true
      → str_eq (text_of p file_bytes) "" ≡ false
      → IsSensitive p file_bytes file_name

lower_sensitive : lower "Sensitive" ≡ "sensitive"
unfolding lower
lower_sensitive = refl

lower_normal : lower "Normal" ≡ "normal"
unfolding lower
lower_normal = refl

-- A word that is found.
contains_any-IsWord :
    (text : String)
    → contains_any sensitive_keywords text ≡ true
    → (word : String) × IsWord word × (contains_text word text ≡ true)
unfolding contains_any
contains_any-IsWord text h = elim (Bool-cases (contains_text "confidential" text)) [
  | inl a ↦ ("confidential", inl refl, a)
  | inr not_a ↦ elim (Bool-cases (contains_text "password" text)) [
    | inl b ↦ ("password", inr (inl refl), b)
    | inr not_b ↦ ("medical", inr (inr refl), ground (arith, h, not_a, not_b))
  ]
]

IsWord-contains_any :
    (word text : String)
    → IsWord word
    → contains_text word text ≡ true
    → contains_any sensitive_keywords text ≡ true
unfolding contains_any
IsWord-contains_any word text (inl a) h = ground (arith, h, rw a at h)
IsWord-contains_any word text (inr (inl b)) h = ground (arith, h, rw b at h)
IsWord-contains_any word text (inr (inr c)) h = ground (arith, h, rw c at h)

IsSensitive-scan :
    (p : Patterns) (file_bytes : Bytes) (file_name : String)
    → IsSensitive p file_bytes file_name
    → scan p file_bytes file_name ≡ "Sensitive"
unfolding scan is_sensitive_text
IsSensitive-scan p file_bytes file_name (named word is_word h) =
    let hit = IsWord-contains_any word (lower file_name) is_word h in rw hit refl
IsSensitive-scan p file_bytes file_name (mentioned word is_word h some_text) =
    let hit = IsWord-contains_any word (text_of p file_bytes) is_word h in
    ground (arith, hit, some_text)
IsSensitive-scan p file_bytes file_name (credit_card h some_text) = ground (arith, h, some_text)
IsSensitive-scan p file_bytes file_name (social_security_number h some_text) =
    ground (arith, h, some_text)

-- The scan answers one of two texts, and the first only for a sensitive file.
scan-cases :
    (p : Patterns) (file_bytes : Bytes) (file_name : String)
    → IsSensitive p file_bytes file_name ⊎ (scan p file_bytes file_name ≡ "Normal")
unfolding scan is_sensitive_text
scan-cases p file_bytes file_name =
    let text = text_of p file_bytes in
    elim (Bool-cases (contains_any sensitive_keywords (lower file_name))) [
      | inl name ↦
          let (word, is_word, h) = contains_any-IsWord (lower file_name) name in
          inl (named word is_word h)
      | inr no_name ↦ elim (Bool-cases (str_eq text "")) [
        | inl empty ↦ inr (rw (no_name, empty) refl)
        | inr some_text ↦ elim (Bool-cases (contains_any sensitive_keywords text)) [
          | inl keyword ↦
              let (word, is_word, h) = contains_any-IsWord text keyword in
              inl (mentioned word is_word h some_text)
          | inr no_keyword ↦ elim (Bool-cases (p.has_credit_card text)) [
            | inl card ↦ inl (credit_card card some_text)
            | inr no_card ↦ elim (Bool-cases (p.has_social_security_number text)) [
              | inl number ↦ inl (social_security_number number some_text)
              | inr none_of_them ↦
                  inr (rw (no_name, some_text, no_keyword, no_card, none_of_them) refl)
            ]
          ]
        ]
      ]
    ]

-- A property of the answer that only "Sensitive" has marks the sensitive files.
marks :
    (p : Patterns) (file_bytes : Bytes) (file_name : String) (P : String → Type 0)
    → P "Sensitive"
    → ¬ P "Normal"
    → P (scan p file_bytes file_name) ↔ IsSensitive p file_bytes file_name
marks p file_bytes file_name P sensitive normal = (
  λ h. elim (scan-cases p file_bytes file_name) [
    | inl is ↦ is
    | inr answer ↦ absurd (normal (subst P answer h))
  ],
  λ is. subst P (sym (IsSensitive-scan p file_bytes file_name is)) sensitive,
)

abbrev aes_draw : Draw
aes_draw = record {
  chunk_size = 1;
  aes_key = [];
  file_nonce = [];
  picks_aes = true;
  oaep_seed = [];
  hybrid_wrap_nonce = [];
}

cipher-Sensitive : (d : Draw) → select_cipher "Sensitive" d ≡ chacha20_poly1305
unfolding select_cipher is_protected contains_any
cipher-Sensitive d = rw lower_sensitive refl

cipher-Normal : select_cipher "Normal" aes_draw ≡ aes_gcm
unfolding select_cipher is_protected contains_any contains_text lower
cipher-Normal = refl

ciphers_differ : aes_gcm ≢ chacha20_poly1305
ciphers_differ h = cc

two_candidates :
    ◌≢◌ {A = List String} ("AES-256-GCM" ∷ "ChaCha20-Poly1305" ∷ []) ("ChaCha20-Poly1305" ∷ [])
two_candidates h = let e = ap length h in omega (arith, e)

module _ (f : Float) where
  open f use {F, lit, le, le-lit}

  abbrev candidates : String → String → F → List String
  candidates classification level score =
      (select_crypto_policy f classification level score).algorithm_candidates

  candidates-Sensitive :
      (level : String) (score : F) → candidates "Sensitive" level score ≡ "ChaCha20-Poly1305" ∷ []
  unfolding select_crypto_policy
  candidates-Sensitive level score = rw (candidates, lower_sensitive) (ground arith)

  candidates-Normal : candidates "Normal" "low" (lit 0) ≡ "AES-256-GCM" ∷ "ChaCha20-Poly1305" ∷ []
  unfolding select_crypto_policy lower
  candidates-Normal = rw (le-lit 9_000 0) refl

  -- The files that the scan finds sensitive are exactly those with one of the three words in their name,
  -- or with text in their first 10 KiB and in it one of the words, a credit card number or a social
  -- security number. They are exactly those of which each fragment is encrypted with ChaCha20-Poly1305
  -- whatever is drawn, and exactly those for which the policy has no other candidate whatever the level of
  -- the analysis and the malware score.
  pub scan-maximum :
      (p : Patterns) (file_bytes : Bytes) (file_name : String)
      → ((scan p file_bytes file_name ≡ "Sensitive") ↔ IsSensitive p file_bytes file_name)
        × (((d : Draw) → select_cipher (scan p file_bytes file_name) d ≡ chacha20_poly1305)
            ↔ IsSensitive p file_bytes file_name)
        × (((level : String) (score : F)
              → (select_crypto_policy f
                  (scan p file_bytes file_name)
                  level
                  score).algorithm_candidates
                ≡ "ChaCha20-Poly1305" ∷ [])
            ↔ IsSensitive p file_bytes file_name)
  scan-maximum p file_bytes file_name = (
    marks p file_bytes file_name (λ s. s ≡ "Sensitive") refl (λ h. cc),
    marks p file_bytes file_name (λ s. (d : Draw) → select_cipher s d ≡ chacha20_poly1305)
        cipher-Sensitive (λ h. ciphers_differ (sym cipher-Normal ∙ h aes_draw)),
    marks p file_bytes file_name
        (λ s. (level : String) (score : F) → candidates s level score ≡ "ChaCha20-Poly1305" ∷ [])
        candidates-Sensitive (λ h. two_candidates (sym candidates-Normal ∙ h "low" (lit 0))),
  )
