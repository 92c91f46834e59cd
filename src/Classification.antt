-- ===== src/Classification.antt =====
-- `DataClassificationScanner` (backend/app/services/classification_service.py). The two regular expressions
-- and the decoding of UTF-8 are parameters.
pub mod Sensitive
mod Tests
use reserach.Base.{
  ◌*◌, Bool, ◌&&◌, ◌||◌, not, String, List, [], ◌∷◌, take, lower, contains_any, str_eq,
  if◌then◌else◌,
}
use reserach.Malware.{Bytes}

-- `CC_REGEX.search`, `SSN_REGEX.search`, and `.decode('utf-8', errors='ignore')`.
pub record Patterns : Type 0 where
  pub has_credit_card : String → Bool
  pub has_social_security_number : String → Bool
  pub decode : Bytes → String

abbrev pub sensitive_keywords : List String
sensitive_keywords = "confidential" ∷ "password" ∷ "medical" ∷ []

-- What the patterns and the keywords find in a text; nothing in the empty one.
unfoldable pub is_sensitive_text : Patterns → String → Bool
is_sensitive_text p text_content =
    not (str_eq text_content "")
    && (contains_any sensitive_keywords text_content
        || p.has_credit_card text_content
        || p.has_social_security_number text_content)

unfoldable pub scan : Patterns → Bytes → String → String
unfolding is_sensitive_text
scan p file_bytes file_name =
    if contains_any sensitive_keywords (lower file_name)
    then "Sensitive"
    else if is_sensitive_text p (lower (p.decode (take (10 * 1_024) file_bytes)))
    then "Sensitive"
    else "Normal"
