-- ===== src/Malware.antt =====
-- `MalwareDetectionService` (backend/app/services/malware_service.py). ClamAV and the trained
-- classifier are parameters; bytes are lists of numbers, floats an interface.
pub mod Verdicts
mod Tests
use reserach.Base.{
  ℕ, zero, ◌+◌, ◌*◌, Bool, true, false, ◌&&◌, ◌||◌, String, Option, none, some, List, [], ◌∷◌, ◌++◌,
  length, keep, take, ◌==◌, ltb, leb, nat_eq, one_of, extension, if◌then◌else◌,
}
use reserach.Base.Dict.{Dict, lookup, insert}
use reserach.Base.Float.{Float, fmin, fmax}

abbrev pub Bytes : Type 0
Bytes = List ℕ

-- `verdict`
pub data Verdict : Type 0 where
  clean suspicious malicious scan_failed : Verdict

abbrev pub is_clean : Verdict → Bool
is_clean clean = true
is_clean _ = false

pub data Warning : Type 0 where
  clamav_unreachable clamav_exception ml_exception : Warning

-- What the daemon answers of a file it names: `FOUND` with the name of a virus, or `ERROR` with a reason.
pub data Status : Type 0 where
  found error : Status

pub record Reply : Type 0 where
  pub status : Status
  pub reason : String

-- What the ClamAV daemon does: `ping` fails, something raises, or the file is scanned, with what
-- `scan_file` has for the path of the file.
pub data Clamav : Type 0 where
  ping_failed clamav_raised : Clamav
  scanned : Option Reply → Clamav

abbrev pub safe_extensions : List String
safe_extensions = "txt" ∷ "pdf" ∷ "png" ∷ "jpg" ∷ "jpeg" ∷ "csv" ∷ "docx" ∷ "xlsx" ∷ []

abbrev pub media_extensions : List String
media_extensions = "mp4" ∷ "mkv" ∷ "avi" ∷ "mov" ∷ []

-- `data.startswith(magic)`
unfoldable pub starts_with_bytes : Bytes → Bytes → Bool
starts_with_bytes [] bytes = true
starts_with_bytes (m ∷ magic) [] = false
starts_with_bytes (m ∷ magic) (b ∷ bytes) = m == b && starts_with_bytes magic bytes

-- "Executable headers": `MZ`, or `\x7fELF`.
unfoldable pub has_exe_magic : Bytes → Bool
unfolding starts_with_bytes
has_exe_magic file_bytes =
    leb 4 (length file_bytes)
    && (starts_with_bytes (77 ∷ 90 ∷ []) file_bytes
        || starts_with_bytes (127 ∷ 69 ∷ 76 ∷ 70 ∷ []) file_bytes)

-- `Counter(data)`
unfoldable pub counter : Bytes → Dict ℕ ℕ → Dict ℕ ℕ
counter [] counts = counts
counter (b ∷ bytes) counts = counter bytes (elim (lookup nat_eq b counts) [
  | none ↦ insert nat_eq b 1 counts
  | some n ↦ insert nat_eq b (n + 1) counts
])

module _ (f : Float) where
  open f use {F, lit, le, add, sub}

  -- The float operations of the entropy: the quotient of two integers, products, signs, `math.log2`.
  pub record Math : Type 0 where
    pub ratio : ℕ → ℕ → F
    pub mul : F → F → F
    pub neg : F → F
    pub log2 : F → F

  pub record Features : Type 0 where
    pub file_size : ℕ
    pub entropy : F
    pub suspicious_byte_ratio : F
    pub executable_headers : ℕ

  -- The classifier: one with probabilities, or one with labels only; `none` is an exception.
  pub data Model : Type 0 where
    predict_proba : (Features → Option F) → Model
    labels : (Features → Option ℕ) → Model

  -- What `predict` returns, or that it raises.
  pub data Prediction : Type 0 where
    score : F → Prediction
    skipped predict_raised : Prediction

  -- The dictionary of `scan_full_file` without its fixed entries.
  pub record ScanResult (Digest : Type 0) : Type 0 where
    pub verdict : Verdict
    pub is_malicious : Bool
    pub confidence : F
    pub scan_complete : Bool
    pub clamav_result : Option String
    pub heuristic_score : F
    pub sha256 : Digest
    pub warnings : List Warning

  module _ (m : Math) where
    -- The loop of `calculate_entropy` over the counts.
    unfoldable pub add_entropy : ℕ → Dict ℕ ℕ → F → F
    add_entropy len [] entropy = entropy
    add_entropy len ((b, count) ∷ counts) entropy =
        let p_x = m.ratio count len in
        add_entropy len counts (add entropy (m.mul (m.neg p_x) (m.log2 p_x)))

    unfoldable pub calculate_entropy : Bytes → F
    unfolding add_entropy counter
    calculate_entropy [] = lit 0
    calculate_entropy (b ∷ bytes) =
        add_entropy (length (b ∷ bytes)) (counter (b ∷ bytes) []) (lit 0)

    unfoldable pub extract_features : Bytes → String → Features
    unfolding calculate_entropy has_exe_magic
    extract_features file_bytes filename =
        let file_size = length file_bytes in
        let entropy = calculate_entropy file_bytes in
        let ratio =
          if ltb 0 file_size
          then m.ratio (length (keep (λ (b : ℕ). b == 0) file_bytes)) file_size
          else lit 0 in
        let headers : ℕ = if has_exe_magic file_bytes then 1 else 0 in
        let ext = extension filename in
        let is_safe = one_of ext safe_extensions in
        let entropy' = if is_safe then fmin f entropy (lit 2_000) else entropy in
        record {
          file_size = file_size;
          entropy = if one_of ext media_extensions then fmin f entropy' (lit 2_000) else entropy';
          suspicious_byte_ratio = if is_safe then lit 0 else ratio;
          executable_headers = if is_safe then 0 else headers;
        }

    -- The score before the relief for media files.
    unfoldable pub run_model : Model → Features → Option F
    run_model (predict_proba proba) features = proba features
    run_model (labels label) features = elim (label features) [
      | none ↦ none
      | some prediction ↦ some (if prediction == 1 then lit 10_000 else lit 0)
    ]

    unfoldable pub adjust : String → Option F → Prediction
    adjust ext none = predict_raised
    adjust ext (some s) =
        score (if one_of ext media_extensions then fmax f (lit 0) (sub s (lit 2_000)) else s)

    -- `predict`, with the size in bytes whose megabytes it is given.
    unfoldable pub predict : Option Model → Bytes → String → ℕ → Prediction
    unfolding run_model adjust extract_features
    predict model file_bytes filename size =
        if ltb (500 * 1_048_576) size
        then skipped
        else if one_of (extension filename) media_extensions
        then score (lit 1_500)
        else elim model [
          | none ↦ score (lit 0)
          | some classifier ↦
              adjust (extension filename)
                (run_model classifier (extract_features file_bytes filename))
        ]

  -- A prediction that is a dictionary, for a file too large, counts as 0.
  unfoldable pub score_value : Prediction → F
  score_value (score s) = s
  score_value _ = lit 0

  module _ {Digest : Type 0} where
    -- "1. ClamAV Scan"; the flag is MALWARE_SCAN_FAIL_CLOSED.
    unfoldable pub apply_clamav : Bool → Clamav → ScanResult Digest → ScanResult Digest
    apply_clamav fail_closed ping_failed r = record r {
      warnings = r.warnings ++ clamav_unreachable ∷ [];
      verdict = if fail_closed then scan_failed else r.verdict;
    }
    apply_clamav fail_closed clamav_raised r = record r {
      warnings = r.warnings ++ clamav_exception ∷ [];
      verdict = if fail_closed then scan_failed else r.verdict;
    }
    apply_clamav fail_closed (scanned none) r = record r { scan_complete = true }
    apply_clamav fail_closed (scanned (some reply)) r = record r {
      scan_complete = true;
      clamav_result = some reply.reason;
      verdict = malicious;
      is_malicious = true;
      confidence = lit 10_000;
    }

    -- A score of at least 0.90 makes a clean file suspicious.
    unfoldable pub suspect : F → ScanResult Digest → ScanResult Digest
    suspect score_val r =
        if le (lit 9_000) score_val && is_clean r.verdict
        then record r { verdict = suspicious; confidence = score_val }
        else r

    -- A score of at least 0.95 makes any file malicious.
    unfoldable pub condemn : F → ScanResult Digest → ScanResult Digest
    condemn score_val r =
        if le (lit 9_500) score_val
        then record r {
          verdict = malicious;
          is_malicious = true;
          confidence = fmax f r.confidence score_val;
        }
        else r

    -- "2. ML / Heuristic Check"
    unfoldable pub apply_ml : Prediction → ScanResult Digest → ScanResult Digest
    unfolding suspect condemn score_value
    apply_ml predict_raised r = record r { warnings = r.warnings ++ ml_exception ∷ [] }
    apply_ml prediction r =
        let score_val = score_value prediction in
        condemn score_val (suspect score_val (record r { heuristic_score = score_val }))

    unfoldable pub fresh_result : Digest → ScanResult Digest
    fresh_result digest = record {
      verdict = clean;
      is_malicious = false;
      confidence = lit 0;
      scan_complete = false;
      clamav_result = none;
      heuristic_score = lit 0;
      sha256 = digest;
      warnings = [];
    }

    -- `scan_full_file`, with what `open` finds at the path; `none` is its exception.
    unfoldable pub scan_full_file :
        Math
        → (Bytes → Digest)
        → Option Model
        → Bool
        → Clamav
        → Option Bytes
        → String
        → Option (ScanResult Digest)
    unfolding fresh_result apply_clamav apply_ml predict
    scan_full_file m hash model fail_closed clamav none filename = none
    scan_full_file m hash model fail_closed clamav (some file) filename = some (
        apply_ml (predict m model (take 4_096 file) filename (length file))
          (apply_clamav fail_closed clamav (fresh_result (hash file))))
