-- ===== src/Malware/Verdicts.antt =====
-- What the verdict of a scan says, and on what it rests.
use reserach.Base.{
  ℕ, ◌*◌, ◌≡◌, refl, ◌↔◌, Bool, true, false, not, ◌||◌, String, Option, none, some, length, take,
  arith, some_inj, ltb, one_of, extension,
}
use mathlib.Core.Path.{subst}
use reserach.Base.Float.{Float}
use reserach.Malware.{
  Bytes, clean, malicious, Clamav, scanned, Status, found, error, Math, Model, Prediction, score,
  skipped, predict_raised, ScanResult, apply_clamav, apply_ml, fresh_result, predict,
  scan_full_file, media_extensions,
}

abbrev is_found : Status → Bool
is_found found = true
is_found error = false

-- ClamAV found something.
abbrev pub detected : Clamav → Bool
detected (scanned (some reply)) = is_found reply.status
detected _ = false

-- ClamAV answered that it could not scan the file.
abbrev pub failed : Clamav → Bool
failed (scanned (some reply)) = not (is_found reply.status)
failed _ = false

module _ (f : Float) where
  open f use {F, lit, le, le_trans, le-lit}

  -- A score is at least a threshold in ten-thousandths; a file too large scores 0.
  abbrev pub reaches : ℕ → Prediction f → Bool
  reaches n (score s) = le (lit n) s
  reaches n skipped = le (lit n) (lit 0)
  reaches n predict_raised = false

  -- What the classifier says of a file: it sees the first 4096 bytes.
  abbrev pub prediction : Math f → Option (Model f) → Bytes → String → Prediction f
  prediction m model file filename = predict f m model (take 4_096 file) filename (length file)

  same_prediction :
      (m : Math f) (model : Option (Model f)) (xs ys : Bytes) (filename : String) (a b : ℕ)
      → xs ≡ ys
      → ltb (500 * 1_048_576) a ≡ false
      → ltb (500 * 1_048_576) b ≡ false
      → predict f m model xs filename a ≡ predict f m model ys filename b
  unfolding predict
  same_prediction m model xs ys filename a b h k l =
      subst (λ zs. predict f m model xs filename a ≡ predict f m model zs filename b) h
        (rw (k, l) refl)

  module _ {Digest : Type 0} where
    abbrev judged : Bool → Clamav → Prediction f → Digest → ScanResult f Digest
    judged fail_closed c p digest =
        apply_ml f p (apply_clamav f fail_closed c (fresh_result f digest))

    -- Malicious is what ClamAV detects or fails to scan or what scores at least 0.95, and the flag agrees.
    judged_malicious :
        (fail_closed : Bool) (c : Clamav) (p : Prediction f) (digest : Digest)
        → (((judged fail_closed c p digest).verdict ≡ malicious)
            ↔ ((detected c || failed c || reaches 9_500 p) ≡ true))
          × ((judged fail_closed c p digest).is_malicious
              ≡ (detected c || failed c || reaches 9_500 p))
    unfolding apply_ml apply_clamav fresh_result
    judged_malicious fail_closed c p digest = ground arith

    judged_clean :
        (c : Clamav) (p : Prediction f) (digest : Digest)
        → (judged true c p digest).verdict ≡ clean
        → (c ≡ scanned none) × (reaches 9_000 p ≡ false)
    unfolding apply_ml apply_clamav fresh_result
    judged_clean c p digest h = ground (arith, le-lit 9_000 0, le-lit 9_500 0)

    module _ (m : Math f) (hash : Bytes → Digest) (model : Option (Model f)) (clamav : Clamav)
        (file : Bytes) (filename : String) where
      -- A scan of a readable file always gives a result, and its verdict is malicious exactly when
      -- ClamAV detects something, or answers that it could not scan the file, or the classifier scores
      -- at least 0.95, in both fail modes; the flag says the same.
      pub scan_full_file_malicious :
          (fail_closed : Bool)
          → (r : ScanResult f Digest) × (scan_full_file f m hash model fail_closed clamav
                (some file)
                filename
              ≡ some r)
            × ((r.verdict ≡ malicious) ↔ (
                (detected clamav
                  || failed clamav
                  || reaches 9_500 (prediction m model file filename))
                ≡ true))
            × (r.is_malicious ≡ (
                detected clamav
                || failed clamav
                || reaches 9_500 (prediction m model file filename)))
      unfolding scan_full_file
      scan_full_file_malicious fail_closed =
          let p = prediction m model file filename in
          let (verdict, flag) = judged_malicious fail_closed clamav p (hash file) in
          (judged fail_closed clamav p (hash file), refl, verdict, flag)

      -- In the fail-closed mode a file is called clean only if ClamAV has scanned it and found
      -- nothing, and the classifier did not score 0.90 or more.
      pub scan_full_file_clean :
          (r : ScanResult f Digest)
          → scan_full_file f m hash model true clamav (some file) filename ≡ some r
          → r.verdict ≡ clean
          → (clamav ≡ scanned none) × (reaches 9_000 (prediction m model file filename) ≡ false)
      unfolding scan_full_file
      scan_full_file_clean r e h =
          let p = prediction m model file filename in
          let same = some_inj e in judged_clean clamav p (hash file) (rw same h)

      -- A file with the extension of a video is malicious exactly when ClamAV detects something or
      -- answers that it could not scan the file: the classifier never runs on it.
      pub scan_full_file_media :
          (fail_closed : Bool) (r : ScanResult f Digest)
          → one_of (extension filename) media_extensions ≡ true
          → scan_full_file f m hash model fail_closed clamav (some file) filename ≡ some r
          → r.is_malicious ≡ (detected clamav || failed clamav)
      unfolding scan_full_file predict
      scan_full_file_media fail_closed r h e =
          let p = prediction m model file filename in
          let same = some_inj e in
          let (_, flag) = judged_malicious fail_closed clamav p (hash file) in
          ground (arith, same, flag, le-lit 9_500 0, le-lit 9_500 1_500)

    judged-digest :
        (fail_closed : Bool) (c : Clamav) (p : Prediction f) (d d' : Digest)
        → judged fail_closed c p d' ≡ record (judged fail_closed c p d) { sha256 = d' }
    unfolding apply_ml apply_clamav fresh_result
    judged-digest fail_closed c p d d' = ground arith

    -- Files that agree in their first 4096 bytes, neither above 500 MB, get the same verdict, score and
    -- warnings from the same answers of ClamAV: the classifier sees no later byte.
    pub scan_full_file_prefix :
        (m : Math f) (hash : Bytes → Digest) (model : Option (Model f)) (fail_closed : Bool)
        (clamav : Clamav) (file other : Bytes) (filename : String) (r q : ScanResult f Digest)
        → take 4_096 file ≡ take 4_096 other
        → ltb (500 * 1_048_576) (length file) ≡ false
        → ltb (500 * 1_048_576) (length other) ≡ false
        → scan_full_file f m hash model fail_closed clamav (some file) filename ≡ some r
        → scan_full_file f m hash model fail_closed clamav (some other) filename ≡ some q
        → q ≡ record r { sha256 = hash other }
    unfolding scan_full_file
    scan_full_file_prefix m hash model fail_closed clamav file other filename r q h small small' e
          e' =
        let p = prediction m model file filename in
        let p' = prediction m model other filename in
        let same : p ≡ p' =
          same_prediction m model (take 4_096 file) (take 4_096 other) filename (length file)
            (length other) h small small' in
        let digest = judged-digest fail_closed clamav p (hash file) (hash other) in
        cc (some_inj e, some_inj e', same, digest)
