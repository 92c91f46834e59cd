-- ===== src/Malware/Tests.antt =====
-- Tests of the malware scan, over exact decimals and the length of a file as its digest.
use reserach.Base.{
  ℕ, zero, suc, ◌*◌, ◌/◌, ◌≡◌, ◌↔◌, refl, Bool, true, false, ◌||◌, String, Option, none, some, [],
  ◌∷◌, length, extension,
}
use mathlib.Core.Option
use reserach.Base.Float.{decimal}
use reserach.Malware.{
  Bytes, Math, Model, predict_proba, Features, Clamav, scanned, error, malicious, clean, ScanResult,
  scan_full_file,
}
use reserach.Malware.Verdicts.{detected, failed, reaches, prediction, scan_full_file_malicious}

-- Numbers in ten-thousandths; the logarithm is not needed to run these tests.
abbrev pub plain : Math decimal
plain = record {
  ratio = λ a b. a * 10_000 / b;
  mul = λ a b. a * b / 10_000;
  neg = λ a. a;
  log2 = λ a. 10_000;
}

-- A classifier that goes by the executable header.
abbrev by_header : Option (Model decimal)
by_header = some (predict_proba (λ (x : Features decimal). some (x.executable_headers * 9_700)))

abbrev mz : Bytes
mz = 77 ∷ 90 ∷ 0 ∷ 3 ∷ []

scan : Clamav → String → Option (ScanResult decimal ℕ)
scan c name = scan_full_file decimal plain length by_header true c (some mz) name

extension_of_archive : extension "Report.Final.ZIP" ≡ "zip"
unfolding extension
extension_of_archive = refl

executable_is_malicious :
    Option.map (λ (r : ScanResult decimal ℕ). r.verdict) (scan (scanned none) "a.bin")
    ≡ some malicious
unfolding scan scan_full_file extension
executable_is_malicious = refl

-- The same bytes under the name of a document.
document_is_clean :
    Option.map (λ (r : ScanResult decimal ℕ). r.verdict) (scan (scanned none) "a.pdf") ≡ some clean
unfolding scan scan_full_file extension
document_is_clean = refl

-- The daemon could not read the file.
abbrev unreadable : Clamav
unreadable = scanned (some (record { status = error; reason = "Access denied" }))

scan_full_file_malicious_example :
    let judged : Bool =
      detected unreadable
      || failed unreadable
      || reaches decimal 9_500 (prediction decimal plain by_header mz "a.pdf") in
    (r : ScanResult decimal ℕ) × (scan_full_file decimal plain length by_header true unreadable
        (some mz)
        "a.pdf"
      ≡ some r)
    × ((r.verdict ≡ malicious) ↔ (judged ≡ true))
    × (r.is_malicious ≡ judged)
scan_full_file_malicious_example =
    scan_full_file_malicious decimal plain length by_header unreadable mz "a.pdf" true

unreadable_is_malicious :
    Option.map (λ (r : ScanResult decimal ℕ). r.verdict) (scan unreadable "a.pdf") ≡ some malicious
unfolding scan scan_full_file extension
unreadable_is_malicious = refl

-- The result for a file whose score is given, after a scan that found nothing.
abbrev unsuspected : ℕ → ℕ → ScanResult decimal ℕ
unsuspected size score = record {
  verdict = clean;
  is_malicious = false;
  confidence = 0;
  scan_complete = true;
  clamav_result = none;
  heuristic_score = score;
  sha256 = size;
  warnings = [];
}

-- 4096 zeros, and then an executable.
abbrev zeros_then : ℕ → Bytes → Bytes
zeros_then zero tail = tail
zeros_then (suc n) tail = 0 ∷ zeros_then n tail
