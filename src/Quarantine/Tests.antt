-- ===== src/Quarantine/Tests.antt =====
-- Tests of the quarantine service, and its theorems at concrete items.
use mathlib.Core.Option
use reserach.Base.{ℕ, ◌≡◌, refl, true, false, Option, none, some, [], ◌∷◌, ◌++◌, length, extension}
use reserach.Base.Float.{decimal}
use reserach.Ledger.Symbolic.{Code, symbolic, code_beq, symbolic-CollisionFree}
use reserach.Ledger.Verify.{verify_chain}
use reserach.Malware.{Bytes, scanned, scan_full_file}
use reserach.Quarantine.{
  QuarantineItem, in_hand, World, done_release, integrity_failed, quarantine_released, get_item,
  quarantined,
}
use reserach.Quarantine.Service.{State, Request, quarantine_file, release_item, log_audit_event}
use reserach.Quarantine.Release.{Cleared, release_item_iff}
use reserach.Quarantine.Trail.{log_audit_event_breaks}

-- A world in which every path can be opened, or none can, and ClamAV finds nothing.
abbrev pub world : (Bytes → Option Bytes) → World decimal Code
world open_path = record {
  sha = symbolic;
  hash_bytes = λ bytes. Code.canonical "" "" Code.zeros (length bytes);
  open_path = open_path;
  math = record { ratio = λ a b. a; mul = λ a b. a; neg = λ a. a; log2 = λ a. a };
  model = none;
  fail_closed = true;
  clamav = scanned none;
  dumps = λ details. "{}";
}

abbrev unopened : World decimal Code
unopened = world (λ path. none)

abbrev pub opened : World decimal Code
opened = world (λ path. some (1 ∷ []))

abbrev request : Request decimal unopened
request = record {
  user_id = some 1;
  original_filename = "malware.exe";
  detection_engine = "ClamAV";
  reason = "Malware Scan Failed";
  detection_name = some "EICAR-Test-Signature";
  malware_score = some 10_000;
  transfer_id = some "transfer_123";
}

abbrev nothing_yet : State decimal unopened
nothing_yet = record { files = []; items = []; blocks = [] }

-- One file in quarantine.
one_file : State decimal unopened
one_file = (quarantine_file decimal unopened 5 77 request (in_hand (7 ∷ 8 ∷ [])) nothing_yet).1

one_file_quarantined :
    Option.map
      (λ (item : QuarantineItem ℕ Code). item.quarantine_status)
      (get_item 1 one_file.items)
    ≡ some quarantined
unfolding one_file quarantine_file get_item
one_file_quarantined = refl

-- Where the bytes happen to spell a path, the item is released by what is found there.
released_by_another_file : (release_item decimal opened 9 1 "admin" one_file).0 ≡ done_release
unfolding one_file quarantine_file release_item code_beq scan_full_file extension
released_by_another_file = refl

empty_file_refused :
    let q = (quarantine_file decimal unopened 5 77 request (in_hand []) nothing_yet).1 in
    (release_item decimal opened 9 1 "admin" q).0 ≡ integrity_failed
unfolding quarantine_file release_item
empty_file_refused = refl

release_item_iff_example :
    ((release_item decimal opened 9 1 "admin" one_file).0 ≡ done_release
      → Cleared decimal opened 1 one_file)
    × (Cleared decimal opened 1 one_file
        → (release_item decimal opened 9 1 "admin" one_file).0 ≡ done_release)
release_item_iff_example = release_item_iff decimal opened 9 1 "admin" one_file

log_audit_event_breaks_example :
    (verify_chain symbolic none (
      (log_audit_event decimal unopened 9 (quarantine_released 1 "admin") nothing_yet).blocks
      ++ [])).valid
    ≡ false
log_audit_event_breaks_example =
    log_audit_event_breaks decimal unopened symbolic-CollisionFree 9 (quarantine_released 1 "admin")
      nothing_yet []
