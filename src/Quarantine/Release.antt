-- ===== src/Quarantine/Release.antt =====
-- When an item leaves the quarantine, and what the scan that guards the release looks at.
use reserach.Base.{
  ℕ, ◌≡◌, ◌≢◌, ◌↔◌, refl, true, false, String, Option, none, some, sym, ◌∙◌, Bool, ◌||◌, arith,
  Option-cases, Bool-cases, inl, inr,
}
use reserach.Base.Float.{Float}
use reserach.Malware.{
  Bytes, ScanResult, Verdict, clean, suspicious, malicious, scan_failed, ping_failed,
  scan_full_file,
}
use reserach.Malware.Verdicts.{detected, failed, reaches, prediction, scan_full_file_malicious}
use reserach.Quarantine.{World, rescanned, done_release, get_item}
use reserach.Quarantine.Service.{
  Item, State, is_malicious_verdict, load_from_quarantine, same_digest, scan_item, finish_release,
  finish_rescan, release_item, rescan_item, log_audit_event,
}

true-ne-false : ◌≢◌ {A = Bool} true false
true-ne-false h = cc

module _ (f : Float) {Digest : Type 0} (w : World f Digest) where
  -- The item is known, its file is there with the digest of the row, and the scan gives a verdict other
  -- than malicious. That of a scan that failed is such a verdict, also in the fail-closed mode.
  abbrev pub Cleared : ℕ → State f w → Type 0
  Cleared item_id q =
      (item : Item f w) × (file_bytes : Bytes) × (scan_result : ScanResult f Digest) × (get_item
          item_id q.items
        ≡ some item)
      × (load_from_quarantine item.safe_identifier q.files ≡ some file_bytes)
      × (same_digest f w (w.hash_bytes file_bytes) item.sha256 ≡ true)
      × (scan_item f w item file_bytes ≡ some scan_result)
      × (is_malicious_verdict scan_result.verdict ≡ false)

  finish_release-done :
      (now : ℕ) (admin : String) (item : Item f w) (scan : Option (ScanResult f Digest))
      (q : State f w)
      → (finish_release f w now admin item scan q).0 ≡ done_release
      → (r : ScanResult f Digest) × (scan ≡ some r) × (is_malicious_verdict r.verdict ≡ false)
  unfolding finish_release
  finish_release-done now admin item none q h = absurd (cc)
  finish_release-done now admin item (some r) q h = (r, refl, ground arith)

  -- The part of `release_item` behind the two lookups.
  cleared :
      (now item_id : ℕ) (admin : String) (q : State f w) (item : Item f w) (bytes : Bytes)
      → get_item item_id q.items ≡ some item
      → load_from_quarantine item.safe_identifier q.files ≡ some bytes
      → (release_item f w now item_id admin q).0 ≡ done_release
      → Cleared item_id q
  unfolding release_item
  cleared now item_id admin q item bytes found loaded h =
      elim (Bool-cases (same_digest f w (w.hash_bytes bytes) item.sha256)) [
        | inl same ↦
            let (r, scanned, harmless) =
              finish_release-done now admin item (scan_item f w item bytes) q
                (rw (found, release_item, loaded, same) at h) in
            (item, bytes, r, found, loaded, same, scanned, harmless)
        | inr differ ↦ absurd (ground arith)
      ]

  -- An item is released exactly when it is cleared: known, its file there with the digest of the row, and
  -- the verdict of the scan another one than malicious. So a scan that failed releases the item, although
  -- the source says that the policy is verified in a fail-closed way.
  pub release_item_iff :
      (now item_id : ℕ) (admin : String) (q : State f w)
      → ((release_item f w now item_id admin q).0 ≡ done_release) ↔ Cleared item_id q
  unfolding release_item finish_release
  release_item_iff now item_id admin q = (
    λ h. elim (Option-cases (get_item item_id q.items)) [
      | inl missing ↦ absurd (ground arith)
      | inr (item, found) ↦
          elim (Option-cases (load_from_quarantine item.safe_identifier q.files)) [
            | inl gone ↦ absurd (ground arith)
            | inr (bytes, loaded) ↦ cleared now item_id admin q item bytes found loaded h
          ]
    ],
    λ (item, bytes, r, a, b, c, d, e). ground arith,
  )

  harmless_verdict :
      (v : Verdict) (b : Bool)
      → (v ≡ malicious) ↔ (b ≡ true)
      → b ≡ false
      → is_malicious_verdict v ≡ false
  harmless_verdict malicious b (to, from) h = absurd (true-ne-false (sym (to refl) ∙ h))
  harmless_verdict clean b iff h = refl
  harmless_verdict suspicious b iff h = refl
  harmless_verdict scan_failed b iff h = refl

  -- With the daemon out of reach an item is released unscanned, in the fail-closed mode too, unless the
  -- classifier scores it at 0.95 or more.
  pub release_item_unscanned :
      (now item_id : ℕ) (admin : String) (q : State f w) (item : Item f w)
      (file_bytes opened : Bytes)
      → w.clamav ≡ ping_failed
      → reaches f 9_500 (prediction f w.math w.model opened item.original_filename) ≡ false
      → get_item item_id q.items ≡ some item
      → load_from_quarantine item.safe_identifier q.files ≡ some file_bytes
      → same_digest f w (w.hash_bytes file_bytes) item.sha256 ≡ true
      → w.open_path file_bytes ≡ some opened
      → (release_item f w now item_id admin q).0 ≡ done_release
  unfolding scan_item
  release_item_unscanned now item_id admin q item file_bytes opened down low known loaded same
        readable =
      let (r, scan, verdict, flag) =
        scan_full_file_malicious f w.math w.hash_bytes w.model w.clamav opened
          item.original_filename w.fail_closed in
      let quiet : (detected w.clamav
            || failed w.clamav
            || reaches f 9_500 (prediction f w.math w.model opened item.original_filename))
          ≡ false =
        rw (down, low) refl in
      (release_item_iff now item_id admin q).1 (
        item,
        file_bytes,
        r,
        known,
        loaded,
        same,
        rw readable scan,
        harmless_verdict r.verdict _ verdict quiet,
      )

  -- A call that does not release leaves the files and the rows alone.
  pub release_item_denied :
      (now item_id : ℕ) (admin : String) (q : State f w)
      → (release_item f w now item_id admin q).0 ≢ done_release
      → ((release_item f w now item_id admin q).1.items ≡ q.items)
        × ((release_item f w now item_id admin q).1.files ≡ q.files)
  unfolding release_item finish_release log_audit_event
  release_item_denied now item_id admin q h = ground arith

  -- The scan is handed the bytes of the file where it expects a path. Where no path spelled by a file's
  -- bytes can be opened, no call ever releases or rescans an item, and a rescan changes nothing.
  pub scan_opens_bytes :
      (now item_id : ℕ) (admin : String) (q : State f w)
      → ((file_bytes : Bytes) → w.open_path file_bytes ≡ none)
      → ((release_item f w now item_id admin q).0 ≢ done_release)
        × (rescan_item f w now item_id admin q).0 ≢ rescanned
        × ((rescan_item f w now item_id admin q).1 ≡ q)
  unfolding release_item finish_release rescan_item finish_rescan scan_item scan_full_file
  scan_opens_bytes now item_id admin q h = elim (Option-cases (get_item item_id q.items)) [
    | inl missing ↦ ground arith
    | inr (item, found) ↦ elim (Option-cases (load_from_quarantine item.safe_identifier q.files)) [
      | inl gone ↦ ground arith
      | inr (bytes, loaded) ↦ ground (arith, h bytes)
    ]
  ]
