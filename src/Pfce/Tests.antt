-- ===== src/Pfce/Tests.antt =====
-- Tests of the packages, and their theorems at a concrete transfer.
use Prim.Native.String.{[] as no_text, ◌∷◌ as char_cons}
use reserach.Base.{
  ℕ, zero, suc, ◌≡◌, ◌≢◌, ◌≤◌, ◌⊎◌, refl, ap, Bool, true, false, String, Option, none, some, List,
  [], ◌∷◌, nat_eq, length, arith,
}
use reserach.Malware.{Bytes}
use reserach.Prekeys.{EcdhPrekey, get_and_delete_prekey}
use reserach.Pfce.{Signature, Package, Primitives, IsCorrect}
use reserach.Pfce.Fragments.{join_chunks}
use reserach.Pfce.Rounds.{upload_rounds_ends}
use reserach.Pfce.Upload.{upload_rounds, KeyEngine, Order, package_of, upload_parts}
use reserach.Pfce.Download.{
  Verifier, Download, ok, check_signature, recover_kek, process_download_stream, sort_by_id,
}
use reserach.Pfce.Integrity.{IsAccepted, Sound, process_download_stream-Sound}
use reserach.Pfce.RoundTrip.{download-upload}
use reserach.Pfce.Truncation.{truncate, truncated_accepted}

-- A text of so many dots.
abbrev pub dots : ℕ → String
dots zero = no_text
dots (suc n) = char_cons "." (dots n)

text_tail : {s t : String} → char_cons "." s ≡ char_cons "." t → s ≡ t
text_tail h = cc

abbrev is_no_text : String → Bool
is_no_text no_text = true
is_no_text (char_cons c s) = false

dots_inj : (m n : ℕ) → dots m ≡ dots n → m ≡ n
dots_inj zero zero h = refl
dots_inj zero (suc n) h = ground (arith, ap is_no_text h)
dots_inj (suc m) zero h = ground (arith, ap is_no_text h)
dots_inj (suc m) (suc n) h = ap suc (dots_inj m n (text_tail h))

-- A sealed text is its bytes behind a mark.
abbrev open_mark : ℕ → Bytes → Option Bytes
open_mark mark [] = none
open_mark mark (b ∷ bytes) = some bytes

-- Hashes are lengths.
abbrev pub toy : Primitives ℕ
toy = record {
  digest_eq = nat_eq;
  sha256 = λ bytes. length bytes;
  encrypt = λ c key nonce m. 1 ∷ m;
  decrypt = λ c key nonce m. open_mark 1 m;
  rsa_encrypt = λ user seed m. 2 ∷ m;
  rsa_decrypt = λ user m. open_mark 2 m;
  fragment_name = λ prefix n. dots n;
  str = dots;
  public_key_pem = λ pem. some pem;
}

pub toy-IsCorrect : IsCorrect toy
toy-IsCorrect = record {
  decrypt-encrypt = λ c key nonce m. refl;
  rsa_decrypt-encrypt = λ user seed m. refl;
  fragment_name_inj = λ prefix. dots_inj;
}

abbrev pub order : Order toy
order = record {
  sender_id = "7";
  receiver_id = "8";
  stored_name_prefix = "";
  classification = "public";
  draws = λ k. record {
    chunk_size = 2;
    aes_key = 5 ∷ 6 ∷ [];
    file_nonce = [];
    picks_aes = true;
    oaep_seed = [];
    hybrid_wrap_nonce = [];
  };
}

abbrev pub signed_by_7 : Signature ℕ
signed_by_7 = record {
  signer_id = "7";
  algorithm = "RSA-PSS-SHA256";
  key_fingerprint = "fp";
  transfer_id = "t1";
  file_size = some 5;
  signed_at = "now";
  nonce = "n";
  original_file_sha256 = "h";
  signature = "s";
}

abbrev pub trusting : Verifier
trusting = record {
  get_public_key_size = λ user. 2_048;
  get_spki_fingerprint = λ spki. "fp";
  verify_pfce_signature = λ payload signature spki. true;
}

abbrev pub five_bytes : Bytes
five_bytes = 10 ∷ 20 ∷ 30 ∷ 40 ∷ 50 ∷ []

-- Without a key-management engine.
abbrev no_engine : Option (KeyEngine Unit Unit)
no_engine = none

abbrev pkg : Package ℕ Unit
pkg = (package_of toy order none (some signed_by_7) five_bytes).pfce_package

pkg_signed : check_signature toy trusting pkg.metadata "8" "spki" ≡ ok tt
unfolding package_of check_signature
pkg_signed = refl

pkg_recovers : recover_kek toy no_engine "8" "t1" pkg.metadata none tt ≡ ok none
unfolding package_of recover_kek
pkg_recovers = refl

abbrev received : Download
received = (process_download_stream toy trusting no_engine "t1" "8" "spki" pkg tt []).0

download-upload_example : (received.failure ≡ none) × (join_chunks received.yielded ≡ five_bytes)
unfolding get_and_delete_prekey
download-upload_example =
    download-upload toy order toy-IsCorrect trusting no_engine none (some signed_by_7) "t1" "spki"
      five_bytes tt [] (λ k. omega arith) pkg_signed pkg_recovers

upload_rounds_ends_example :
    (upload_rounds toy order none 6 0 five_bytes ≡ upload_rounds toy order none 9 0 five_bytes)
    × (length (upload_rounds toy order none 6 0 five_bytes) ≤ length five_bytes)
upload_rounds_ends_example =
    upload_rounds_ends toy order none 6 9 0 five_bytes (omega arith) (omega arith)

truncated_accepted_example :
    (process_download_stream toy trusting no_engine "t1" "8" "spki" (truncate 1 pkg) tt []).0
    ≡ record { yielded = (10 ∷ 20 ∷ []) ∷ []; failure = none }
unfolding get_and_delete_prekey upload_parts
truncated_accepted_example =
    truncated_accepted toy order toy-IsCorrect trusting no_engine none signed_by_7 "t1" "spki" 5 1
      five_bytes tt [] refl (omega arith) pkg_signed pkg_recovers

abbrev no_prekeys : List EcdhPrekey
no_prekeys = []

process_download_stream-Sound_example :
    ((received.yielded ≡ [])
      × (received.failure ≢ none)
      × ((process_download_stream toy trusting no_engine "t1" "8" "spki" pkg tt no_prekeys).1
          ≡ no_prekeys))
    ⊎ (((s : Signature ℕ) × IsAccepted toy trusting pkg.metadata "8" "spki" s)
        × Sound toy (sort_by_id pkg.metadata.fragments) received)
process_download_stream-Sound_example =
    process_download_stream-Sound toy trusting no_engine "t1" "8" "spki" pkg tt no_prekeys
