-- ===== src/Upce/Tests.antt =====
-- Tests of the key engine, and its theorems at a concrete transfer.
use Prim.Native.String.{[] as no_text, ◌∷◌ as char_cons}
use reserach.Base.{
  ℕ, zero, suc, ◌≡◌, ◌≢◌, refl, ap, sym, ◌∙◌, Bool, true, false, not, String, Option, none, some,
  some_inj, List, [], ◌∷◌, ◌++◌, length, str_eq, arith, ◌==◌, ◌≤◌, ◌<◌, ltb, leb, if◌then◌else◌,
}
use reserach.Malware.{Bytes}
use reserach.Prekeys.{EcdhPrekey, Session, claim_prekey, get_and_delete_prekey}
use reserach.Pfce.Tests.{dots, toy, toy-IsCorrect, order, signed_by_7, trusting, five_bytes}
use reserach.Mlkem.{KeyDraw, PqcKey, generate_keypair, get_active_public_key}
use reserach.Mlkem.Pairs.{generate_all}
use reserach.Mlkem.Tests.{toy_kem, configured, drawn, one_key, one_key-IsValid, one_key-IsPaired}
use reserach.Upce.{
  Libraries, HybridMetadata, Draws, initialize_transfer_security, recover_transfer_security, upce,
}
use reserach.Pfce.Fragments.{join_chunks}
use reserach.Pfce.Upload.{PfceUploadResult, package_of, process_upload}
use reserach.Pfce.Download.{ok, Download, check_signature, process_download_stream}
use reserach.Base.Float.{decimal}
use reserach.Upce.Policy.{select_crypto_policy, select_crypto_policy-bounds}
use reserach.Upce.Framing.{input_key_material_inj}
use reserach.Upce.Recovery.{IsLawful, recover-initialize}
use reserach.Upce.Transfer.{IsClaimed, process_download_stream-process_upload}

abbrev ticks : String → Bytes
ticks no_text = []
ticks (char_cons c s) = 0 ∷ ticks s

abbrev dump : List (String × String) → Bytes
dump [] = []
dump (entry ∷ entries) = ticks entry.1 ++ dump entries

abbrev same_bytes : Bytes → Bytes → Bool
same_bytes [] [] = true
same_bytes [] (y ∷ ys) = false
same_bytes (x ∷ xs) [] = false
same_bytes (x ∷ xs) (y ∷ ys) = if x == y then same_bytes xs ys else false

abbrev with_info : Option Bytes → Bytes → Bytes
with_info none material = material
with_info (some info) material = info ++ material

abbrev text_of : Bool → String
text_of true = "t"
text_of false = "f"

abbrev agree : Bool → Bool → Option Bytes
agree true true = some (1 ∷ [])
agree false false = some (2 ∷ [])
agree _ _ = some (3 ∷ [])

-- A key is a truth value, private and public.
abbrev toy_libraries : Libraries ℕ Bool Bool
toy_libraries = record {
  load_pem_private_key = λ pem. some (str_eq pem "t");
  load_pem_public_key = λ pem. some (str_eq pem "t");
  public_key = λ a. a;
  public_bytes = text_of;
  exchange = agree;
  utf8 = ticks;
  hexdigest = dots;
  digest = λ n. n ∷ [];
  json_dumps = dump;
  hkdf = λ salt info material. with_info info material;
}

load-text_of : (q : Bool) → ◌≡◌ {A = Option Bool} (some (str_eq (text_of q) "t")) (some q)
load-text_of true = refl
load-text_of false = refl

agree_comm : (a b : Bool) → agree a b ≡ agree b a
agree_comm true true = refl
agree_comm true false = refl
agree_comm false true = refl
agree_comm false false = refl

toy_opens :
    (seed coins ciphertext secret : Bytes)
    → ◌≡◌ {A = Option (Bytes × Bytes)} (some (coins, seed ++ coins)) (some (ciphertext, secret))
    → ◌≡◌ {A = Option Bytes} (some (seed ++ ciphertext)) (some secret)
toy_opens seed coins ciphertext secret h =
    let same = some_inj h in
    ap some (ap (λ c. seed ++ c) (sym (ap (λ r. r.0) same)) ∙ ap (λ r. r.1) same)

toy-IsLawful : IsLawful toy_libraries toy_kem
toy-IsLawful = record {
  load-public_bytes = load-text_of;
  exchange_comm = agree_comm;
  decap-encap = toy_opens;
}

abbrev draws : Draws Bool
draws = record { key_draw = drawn 4; coins = 6 ∷ 6 ∷ []; ephemeral_private = false }

abbrev prekey_row : EcdhPrekey
prekey_row = record {
  user_id = "8";
  prekey_id = "k1";
  public_key_pem = "t";
  private_key_pem = "t";
  consumed = false;
  consumed_at = none;
  transfer_id = none;
  expires_at = 500;
}

abbrev session : Session
session = record {
  now = 100;
  fresh = λ n k. record { new_id = "k2"; public_pem = "t"; private_pem = "t" };
  between = λ n table. table;
}

abbrev claimed_rows : List EcdhPrekey
claimed_rows = (claim_prekey session "8" "t1" (prekey_row ∷ [])).1

prekey_row-IsClaimed : IsClaimed toy toy_libraries true prekey_row
prekey_row-IsClaimed = record {
  loads = refl;
  loads_public = refl;
  derives = refl;
  given = refl;
  given_public = refl;
}

prekey_claimed : claim_prekey session "8" "t1" (prekey_row ∷ []) ≡ (some prekey_row, claimed_rows)
unfolding claim_prekey
prekey_claimed = refl

prekey_found : (get_and_delete_prekey "8" "t1" claimed_rows).0 ≡ some "t"
unfolding get_and_delete_prekey claim_prekey
prekey_found = refl

abbrev others : List (String × KeyDraw)
others = ("7", drawn 5) ∷ []

abbrev secured : Option (Bytes × HybridMetadata) × List PqcKey
secured =
    initialize_transfer_security toy toy_libraries toy_kem configured draws "7" "8" (some "t") "t1"
      one_key

-- The metadata of the transfer.
abbrev agreed : HybridMetadata
agreed = record {
  enabled = true;
  mode = "HYBRID";
  classical_algorithm = "ECDH-P256";
  pq_algorithm = "ML-KEM-768";
  kdf = "HKDF-SHA256";
  version = 1;
  receiver_key_version = 1;
  kem_ciphertext = 6 ∷ 6 ∷ [];
  ecdh_ephemeral_public = "f";
}

abbrev kek : Bytes
kek = ticks "UPCE-PFCE/KEK" ++ 62 ∷ 0 ∷ 0 ∷ 0 ∷ 1 ∷ 3 ∷ 0 ∷ 0 ∷ 0 ∷ 3 ∷ 1 ∷ 6 ∷ 6 ∷ []

secured_agreed : secured.0 ≡ some (kek, agreed)
unfolding initialize_transfer_security generate_keypair get_active_public_key
secured_agreed = refl

recover-initialize_example :
    recover_transfer_security toy toy_libraries toy_kem configured "7" "8" "t1" agreed
      (some "t")
      (some "t")
      (generate_all toy toy_kem configured others secured.1)
    ≡ some (some kek)
recover-initialize_example =
    recover-initialize toy toy_libraries toy_kem configured toy-IsLawful "7" "8" "t1" "t" "t" true
      refl refl refl refl toy-IsCorrect draws one_key kek agreed others one_key-IsValid
      one_key-IsPaired (refl, tt) secured_agreed

-- After a rotation of the receiver's own key pair, what is recovered is another key: the transcript
-- names the new public key, though the private key of the old version decapsulates.
abbrev receiver_rotates : List (String × KeyDraw)
receiver_rotates = ("8", record { now = 200; seed = 4 ∷ 4 ∷ []; nonce = 9 ∷ [] }) ∷ []

abbrev is_kek : Option (Option Bytes) → Bool
is_kek (some (some key)) = same_bytes key kek
is_kek _ = false

rotation_loses_key :
    is_kek (
      recover_transfer_security toy toy_libraries toy_kem configured "7" "8" "t1" agreed
        (some "t")
        (some "t")
        (generate_all toy toy_kem configured receiver_rotates secured.1))
    ≡ false
unfolding recover_transfer_security initialize_transfer_security generate_keypair
rotation_loses_key = refl

abbrev one_byte : Bytes
one_byte = 1 ∷ []

abbrev two_bytes : Bytes
two_bytes = 2 ∷ 3 ∷ []

input_key_material_inj_example : (one_byte ≡ one_byte) × (two_bytes ≡ two_bytes)
input_key_material_inj_example =
    input_key_material_inj one_byte one_byte two_bytes two_bytes (omega arith) (omega arith)
      (omega arith) (omega arith) refl

select_crypto_policy-bounds_example :
    let policy = select_crypto_policy decimal "Sensitive" "low" 0 in
    (1 ≤ policy.min_chunk_bytes)
    × (policy.min_chunk_bytes < policy.max_chunk_bytes)
    × (policy.max_chunk_bytes ≤ 15_728_640)
    × (true ≡ ltb policy.min_chunk_bytes 2_097_152)
    × (leb policy.max_chunk_bytes 2_097_152 ≡ ltb policy.min_chunk_bytes 2_097_152)
    × (policy.algorithm_candidates ≡ (
        if ltb policy.min_chunk_bytes 2_097_152
        then "ChaCha20-Poly1305" ∷ []
        else "AES-256-GCM" ∷ "ChaCha20-Poly1305" ∷ []))
unfolding reserach.Base.lower
select_crypto_policy-bounds_example = select_crypto_policy-bounds decimal "Sensitive" "low" 0

abbrev result : PfceUploadResult toy HybridMetadata
result = package_of toy order secured.0 (some signed_by_7) five_bytes

result_signed : check_signature toy trusting result.pfce_package.metadata "8" "spki" ≡ ok tt
unfolding package_of check_signature
result_signed = refl

abbrev received : Download
received =
    (process_download_stream toy trusting (some (upce toy toy_libraries toy_kem configured draws))
      "t1" "8" "spki" result.pfce_package (generate_all toy toy_kem configured others secured.1)
      claimed_rows).0

process_download_stream-process_upload_example :
    (process_upload toy false session
        (some (upce toy toy_libraries toy_kem configured draws))
        order
        "t1"
        (some signed_by_7)
        five_bytes
        (prekey_row ∷ [], one_key)
      ≡ (some result, (claimed_rows, secured.1)))
    × ((received.failure ≡ none) × (join_chunks received.yielded ≡ five_bytes))
process_download_stream-process_upload_example =
    process_download_stream-process_upload toy toy_libraries toy_kem configured toy-IsCorrect
      toy-IsLawful order "t1" true prekey_row prekey_row-IsClaimed one_key one_key-IsValid
      one_key-IsPaired others (refl, tt) draws draws session trusting (some signed_by_7) "spki"
      five_bytes (prekey_row ∷ []) claimed_rows (λ k. omega arith) prekey_claimed prekey_found
      result_signed
