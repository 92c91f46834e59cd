-- ===== src/Prekeys/Tests.antt =====
-- Tests of the prekeys, and their theorems at concrete tables.
use reserach.Base.{◌≡◌, refl, String, some, [], ◌∷◌, List, ℕ}
use reserach.Prekeys.{
  EcdhPrekey, Material, Session, new_prekey, claim_prekey, get_and_delete_prekey,
}

abbrev material : String → Material
material id = record { new_id = id; public_pem = "public"; private_pem = "private" }

abbrev quiet : ℕ → Session
quiet now = record {
  now = now;
  fresh = λ attempt k. material "fresh";
  between = λ attempt table. table;
}

abbrev two_prekeys : List EcdhPrekey
two_prekeys = new_prekey 10 "7" (material "a") ∷ new_prekey 10 "7" (material "b") ∷ []

-- The private key is handed out once, to the transfer that claimed it.
private_key_once :
    (get_and_delete_prekey "7" "t1" (claim_prekey (quiet 20) "7" "t1" two_prekeys).1).0
    ≡ some "private"
unfolding get_and_delete_prekey claim_prekey
private_key_once = refl
