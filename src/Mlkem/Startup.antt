-- ===== src/Mlkem/Startup.antt =====
-- `startup_check` of `MLKEMService` (backend/app/services/mlkem_service.py). The log is left out.
use reserach.Base.{
  ◌≡◌, refl, Bool, true, false, String, Option, none, some, List, one_of, arith, inl, inr, ◌&&◌,
  if◌then◌else◌,
}
use reserach.Malware.{Bytes}
use reserach.Mlkem.{Result, Result-cases, returned, raised, MasterKeySetting, get_master_key}

-- The two `RuntimeError`s.
pub data Refusal : Type 0 where
  liboqs_missing required_but_unavailable : Refusal

pub data Started : Type 0 where
  started : Started
  refused : Refusal → Started

pub record PqcSettings : Type 0 where
  pub pqc_enabled : Bool
  pub pqc_required : Bool
  pub master_key : MasterKeySetting

abbrev pub is_returned : {A : Type 0} → Result A → Bool
is_returned (returned a) = true
is_returned (raised e) = false

-- The body of the `try`: whether it ends without an exception; the mechanisms are none where liboqs
-- raises.
abbrev pub provider_works : Option (List String) → MasterKeySetting → Bool
provider_works none setting = false
provider_works (some mechanisms) setting =
    if one_of "ML-KEM-768" mechanisms then is_returned (get_master_key setting) else false

-- `OQS_AVAILABLE` and what `oqs.get_enabled_kem_mechanisms` gives.
unfoldable pub startup_check : PqcSettings → Bool → Option (List String) → Started
unfolding get_master_key
startup_check s oqs_available mechanisms =
    if s.pqc_enabled
    then if oqs_available
      then if provider_works mechanisms s.master_key
        then started
        else if s.pqc_required
        then refused required_but_unavailable
        else started
      else if s.pqc_required
      then refused liboqs_missing
      else started
    else started

provider_works-lem :
    (mechanisms : Option (List String)) (setting : MasterKeySetting)
    → provider_works mechanisms setting ≡ true
    → ((names : List String) × (mechanisms ≡ some names) × (one_of "ML-KEM-768" names ≡ true))
      × ((mk : Bytes) × (get_master_key setting ≡ returned mk))
provider_works-lem none setting h = absurd (cc)
provider_works-lem (some names) setting h = elim (Result-cases (get_master_key setting)) [
  | inl (mk, given) ↦ ((names, refl, ground (arith, h)), (mk, given))
  | inr (e, fails) ↦ ground (arith, fails, h)
]

-- Where the check passes with ML-KEM enabled and required, liboqs is there, offers ML-KEM-768, and the
-- master key decodes to 32 bytes; where ML-KEM is not both enabled and required, the check passes.
pub startup_check-started :
    (s : PqcSettings) (oqs_available : Bool) (mechanisms : Option (List String))
    → (s.pqc_enabled ≡ true
        → s.pqc_required ≡ true
        → startup_check s oqs_available mechanisms ≡ started
        → (oqs_available ≡ true)
          × ((names : List String) × (mechanisms ≡ some names) × (one_of "ML-KEM-768" names ≡ true))
          × ((mk : Bytes) × (get_master_key s.master_key ≡ returned mk)))
      × (s.pqc_enabled && s.pqc_required ≡ false
          → startup_check s oqs_available mechanisms ≡ started)
unfolding startup_check
startup_check-started s oqs_available mechanisms = (
  λ on required h.
      let both : (oqs_available ≡ true) × (provider_works mechanisms s.master_key ≡ true) =
        ground arith in
      let (offered, valid) = provider_works-lem mechanisms s.master_key both.1 in
      (both.0, offered, valid),
  λ off. ground arith,
)
