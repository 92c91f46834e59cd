-- ===== src/Privacy/Budget.antt =====
-- What the accountant promises of one budget, whichever store keeps it.
use reserach.Base.{
  ℕ, zero, suc, ◌+◌, ◌*◌, ◌≤◌, ◌<◌, ◌≡◌, ◌≢◌, ◌↔◌, ◌⊎◌, refl, false, String, none, some, [], ◌∷◌,
  arith, string_eq, str_eq, ltb, if◌then◌else◌, length,
}
use reserach.Base.Int.{pos, ◌-ℤ◌, ltb_ℤ-sub, ltb_ℤ-sub-sub}
use reserach.Base.Dict.{Dict, lookup, insert, length-insert_new, lookup-insert_self}
use reserach.Privacy.{Limits, refuses, get_epoch}
use reserach.Privacy.Local.{is_exhausted}
use reserach.Privacy.Script.{Hash, no_hash, Reply, set_expiry, run_script}

-- `refuses` without subtractions.
pub refuses-eq :
    (limits : Limits) (analysis_class : String) (cost consumed : ℕ)
    → refuses limits analysis_class cost consumed ≡ (
        if str_eq analysis_class "PERIODIC"
        then ltb limits.max_budget (consumed + limits.reserved_budget + cost)
        else ltb limits.max_budget (consumed + cost))
unfolding refuses
refuses-eq limits analysis_class cost consumed = rw (
  ltb_ℤ-sub-sub limits.max_budget consumed limits.reserved_budget cost,
  ltb_ℤ-sub limits.max_budget consumed cost,
)

-- The fallback refuses what the script refuses.
pub is_exhausted-refuses :
    (limits : Limits) (analysis_class : String) (cost consumed : ℕ)
    → is_exhausted limits analysis_class cost (pos limits.max_budget -ℤ pos consumed)
      ≡ refuses limits analysis_class cost consumed
unfolding is_exhausted refuses
is_exhausted-refuses limits analysis_class cost consumed = refl

-- The sum of the charges that the hash remembers.
abbrev pub total : Dict String ℕ → ℕ
total [] = 0
total ((_, cost) ∷ d) = cost + total d

total-insert :
    (k : String) (v : ℕ) (d : Dict String ℕ)
    → lookup string_eq k d ≡ none
    → total (insert string_eq k v d) ≡ total d + v
total-insert k v [] h = omega arith
total-insert k v ((j, w) ∷ d) h = ground (arith, total-insert k v d)

-- The books of a hash are balanced, and the budget is not overdrawn.
pub record IsSound (limits : Limits) (h : Hash) : Type 0 where
  pub within : h.consumed ≤ limits.max_budget
  pub charges : total h.seen ≡ h.consumed
  pub counted : length h.seen ≡ h.count

-- One run of the script, whatever its arguments, keeps the hash sound: what was consumed stays
-- within the budget and is the sum of the remembered charges, and the count is their number.
pub run_script-IsSound :
    (limits : Limits) (ttl : ℕ) (analysis_id : String) (cost : ℕ) (analysis_class : String)
    (h : Hash)
    → IsSound limits h
    → IsSound limits (run_script limits ttl analysis_id cost analysis_class h).1
unfolding run_script set_expiry
run_script-IsSound limits zero analysis_id cost analysis_class h s = ground (
  arith,
  refuses-eq limits analysis_class cost h.consumed,
  total-insert analysis_id cost h.seen,
  length-insert_new string_eq analysis_id cost h.seen,
)
run_script-IsSound limits (suc ttl) analysis_id cost analysis_class h s = ground (
  arith,
  refuses-eq limits analysis_class cost h.consumed,
  total-insert analysis_id cost h.seen,
  length-insert_new string_eq analysis_id cost h.seen,
)

-- What one run of the script did, by the status that it returned.
abbrev pub Ran : Limits → String → ℕ → String → Hash → Reply × Hash → Type 0
Ran limits analysis_id cost analysis_class h (r, h') =
    ((r.status ≡ 0)
      × (h' ≡ h)
      × (limits.max_budget
          < h.consumed
            + cost
            + (if str_eq analysis_class "PERIODIC" then limits.reserved_budget else 0)))
    ⊎ ((r.status ≡ 1) × (h' ≡ h) × (lookup string_eq analysis_id h.seen ≡ some r.charged))
    ⊎ ((r.status ≡ 2)
        × (r.consumed ≡ h.consumed + cost)
        × (h'.consumed ≡ h.consumed + cost)
        × (lookup string_eq analysis_id h.seen ≡ none)
        × (lookup string_eq analysis_id h'.seen ≡ some cost)
        × (r.consumed + (if str_eq analysis_class "PERIODIC" then limits.reserved_budget else 0)
            ≤ limits.max_budget))

-- Every branch of the script, while the epoch has a second left: a refusal (0) leaves the hash alone
-- and means that the charge does not fit in the budget, less the reserve for a periodic analysis; a
-- known analysis (1) is charged nothing more; a new one (2) is charged its cost, remembered, and
-- leaves the reserve whole if it is periodic.
pub run_script-Ran :
    (limits : Limits) (ttl : ℕ) (analysis_id : String) (cost : ℕ) (analysis_class : String)
    (h : Hash)
    → 0 < ttl
    → Ran limits analysis_id cost analysis_class h
        (run_script limits ttl analysis_id cost analysis_class h)
unfolding run_script set_expiry
run_script-Ran limits zero analysis_id cost analysis_class h left = absurd (omega arith)
run_script-Ran limits (suc ttl) analysis_id cost analysis_class h left = ground (
  arith,
  refuses-eq limits analysis_class cost h.consumed,
  lookup-insert_self string_eq analysis_id cost h.seen,
)

-- Asking twice: an analysis that was granted is granted again under any cost and class, is charged
-- what it was charged the first time, and changes nothing, while the epoch has a second left.
pub run_script_again :
    (limits : Limits) (ttl ttl' : ℕ) (analysis_id : String) (cost cost' : ℕ)
    (analysis_class analysis_class' : String) (h : Hash)
    → 0 < ttl
    → (run_script limits ttl analysis_id cost analysis_class h).0.status ≢ 0
    → let (r, h') = run_script limits ttl analysis_id cost analysis_class h in
      let (r', h'') = run_script limits ttl' analysis_id cost' analysis_class' h' in
      (r'.status ≡ 1) × (r'.charged ≡ r.charged) × (r'.consumed ≡ h'.consumed) × (h'' ≡ h')
unfolding run_script set_expiry
run_script_again limits zero ttl' analysis_id cost cost' c c' h left granted = absurd (omega arith)
run_script_again limits (suc ttl) ttl' analysis_id cost cost' c c' h left granted =
    ground (arith, lookup-insert_self string_eq analysis_id cost h.seen)

-- The current time lies in the epoch, and the seconds to the next one are at most an epoch; they
-- round down to zero exactly when less than a second is left.
pub get_epoch_bounds :
    (epoch_hours now : ℕ)
    → 0 < epoch_hours
    → let (epoch_id, ttl) = get_epoch epoch_hours now in
      let length = epoch_hours * 3600 * 1_000_000 in
      (epoch_id * length ≤ now)
      × (now < (epoch_id + 1) * length)
      × (ttl ≤ epoch_hours * 3600)
      × ((ttl ≡ 0) ↔ ((epoch_id + 1) * length < now + 1_000_000))
unfolding get_epoch
get_epoch_bounds epoch_hours now some_hours = omega arith

-- A first charge in the last second of an epoch (when `get_epoch` rounds the time left down to zero)
-- is granted and deleted at once: the hash is left empty.
pub last_second_forgets :
    (limits : Limits) (analysis_id : String) (cost : ℕ) (analysis_class : String)
    → refuses limits analysis_class cost 0 ≡ false
    → let (r, h) = run_script limits 0 analysis_id cost analysis_class no_hash in
      (r.status ≡ 2) × (r.charged ≡ cost) × (h ≡ no_hash)
unfolding run_script set_expiry
last_second_forgets limits analysis_id cost analysis_class fits = ground arith
