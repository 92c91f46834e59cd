-- ===== src/Privacy/Accountant.antt =====
-- `consume_budget`: the choice between Redis and the in-memory fallback. What Redis answers is a
-- parameter: whether it can be reached in this call.
use reserach.Base.{
  ℕ, zero, suc, ◌/◌, ◌≤◌, ◌≡◌, ◌≢◌, Bool, true, false, ◌&&◌, String, Option, none, some, arith, Eq,
  ◌==◌, str_eq, if◌then◌else◌, Bool-cases, beq→eq, inl, inr,
}
use text.Mathlib.TextEquality.{eq_iff}
use reserach.Base.Int.{ℤ, pos, pos_part, ◌-ℤ◌, ltb_ℤ}
use reserach.Base.Dict.{Dict, lookup, insert, lookup-insert_self, lookup-insert_ne}
use reserach.Privacy.{Key, Limits, refuses, get_epoch}
use reserach.Privacy.Script.{Hash, no_hash, run_script, set_expiry}
use reserach.Privacy.Budget.{refuses-eq, is_exhausted-refuses}
use reserach.Privacy.Local.{
  Entry, new_entry, Result, remaining, configuration_error, accountant_unavailable,
  in_memory_consume, read_reply,
}

unfoldable pub key_beq : Key → Key → Bool
key_beq a b = str_eq a.user_id b.user_id && a.epoch == b.epoch

pub key_beq_sound : (a b : Key) → key_beq a b ≡ true → a ≡ b
unfolding key_beq
key_beq_sound a b h = ground (arith, eq_iff a.user_id b.user_id)

pub key_beq_complete : (a b : Key) → a ≡ b → key_beq a b ≡ true
unfolding key_beq
key_beq_complete a b h = ground (arith, eq_iff a.user_id b.user_id)

abbrev pub key_eq : Eq Key
key_eq = record { beq = key_beq; beq_iff = λ a b. (key_beq_sound a b, key_beq_complete a b) }

-- The class variables of `PrivacyBudgetAccountant`, and the store behind Redis.
pub record Accountant : Type 0 where
  pub redis_available : Bool
  pub local_budget : Dict Key Entry
  pub redis : Dict Key Hash

abbrev pub or_else {ℓ} : {A : Type ℓ} → A → Option A → A
or_else a none = a
or_else _ (some b) = b

abbrev pub hash_of : Key → Accountant → Hash
hash_of key a = or_else no_hash (lookup key_eq key a.redis)

abbrev pub entry_of : Key → Accountant → Entry
entry_of key a = or_else new_entry (lookup key_eq key a.local_budget)

-- `int(epsilon * scale)` for an epsilon in billionths, without the rounding of the float product; a
-- positive epsilon is no negative integer.
unfoldable pub cost_int : ℤ → ℕ
cost_int epsilon = pos_part epsilon / 1000

-- The `except redis.RedisError` branch: Redis is given up for good.
unfoldable pub fall_back : Limits → Key → String → ℕ → String → Accountant → Result × Accountant
unfolding in_memory_consume
fall_back limits key analysis_id cost analysis_class a =
    let (result, b) = in_memory_consume limits analysis_id cost analysis_class (entry_of key a) in
    (
      result,
      record a { redis_available = false; local_budget = insert key_eq key b a.local_budget },
    )

unfoldable pub evaluate : Limits → ℕ → Key → String → ℕ → String → Accountant → Result × Accountant
evaluate limits ttl key analysis_id cost analysis_class a =
    let (reply, h) = run_script limits ttl analysis_id cost analysis_class (hash_of key a) in
    (read_reply limits reply, record a { redis = insert key_eq key h a.redis })

unfoldable pub consume_budget :
    Limits → ℕ → ℕ → Bool → String → ℤ → String → String → Accountant → Result × Accountant
consume_budget limits epoch_hours now redis_reachable user_id epsilon analysis_id analysis_class a =
    if ltb_ℤ (pos 0) epsilon
    then (let (epoch, ttl) = get_epoch epoch_hours now in
        let key : Key = record { user_id = user_id; epoch = epoch } in
        if a.redis_available && redis_reachable
        then evaluate limits ttl key analysis_id (cost_int epsilon) analysis_class a
        else fall_back limits key analysis_id (cost_int epsilon) analysis_class a)
    else (configuration_error, a)

-- The settings name a policy for an unreachable accountant, `fail_closed` by default, and
-- `AIService` handles `DPAccountantUnavailable`; no call of `consume_budget` raises it.
pub consume_budget-ne-unavailable :
    (limits : Limits) (epoch_hours now : ℕ) (redis_reachable : Bool) (user_id : String)
    (epsilon : ℤ) (analysis_id analysis_class : String) (a : Accountant)
    → (consume_budget limits epoch_hours now redis_reachable user_id epsilon analysis_id
        analysis_class a).0
      ≢ accountant_unavailable
unfolding consume_budget evaluate fall_back read_reply
consume_budget-ne-unavailable limits epoch_hours now up user_id epsilon analysis_id cls a =
    ground arith

-- When Redis cannot be reached, a user with no in-memory entry for this epoch has the whole budget
-- again: a charge that fits in an untouched budget is granted, whatever Redis had recorded, and Redis
-- is not asked again by later calls.
pub failover_forgets :
    (limits : Limits) (epoch_hours now : ℕ) (user_id : String) (epsilon : ℤ)
    (analysis_id analysis_class : String) (a : Accountant)
    → ltb_ℤ (pos 0) epsilon ≡ true
    → lookup key_eq
        (record { user_id = user_id; epoch = (get_epoch epoch_hours now).0 })
        a.local_budget
      ≡ none
    → refuses limits analysis_class (cost_int epsilon) 0 ≡ false
    → let (result, a') =
        consume_budget limits epoch_hours now false user_id epsilon analysis_id analysis_class a in
      (result ≡ remaining (pos limits.max_budget -ℤ pos (cost_int epsilon)))
      × (a'.redis_available ≡ false)
      × (a'.redis ≡ a.redis)
unfolding consume_budget fall_back
failover_forgets limits epoch_hours now user_id epsilon analysis_id cls a positive unseen fits =
    ground (arith, unseen, is_exhausted-refuses limits cls (cost_int epsilon) 0)

-- No budget is overdrawn, in either store.
abbrev pub IsWithin : Limits → Accountant → Type 0
IsWithin limits a =
    (key : Key)
    → ((hash_of key a).consumed ≤ limits.max_budget)
      × ((entry_of key a).consumed ≤ limits.max_budget)

run_script-within :
    (limits : Limits) (ttl : ℕ) (id : String) (cost : ℕ) (cls : String) (h : Hash)
    → h.consumed ≤ limits.max_budget
    → (run_script limits ttl id cost cls h).1.consumed ≤ limits.max_budget
unfolding run_script set_expiry
run_script-within limits zero id cost cls h s =
    ground (arith, refuses-eq limits cls cost h.consumed)
run_script-within limits (suc ttl) id cost cls h s =
    ground (arith, refuses-eq limits cls cost h.consumed)

in_memory_consume-within :
    (limits : Limits) (id : String) (cost : ℕ) (cls : String) (b : Entry)
    → b.consumed ≤ limits.max_budget
    → (in_memory_consume limits id cost cls b).1.consumed ≤ limits.max_budget
unfolding in_memory_consume
in_memory_consume-within limits id cost cls b s =
    ground (
      arith,
      is_exhausted-refuses limits cls cost b.consumed,
      refuses-eq limits cls cost b.consumed,
    )

evaluate-IsWithin :
    (limits : Limits) (ttl : ℕ) (key : Key) (id : String) (cost : ℕ) (cls : String) (a : Accountant)
    → IsWithin limits a
    → IsWithin limits (evaluate limits ttl key id cost cls a).1
unfolding evaluate
evaluate-IsWithin limits ttl key id cost cls a s j =
    let h' = (run_script limits ttl id cost cls (hash_of key a)).1 in
    elim (Bool-cases (key_eq.beq j key)) [
      | inl same ↦ rw (beq→eq key_eq j key same) (
        rw (lookup-insert_self key_eq key h' a.redis)
            (run_script-within limits ttl id cost cls (hash_of key a) (s key).0),
        (s key).1,
      )
      | inr differ ↦ (rw (lookup-insert_ne key_eq j key h' a.redis differ) (s j).0, (s j).1)
    ]

fall_back-IsWithin :
    (limits : Limits) (key : Key) (id : String) (cost : ℕ) (cls : String) (a : Accountant)
    → IsWithin limits a
    → IsWithin limits (fall_back limits key id cost cls a).1
unfolding fall_back
fall_back-IsWithin limits key id cost cls a s j =
    let b' = (in_memory_consume limits id cost cls (entry_of key a)).1 in
    let bound = in_memory_consume-within limits id cost cls (entry_of key a) (s key).1 in
    elim (Bool-cases (key_eq.beq j key)) [
      | inl same ↦
          rw (beq→eq key_eq j key same)
            ((s key).0, rw (lookup-insert_self key_eq key b' a.local_budget) bound)
      | inr differ ↦ ((s j).0, rw (lookup-insert_ne key_eq j key b' a.local_budget differ) (s j).1)
    ]

-- Every call of `consume_budget`, by whichever store, for any user, time and class, keeps every
-- user's recorded consumption within the budget of each epoch, in Redis and in memory.
pub consume_budget-IsWithin :
    (limits : Limits) (epoch_hours now : ℕ) (redis_reachable : Bool) (user_id : String)
    (epsilon : ℤ) (analysis_id analysis_class : String) (a : Accountant)
    → IsWithin limits a
    → IsWithin limits
        (consume_budget limits epoch_hours now redis_reachable user_id epsilon analysis_id
          analysis_class a).1
unfolding consume_budget
consume_budget-IsWithin limits epoch_hours now up user_id epsilon id cls a s =
    elim (Bool-cases (ltb_ℤ (pos 0) epsilon)) [
      | inr refused ↦ rw refused s
      | inl positive ↦ elim (Bool-cases (a.redis_available && up)) [
        | inl reach ↦ rw positive (rw reach (evaluate-IsWithin limits _ _ id _ cls a s))
        | inr down ↦ rw positive (rw down (fall_back-IsWithin limits _ id _ cls a s))
      ]
    ]
