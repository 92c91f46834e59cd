-- ===== src/Privacy/Script.antt =====
-- `_LUA_SCRIPT`: what Redis runs on the hash of one user and epoch.
use reserach.Base.{ℕ, zero, suc, ◌+◌, String, Option, none, some, [], string_eq, if◌then◌else◌}
use reserach.Base.Dict.{Dict, lookup, insert}
use reserach.Privacy.{Limits, refuses}

-- The hash `budget_key`: its fields `consumed`, `count` and `seen:<analysis_id>`, and its expiry.
pub record Hash : Type 0 where
  pub consumed : ℕ
  pub count : ℕ
  pub seen : Dict String ℕ
  pub ttl : Option ℕ

abbrev pub no_hash : Hash
no_hash = record { consumed = 0; count = 0; seen = []; ttl = none }

-- The three numbers that the script returns.
pub record Reply : Type 0 where
  pub status : ℕ
  pub charged : ℕ
  pub consumed : ℕ

-- `TTL` is -1 or -2 where no expiry is set; `EXPIRE` with zero seconds deletes the key at once.
unfoldable pub set_expiry : ℕ → Hash → Hash
set_expiry ttl h = elim h.ttl [
  | some _ ↦ h
  | none ↦ elim ttl [ zero ↦ no_hash | suc t ↦ record h { ttl = some (suc t) } ]
]

unfoldable pub run_script : Limits → ℕ → String → ℕ → String → Hash → Reply × Hash
run_script limits ttl analysis_id cost analysis_class h =
    elim (lookup string_eq analysis_id h.seen) [
      | some already_charged ↦
          (record { status = 1; charged = already_charged; consumed = h.consumed }, h)
      | none ↦
          if refuses limits analysis_class cost h.consumed
          then (record { status = 0; charged = 0; consumed = h.consumed }, h)
          else (
            record { status = 2; charged = cost; consumed = h.consumed + cost },
            set_expiry ttl (record h {
              consumed = h.consumed + cost;
              count = h.count + 1;
              seen = insert string_eq analysis_id cost h.seen;
            }),
          )
    ]
