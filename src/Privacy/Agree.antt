-- ===== src/Privacy/Agree.antt =====
-- The in-memory fallback is the script: from the same budget the two give the same answer and keep
-- the same budget.
use reserach.Base.{
  ℕ, zero, suc, ◌<◌, ◌≡◌, Bool, true, false, String, Option, none, some, [], ◌∷◌, arith, string_eq,
  str_eq, one_of, if◌then◌else◌,
}
use text.Mathlib.TextEquality.{eq_iff}
use reserach.Base.Dict.{Dict, lookup, insert}
use reserach.Privacy.{Limits}
use reserach.Privacy.Budget.{is_exhausted-refuses}
use reserach.Privacy.Script.{Hash, set_expiry, run_script}
use reserach.Privacy.Local.{Entry, in_memory_consume, read_reply}

abbrev pub is_some : Option ℕ → Bool
is_some none = false
is_some (some _) = true

-- The two stores hold the same budget.
pub record SameBudget (h : Hash) (b : Entry) : Type 0 where
  pub consumed : h.consumed ≡ b.consumed
  pub seen : (k : String) → one_of k b.seen ≡ is_some (lookup string_eq k h.seen)

is_some-insert :
    (k j : String) (v : ℕ) (d : Dict String ℕ)
    → is_some (lookup string_eq k (insert string_eq j v d))
      ≡ (if str_eq k j then true else is_some (lookup string_eq k d))
is_some-insert k j v [] = ground arith
is_some-insert k j v ((i, w) ∷ d) =
    ground (arith, eq_iff k j, eq_iff j i, eq_iff k i, is_some-insert k j v d)

-- While the epoch has a second left, a charge gives the same answer (the same remaining budget, or the
-- same exception with it) whether Redis or the in-memory fallback makes it, and the two budgets stay
-- the same.
pub in_memory_consume-run_script :
    (limits : Limits) (ttl : ℕ) (analysis_id : String) (cost : ℕ) (analysis_class : String)
    (h : Hash) (b : Entry)
    → 0 < ttl
    → SameBudget h b
    → let (reply, h') = run_script limits ttl analysis_id cost analysis_class h in
      let (result, b') = in_memory_consume limits analysis_id cost analysis_class b in
      (read_reply limits reply ≡ result) × SameBudget h' b'
unfolding run_script set_expiry in_memory_consume read_reply
in_memory_consume-run_script limits zero id cost cls h b left s = absurd (omega arith)
in_memory_consume-run_script limits (suc ttl) id cost cls h b left s = (
  ground (arith, s.seen id, s.consumed, is_exhausted-refuses limits cls cost b.consumed),
  record {
    consumed =
        ground (arith, s.seen id, s.consumed, is_exhausted-refuses limits cls cost b.consumed);
    seen = λ k. ground (
      arith,
      s.seen k,
      s.seen id,
      s.consumed,
      is_exhausted-refuses limits cls cost b.consumed,
      is_some-insert k id cost h.seen,
    );
  },
)
