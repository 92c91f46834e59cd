-- ===== src/Ledger/Guard.antt =====
-- The listeners `receive_before_update` and `receive_before_delete` of `AuditBlock`
-- (backend/app/database/models.py): the table is append-only.
use reserach.Base.{
  ◌≡◌, refl, ◌↔◌, Bool, true, false, String, Option, none, some, List, [], ◌∷◌, one_of, All,
  if◌then◌else◌, Bool-cases, inl, inr,
}

-- The columns that anchoring may fill in.
abbrev pub allowed_fields : List String
allowed_fields =
    "blockchain_network_id" ∷ "blockchain_contract_address" ∷ "blockchain_transaction_hash"
    ∷ "blockchain_block_number" ∷ "blockchain_block_hash" ∷ "blockchain_status" ∷ "anchor_timestamp"
    ∷ []

-- `for attr in state.attrs`, each with `attr.history.has_changes()`: the column at which the
-- listener raises, if any.
unfoldable pub receive_before_update : List (String × Bool) → Option String
receive_before_update [] = none
receive_before_update ((key, has_changes) ∷ attrs) =
    if has_changes
    then (if one_of key allowed_fields then receive_before_update attrs else some key)
    else receive_before_update attrs

abbrev pub IsAllowed : String × Bool → Type 0
IsAllowed (key, has_changes) = has_changes ≡ true → one_of key allowed_fields ≡ true

receive_before_update→All :
    (attrs : List (String × Bool)) → receive_before_update attrs ≡ none → All IsAllowed attrs
unfolding receive_before_update
receive_before_update→All [] h = tt
receive_before_update→All ((key, false) ∷ attrs) h =
    (λ changed. absurd (cc), receive_before_update→All attrs h)
receive_before_update→All ((key, true) ∷ attrs) h = elim (Bool-cases (one_of key allowed_fields)) [
  | inl fine ↦ (λ _. fine, receive_before_update→All attrs (rw fine at h))
  | inr bad ↦ absurd (cc (rw bad at h))
]

All→receive_before_update :
    (attrs : List (String × Bool)) → All IsAllowed attrs → receive_before_update attrs ≡ none
unfolding receive_before_update
All→receive_before_update [] h = refl
All→receive_before_update ((key, false) ∷ attrs) h = All→receive_before_update attrs h.1
All→receive_before_update ((key, true) ∷ attrs) h =
    rw (h.0 refl) (All→receive_before_update attrs h.1)

-- An update goes through exactly when each column that it changes is one of the seven blockchain
-- columns.
pub receive_before_update_iff :
    (attrs : List (String × Bool)) → (receive_before_update attrs ≡ none) ↔ All IsAllowed attrs
receive_before_update_iff attrs = (receive_before_update→All attrs, All→receive_before_update attrs)
