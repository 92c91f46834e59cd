-- ===== src/Quarantine/Items.antt =====
-- The rows and the files after each operation.
use reserach.Base.{
  ℕ, ◌≡◌, refl, String, none, some, List, [], ◌∷◌, nat_eq, arith, Option-cases, inl, inr,
}
use mathlib.Core.Option
use reserach.Base.Dict.{Dict, lookup}
use reserach.Base.Float.{Float}
use reserach.Malware.{Bytes}
use reserach.Quarantine.{
  QuarantineItem, World, file_not_found, done_delete, deleted, get_item, save_item,
}
use reserach.Quarantine.Service.{
  Item, State, load_from_quarantine, delete_from_quarantine, rescan_item, release_item, delete_item,
  log_audit_event,
}

module _ {Score Digest : Type 0} where
  get_item-id :
      (k : ℕ) (items : List (QuarantineItem Score Digest)) (item : QuarantineItem Score Digest)
      → get_item k items ≡ some item
      → item.id ≡ k
  unfolding get_item
  get_item-id k [] item h = absurd (cc)
  get_item-id k (row ∷ rows) item h = ground (arith, get_item-id k rows item)

  get_item-save_item :
      (k : ℕ) (items : List (QuarantineItem Score Digest)) (item old : QuarantineItem Score Digest)
      → item.id ≡ k
      → get_item k items ≡ some old
      → get_item k (save_item item items) ≡ some item
  unfolding get_item save_item
  get_item-save_item k [] item old e h = absurd (cc)
  get_item-save_item k (row ∷ rows) item old e h =
      ground (arith, get_item-save_item k rows item old e)

lookup-delete :
    (k : ℕ) (files : Dict ℕ Bytes) → lookup nat_eq k (delete_from_quarantine k files) ≡ none
unfolding delete_from_quarantine
lookup-delete k [] = refl
lookup-delete k ((j, bytes) ∷ files) = ground (arith, lookup-delete k files)

module _ (f : Float) {Digest : Type 0} (w : World f Digest) where
  -- A deleted item stays in the table as deleted, but its file is gone: a later rescan or release of it
  -- raises `FileNotFoundError` and changes nothing.
  pub delete_item_gone :
      (now later item_id : ℕ) (admin other : String) (q : State f w)
      → (delete_item f w now item_id admin q).0 ≡ done_delete
      → let after = (delete_item f w now item_id admin q).1 in
        (Option.map (λ (item : Item f w). item.quarantine_status) (get_item item_id after.items)
          ≡ some deleted)
        × (rescan_item f w later item_id other after ≡ (file_not_found, after))
        × (release_item f w later item_id other after ≡ (file_not_found, after))
  unfolding delete_item rescan_item release_item log_audit_event load_from_quarantine
  delete_item_gone now later item_id admin other q h =
      elim (Option-cases (get_item item_id q.items)) [
        | inl missing ↦ absurd (ground arith)
        | inr (item, found) ↦
            let row = record item { quarantine_status = deleted; deleted_at = some now } in
            let saved =
              get_item-save_item item_id q.items row item (get_item-id item_id q.items item found)
                found in
            let gone = lookup-delete item.safe_identifier q.files in
            ground (arith, found, saved, gone)
      ]
