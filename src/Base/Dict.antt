-- ===== src/Base/Dict.antt =====
-- Python's `dict` as an association list in insertion order; the equality test of the keys is given.
use reserach.Base.Tests.{Eq, if◌then◌else◌, Bool-cases, some_inj, beq_refl, beq→eq}
use Prim.Native.Nat.{suc}
use mathlib.Core.Path.{◌≡◌, refl, ap, subst, subst⁻¹}
use mathlib.Core.Logic.{inl, inr}
use mathlib.Core.Bool.{false}
use mathlib.Core.Option.{Option, none, some}
use mathlib.Core.List.{List, [], ◌∷◌}
use native.Mathlib.Omega.{arith}
use reserach.Base.Lists.{length, All}

abbrev pub Dict {ℓ κ} : Type ℓ → Type κ → Type (ℓ ⊔ κ)
Dict K V = List (K × V)

module _ {ℓ κ} {K : Type ℓ} {V : Type κ} (e : Eq K) where
  -- `d.get(k)`
  abbrev pub lookup : K → Dict K V → Option V
  lookup k [] = none
  lookup k ((j, v) ∷ d) = if e.beq k j then some v else lookup k d

  -- `d[k] = v`
  abbrev pub insert : K → V → Dict K V → Dict K V
  insert k v [] = (k, v) ∷ []
  insert k v ((j, w) ∷ d) = if e.beq k j then (j, v) ∷ d else (j, w) ∷ insert k v d

  pub lookup-insert_self : (k : K) (v : V) (d : Dict K V) → lookup k (insert k v d) ≡ some v
  lookup-insert_self k v [] = rw (beq_refl e k)
  lookup-insert_self k v ((j, w) ∷ d) = elim (Bool-cases (e.beq k j)) [
    | inl same ↦ rw same (rw same)
    | inr differ ↦ rw differ (rw differ (lookup-insert_self k v d))
  ]

  pub lookup-insert_ne :
      (j k : K) (v : V) (d : Dict K V) → e.beq j k ≡ false → lookup j (insert k v d) ≡ lookup j d
  lookup-insert_ne j k v [] h = rw h
  lookup-insert_ne j k v ((i, w) ∷ d) h = elim (Bool-cases (e.beq k i)) [
    | inl same ↦ let other = rw (beq→eq e k i same) at h in rw same (rw other)
    | inr differ ↦
        rw differ
          (ap (λ (o : Option V). if e.beq j i then some w else o) (lookup-insert_ne j k v d h))
  ]

  pub length-insert_new :
      (k : K) (v : V) (d : Dict K V) → lookup k d ≡ none → length (insert k v d) ≡ suc (length d)
  length-insert_new k v [] h = refl
  length-insert_new k v ((j, w) ∷ d) h = ground (arith, length-insert_new k v d)

  pub length-insert_old :
      (k : K) (v u : V) (d : Dict K V) → lookup k d ≡ some u → length (insert k v d) ≡ length d
  length-insert_old k v u [] h = absurd (cc)
  length-insert_old k v u ((j, w) ∷ d) h = ground (arith, length-insert_old k v u d)

  pub All-insert {μ} :
      (P : K × V → Type μ) (k : K) (v : V) (d : Dict K V)
      → P (k, v)
      → All P d
      → All P (insert k v d)
  All-insert P k v [] h hs = (h, tt)
  All-insert P k v ((j, w) ∷ d) h hs = elim (Bool-cases (e.beq k j)) [
    | inl same ↦ rw same ((subst (λ (i : K). P (i, v)) (beq→eq e k j same) h, hs.1))
    | inr differ ↦ rw differ ((hs.0, All-insert P k v d h hs.1))
  ]

  pub All-lookup {μ} :
      (P : K × V → Type μ) (k : K) (v : V) (d : Dict K V) → lookup k d ≡ some v → All P d → P (k, v)
  All-lookup P k v [] h hs = absurd (cc)
  All-lookup P k v ((j, w) ∷ d) h hs = elim (Bool-cases (e.beq k j)) [
    | inl same ↦
        subst⁻¹ (λ (i : K). P (i, v)) (beq→eq e k j same)
          (subst (λ (u : V). P (j, u)) (some_inj (rw same at h)) hs.0)
    | inr differ ↦ All-lookup P k v d (rw differ at h) hs.1
  ]
