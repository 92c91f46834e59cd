-- ===== src/Ledger/Symbolic.antt =====
-- A symbolic hash, which is its own preimage and so free of collisions: it shows that what the
-- ledger's theorems assume of SHA-256 can hold, and runs in tests.
use text.Mathlib.Text.{◌==◌ as text_beq}
use text.Mathlib.TextEquality.{eq_iff}
use mathlib.Core.Path.{subst}
use reserach.Base.{ℕ, ◌≡◌, refl, ◌↔◌, Bool, true, false, String, ◌&&◌, arith, ◌==◌}
use reserach.Ledger.{Sha, Preimage, CollisionFree}

pub data Code : Type 0 where
  zeros : Code
  canonical : String → String → Code → ℕ → Code
  joined : Code → String → Code

unfoldable pub code_beq : Code → Code → Bool
code_beq zeros zeros = true
code_beq (canonical d e p t) (canonical d' e' p' t') =
    text_beq d d' && text_beq e e' && code_beq p p' && t == t'
code_beq (joined p r) (joined p' r') = code_beq p p' && text_beq r r'
code_beq _ _ = false

code_beq_sound : (a b : Code) → code_beq a b ≡ true → a ≡ b
unfolding code_beq
code_beq_sound zeros zeros h = refl
code_beq_sound (canonical d e p t) (canonical d' e' p' t') h =
    ground (arith, eq_iff d d', eq_iff e e', code_beq_sound p p')
code_beq_sound (joined p r) (joined p' r') h = ground (arith, eq_iff r r', code_beq_sound p p')
code_beq_sound _ _ h = absurd (cc)

code_beq_refl : (a : Code) → code_beq a a ≡ true
unfolding code_beq
code_beq_refl zeros = refl
code_beq_refl (canonical d e p t) = ground (arith, eq_iff d d, eq_iff e e, code_beq_refl p)
code_beq_refl (joined p r) = ground (arith, eq_iff r r, code_beq_refl p)

pub code_beq_iff : (a b : Code) → (code_beq a b ≡ true) ↔ (a ≡ b)
code_beq_iff a b = (code_beq_sound a b, λ e. subst (λ x. code_beq a x ≡ true) e (code_beq_refl a))

abbrev pub encode : Preimage Code → Code
encode (Preimage.canonical d e p t) = canonical d e p t
encode (Preimage.joined p r) = joined p r

abbrev pub symbolic : Sha Code
symbolic = record {
  eq = record { beq = code_beq; beq_iff = code_beq_iff };
  zeros = zeros;
  sha256 = encode;
}

pub symbolic-CollisionFree : CollisionFree symbolic
symbolic-CollisionFree (Preimage.canonical d e p t) (Preimage.canonical d' e' p' t') h = cc
symbolic-CollisionFree (Preimage.canonical d e p t) (Preimage.joined p' r') h = absurd (cc)
symbolic-CollisionFree (Preimage.joined p r) (Preimage.canonical d' e' p' t') h = absurd (cc)
symbolic-CollisionFree (Preimage.joined p r) (Preimage.joined p' r') h = cc
