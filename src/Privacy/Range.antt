-- ===== src/Privacy/Range.antt =====
-- What leaves the privacy pipeline stays in the declared domain of each feature, whatever the noise.
use reserach.Base.{
  ◌*◌, ◌≤◌, ◌≡◌, sym, ap, ◌∙◌, some_inj, true, false, ◌||◌, String, Option, none, some, List, [],
  ◌∷◌, string_eq, arith, Bool-cases, Option-cases, inl, inr, All, str_eq, leb, le→leb,
}
use mathlib.Core.Path.{subst}
use mathlib.Core.Option
use reserach.Base.Dict.{lookup, insert, lookup-insert_self, lookup-insert_ne}
use reserach.Base.Float.{Float, fmin, le-fmax_left, fmax-le, fmin-le_right}
use reserach.Base.Int.{ℤ}
use reserach.Privacy.Local.{Result, remaining}
use reserach.Privacy.{Limits}
use reserach.Privacy.Accountant.{Accountant}
use reserach.Privacy.Features.{
  Real, DpFeaturePolicy, dp_feature_policy, Value, Features, whole, clamp, note, privatize_value,
  protect_all, log_raises, add_noise, privatize_features, Call, done, DpResult, pack, respond,
  unprotected,
}

module _ (f : Float) (r : Real f) where
  open f use {F, lit, le, le-lit}

  -- A number in the domain of a feature.
  abbrev pub InDomain : DpFeaturePolicy → F → Type 0
  InDomain p x = (le (whole f p.lower_bound) x ≡ true) × (le x (whole f p.upper_bound) ≡ true)

  abbrev IsDomain : DpFeaturePolicy → Type 0
  IsDomain p = p.lower_bound ≤ p.upper_bound

  clamp-InDomain : (p : DpFeaturePolicy) (x : F) → IsDomain p → InDomain p (clamp f r p x)
  unfolding clamp
  clamp-InDomain p x h = (
    le-fmax_left f (whole f p.lower_bound) (fmin f x (whole f p.upper_bound)),
    fmax-le f (whole f p.lower_bound) (fmin f x (whole f p.upper_bound)) (whole f p.upper_bound)
        (le-lit (p.lower_bound * 10000) (p.upper_bound * 10000) ∙ ordered)
        (fmin-le_right f x (whole f p.upper_bound)),
  )
    where
      ordered : leb (p.lower_bound * 10000) (p.upper_bound * 10000) ≡ true
      ordered = le→leb _ _ (omega arith)

  privatize_value-InDomain :
      (epsilon u : F) (p : DpFeaturePolicy) (v : Value f)
      → IsDomain p
      → InDomain p (privatize_value f r epsilon p u v).number
  unfolding privatize_value
  privatize_value-InDomain epsilon u p v h =
      let noisy = add_noise f r epsilon (whole f p.sensitivity) u (clamp f r p v.number) in
      let bounds = clamp-InDomain p noisy h in
      elim (Bool-cases v.is_int) [
        | inl int ↦
            rw int (r.round_above p.lower_bound _ bounds.0, r.round_below p.upper_bound _ bounds.1)
        | inr real ↦ rw real bounds
      ]

  -- The feature of this name, if there is one, lies in its domain.
  abbrev pub HasDomain : Features f → String × DpFeaturePolicy → Type 0
  HasDomain features (name, policy) =
      (v : Value f) → lookup string_eq name features ≡ some v → InDomain policy v.number

  abbrev Other : String → String × DpFeaturePolicy → Type 0
  Other j (name, policy) = str_eq j name ≡ false

  -- A table of features under different names, each with a domain that is not empty.
  abbrev IsTable : List (String × DpFeaturePolicy) → Type 0
  IsTable [] = Unit
  IsTable ((name, policy) ∷ policies) =
      IsDomain policy × All (Other name) policies × IsTable policies

  -- What the loop makes of the first feature of the table.
  abbrev replaced : F → (String → F) → String → DpFeaturePolicy → Value f → Features f → Features f
  replaced epsilon draw name policy v features =
      insert string_eq name (privatize_value f r epsilon policy (draw name) v) features

  map-note :
      (name : String) (o : Option (Features f × List String)) (out : Features f)
      (names : List String)
      → Option.map (note f name) o ≡ some (out, names)
      → (ns : List String) × (o ≡ some (out, ns))
  map-note name none out names h = absurd (cc)
  map-note name (some (fs, ns)) out names h = (ns, cc)

  -- The loop, where the feature is there, goes on from the table with that feature replaced.
  protect_all-some :
      (epsilon : F) (draw : String → F) (name : String) (policy : DpFeaturePolicy)
      (policies : List (String × DpFeaturePolicy)) (features out : Features f) (names : List String)
      (v : Value f)
      → lookup string_eq name features ≡ some v
      → protect_all f r epsilon draw ((name, policy) ∷ policies) features ≡ some (out, names)
      → (ns : List String) × (protect_all f r epsilon draw policies
            (replaced epsilon draw name policy v features)
          ≡ some (out, ns))
  unfolding protect_all
  protect_all-some epsilon draw name policy policies features out names v found h =
      elim (Bool-cases (le epsilon (whole f 0) || log_raises f r (draw name))) [
        | inl bad ↦ absurd (cc (rw (found, protect_all) at h, bad))
        | inr fine ↦
            map-note name
              (protect_all f r epsilon draw policies (replaced epsilon draw name policy v features))
              out names (rw fine at (rw (found, protect_all) at h))
      ]

  protect_all-none :
      (epsilon : F) (draw : String → F) (name : String) (policy : DpFeaturePolicy)
      (policies : List (String × DpFeaturePolicy)) (features : Features f)
      → lookup string_eq name features ≡ none
      → protect_all f r epsilon draw ((name, policy) ∷ policies) features
        ≡ protect_all f r epsilon draw policies features
  unfolding protect_all
  protect_all-none epsilon draw name policy policies features absent = rw (absent, protect_all)

  -- A feature that the table does not name is left alone.
  protect_all-others :
      (epsilon : F) (draw : String → F) (j : String) (policies : List (String × DpFeaturePolicy))
      (features out : Features f) (names : List String)
      → All (Other j) policies
      → protect_all f r epsilon draw policies features ≡ some (out, names)
      → lookup string_eq j out ≡ lookup string_eq j features
  unfolding protect_all
  protect_all-others epsilon draw j [] features out names o h =
      ap (λ (x : Features f). lookup string_eq j x) (ap (λ t. t.0) (some_inj (sym h)))
  protect_all-others epsilon draw j ((name, policy) ∷ policies) features out names o h =
      elim (Option-cases (lookup string_eq name features)) [
        | inl absent ↦
            protect_all-others epsilon draw j policies features out names o.1
              (sym (protect_all-none epsilon draw name policy policies features absent) ∙ h)
        | inr (v, found) ↦
            let (ns, rest) =
              protect_all-some epsilon draw name policy policies features out names v found h in
            protect_all-others epsilon draw j policies
              (replaced epsilon draw name policy v features) out ns o.1 rest
            ∙ lookup-insert_ne string_eq j name (privatize_value f r epsilon policy (draw name) v)
                features o.0
      ]

  protect_all-HasDomain :
      (epsilon : F) (draw : String → F) (policies : List (String × DpFeaturePolicy))
      (features out : Features f) (names : List String)
      → IsTable policies
      → protect_all f r epsilon draw policies features ≡ some (out, names)
      → All (HasDomain out) policies
  protect_all-HasDomain epsilon draw [] features out names t h = tt
  protect_all-HasDomain epsilon draw ((name, policy) ∷ policies) features out names t h =
      elim (Option-cases (lookup string_eq name features)) [
        | inl absent ↦
            let rest =
              sym (protect_all-none epsilon draw name policy policies features absent) ∙ h in
            (
              λ v here. absurd (
                  cc (
                    here,
                    protect_all-others epsilon draw name policies features out names t.1 rest,
                    absent,
                  )),
              protect_all-HasDomain epsilon draw policies features out names t.2 rest,
            )
        | inr (v, found) ↦
            let (ns, rest) =
              protect_all-some epsilon draw name policy policies features out names v found h in
            let next = replaced epsilon draw name policy v features in
            let kept = protect_all-others epsilon draw name policies next out ns t.1 rest in
            let fresh = privatize_value f r epsilon policy (draw name) v in
            (
              λ w here.
                  subst (λ x. InDomain policy (Value.number x))
                    (some_inj
                      (sym (lookup-insert_self string_eq name fresh features) ∙ sym kept ∙ here))
                    (privatize_value-InDomain epsilon (draw name) policy v t.0),
              protect_all-HasDomain epsilon draw policies next out ns t.2 rest,
            )
      ]

  validity_of_IsTable : IsTable dp_feature_policy
  validity_of_IsTable = ground arith

  pack-done :
      (c : Call f r) (budget : ℤ) (o : Option (Features f × List String)) (result : DpResult f r)
      → pack f r c budget o ≡ done result
      → (names : List String) × (o ≡ some (result.features, names))
  unfolding pack
  pack-done c budget none result h = absurd (cc)
  pack-done c budget (some (protected, names)) result h = (names, cc h)

  respond-done :
      (c : Call f r) (raw : Features f) (answer : Result) (result : DpResult f r)
      → respond f r c raw answer ≡ done result
      → All (HasDomain result.features) dp_feature_policy
  unfolding respond
  respond-done c raw (remaining budget) result h =
      let epsilon = r.div c.epsilon_per_analysis (whole f 6) in
      let (names, e) =
        pack-done c budget (protect_all f r epsilon c.draw dp_feature_policy raw) result h in
      protect_all-HasDomain epsilon c.draw dp_feature_policy raw result.features names
        validity_of_IsTable e
  respond-done c raw _ result h = absurd (cc)

  not_applied :
      (c : Call f r) (raw : Features f) (result : DpResult f r)
      → done (unprotected f r c raw) ≡ done result
      → ¬ (result.applied ≡ true)
  unfolding unprotected
  not_applied c raw result h applied = cc

  -- Whenever the privacy service returns features with noise applied, each of the six protected
  -- features that is present lies within the bounds of its policy, whatever the noise drawn, and also
  -- after the rounding of integer features.
  pub privatize_features-HasDomain :
      (limits : Limits) (c : Call f r) (raw : Features f) (a a' : Accountant)
      (result : DpResult f r)
      → privatize_features f r limits c raw a ≡ (done result, a')
      → result.applied ≡ true
      → All (HasDomain result.features) dp_feature_policy
  unfolding privatize_features respond pack unprotected
  privatize_features-HasDomain limits c raw a a' result h applied = elim (Bool-cases c.dp_enabled) [
    | inl on ↦ respond-done c raw _ result (ap (λ t. t.0) (rw (on, privatize_features) at h))
    | inr off ↦
        absurd
          (not_applied c raw result (ap (λ t. t.0) (rw (off, privatize_features) at h)) applied)
  ]
