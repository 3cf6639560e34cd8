-- ===== src/Bundle/Spread.antt =====
-- Properties of a value to which a property is added.
use zkstellar.Prelude.{◌≡◌, refl, ◌∙◌, true, false, Bool-cases, inl, inr, if◌then◌else◌}
use zkstellar.Js.{Js, Fields, field, end, prop, field_of}
use zkstellar.Bundle.{set_field, with_field, fields_of}
use Prim.Native.String.{String}
use zkstellar.Text.{Text, codes, text_eq}
use zkstellar.Text.Equality.{text_eq_iff}

field_of-set_field :
    (fs : Fields) (k j : Text) (v : Js)
    → field_of (set_field fs k v) j ≡ (if text_eq k j then v else field_of fs j)
unfolding set_field
field_of-set_field end k j v = refl
field_of-set_field (field i u fs) k j v = elim (Bool-cases (text_eq i k)) [
  | inl same ↦
      let e : i ≡ k = (text_eq_iff i k).0 same in
      elim (Bool-cases (text_eq k j)) [
        | inl hit ↦ let ij : text_eq i j ≡ true = rw e hit in rw (same, hit, ij)
        | inr miss ↦ let ij : text_eq i j ≡ false = rw e miss in rw (same, miss, ij)
      ]
  | inr differ ↦ elim (Bool-cases (text_eq k j)) [
    | inl hit ↦
        let e : k ≡ j = (text_eq_iff k j).0 hit in
        let ij : text_eq i j ≡ false = rw (← e) differ in
        rw (differ, hit) (rw ij (field_of-set_field fs k j v ∙ rw hit))
    | inr miss ↦ rw (differ, miss) (rw (field_of-set_field fs k j v, miss))
  ]
]

prop-fields_of : (value : Js) (k : String) → prop value k ≡ field_of (fields_of value) (codes k)
prop-fields_of (Js.object fs) k = refl
prop-fields_of Js.undefined k = refl
prop-fields_of _ k = refl

prop-with_field :
    (value : Js) (k j : String) (v : Js)
    → prop (with_field value k v) j ≡ (if text_eq (codes k) (codes j) then v else prop value j)
prop-with_field value k j v =
    field_of-set_field (fields_of value) (codes k) (codes j) v ∙ rw (prop-fields_of value j)

pub prop-with_field_same : (value : Js) (k : String) (v : Js) → prop (with_field value k v) k ≡ v
prop-with_field_same value k v =
    prop-with_field value k k v ∙ rw ((text_eq_iff (codes k) (codes k)).1 refl)

pub prop-with_field_other :
    (value : Js) (k j : String) (v : Js)
    → text_eq (codes k) (codes j) ≡ false
    → prop (with_field value k v) j ≡ prop value j
prop-with_field_other value k j v h = prop-with_field value k j v ∙ rw h
