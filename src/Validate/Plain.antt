-- ===== src/Validate/Plain.antt =====
-- Values whose text describeValue of sdk/src/validate.ts can always make.
use zkstellar.Prelude.{
  ℕ, suc, zero, ◌≡◌, refl, Bool, true, false, List, [], ◌∷◌, some, if◌then◌else◌, arith,
}
use zkstellar.Text.{Text, codes, text_eq}
use zkstellar.Js.{
  Js, Items, Fields, nil, item, end, field, elements, as_array, has_own, field_of, prop, element,
}
use zkstellar.Validate.{describes, all_describe}
use Prim.Native.String.{String}

-- No object in the value, at any depth, has an own property `toString`.
unfoldable mutual
  pub IsPlain : Js → Type 0
  IsPlain (Js.object fs) = (has_own fs (codes "toString") ≡ false) × FieldsArePlain fs
  IsPlain (Js.array vs) = ArePlain vs
  IsPlain _ = Unit

  pub ArePlain : Items → Type 0
  ArePlain nil = Unit
  ArePlain (item v vs) = IsPlain v × ArePlain vs

  pub FieldsArePlain : Fields → Type 0
  FieldsArePlain end = Unit
  FieldsArePlain (field k v fs) = IsPlain v × FieldsArePlain fs

mutual
  unfolding IsPlain describes

  pub describes-IsPlain : (v : Js) → IsPlain v → describes v ≡ true
  describes-IsPlain (Js.object fs) h = rw h.0
  describes-IsPlain (Js.array vs) h = all_describe-ArePlain vs h
  describes-IsPlain Js.undefined h = refl
  describes-IsPlain Js.null h = refl
  describes-IsPlain (Js.boolean b) h = refl
  describes-IsPlain (Js.number n) h = refl
  describes-IsPlain (Js.bigint n) h = refl
  describes-IsPlain (Js.string s) h = refl
  describes-IsPlain (Js.buffer bs) h = refl

  all_describe-ArePlain : (vs : Items) → ArePlain vs → all_describe vs ≡ true
  all_describe-ArePlain nil h = refl
  all_describe-ArePlain (item v vs) h = rw (describes-IsPlain v h.0) (all_describe-ArePlain vs h.1)

field_of-IsPlain : (fs : Fields) (k : Text) → FieldsArePlain fs → IsPlain (field_of fs k)
unfolding IsPlain
field_of-IsPlain end k h = tt
field_of-IsPlain (field j v fs) k h = if_plain (text_eq j k) _ h.0 (field_of-IsPlain fs k h.1)
  where
    if_plain : (same : Bool) (u : Js) → IsPlain v → IsPlain u → IsPlain (if same then v else u)
    if_plain true u p q = p
    if_plain false u p q = q

pub prop-IsPlain : (v : Js) (k : String) → IsPlain v → IsPlain (prop v k)
unfolding IsPlain
prop-IsPlain (Js.object fs) k h = field_of-IsPlain fs (codes k) h.1
prop-IsPlain (Js.array vs) k h = tt
prop-IsPlain Js.undefined k h = tt
prop-IsPlain Js.null k h = tt
prop-IsPlain (Js.boolean b) k h = tt
prop-IsPlain (Js.number n) k h = tt
prop-IsPlain (Js.bigint n) k h = tt
prop-IsPlain (Js.string s) k h = tt
prop-IsPlain (Js.buffer bs) k h = tt

-- The elements of an array.
abbrev pub EachIsPlain : List Js → Type 0
EachIsPlain [] = Unit
EachIsPlain (v ∷ vs) = IsPlain v × EachIsPlain vs

elements-EachIsPlain : (vs : Items) → ArePlain vs → EachIsPlain (elements vs)
unfolding IsPlain
elements-EachIsPlain nil h = tt
elements-EachIsPlain (item v vs) h = (h.0, elements-EachIsPlain vs h.1)

pub as_array-EachIsPlain :
    (v : Js) (vs : List Js) → IsPlain v → as_array v ≡ some vs → EachIsPlain vs
unfolding IsPlain
as_array-EachIsPlain (Js.array is) vs h e =
    let same : elements is ≡ vs = ground arith in rw (← same) (elements-EachIsPlain is h)
as_array-EachIsPlain (Js.object fs) vs h e = absurd (cc)
as_array-EachIsPlain Js.undefined vs h e = absurd (cc)
as_array-EachIsPlain Js.null vs h e = absurd (cc)
as_array-EachIsPlain (Js.boolean b) vs h e = absurd (cc)
as_array-EachIsPlain (Js.number n) vs h e = absurd (cc)
as_array-EachIsPlain (Js.bigint n) vs h e = absurd (cc)
as_array-EachIsPlain (Js.string s) vs h e = absurd (cc)
as_array-EachIsPlain (Js.buffer bs) vs h e = absurd (cc)

pub element-IsPlain : (vs : List Js) (i : ℕ) → EachIsPlain vs → IsPlain (element vs i)
unfolding IsPlain
element-IsPlain [] i h = tt
element-IsPlain (v ∷ vs) zero h = h.0
element-IsPlain (v ∷ vs) (suc i) h = element-IsPlain vs i h.1
