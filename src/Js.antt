-- ===== src/Js.antt =====
-- JavaScript values, as far as the SDK inspects them at run time: `typeof`, properties, elements,
-- `length` and truth values. An integer number is kept as an integer; fractions, NaN and the
-- infinities are `non_integer`.
use zkstellar.Prelude.{
  ℕ, Bool, true, false, List, [], ◌∷◌, Option, none, some, length, get_elem?, ltb, ◌==◌, not,
  if◌then◌else◌,
}
use zkstellar.Text.{Text, text_eq, ℤ, pos, negsuc, codes, is_empty}
use zkstellar.Types.{TypeName, undefined_type, object_type, boolean_type, number_type, bigint_type}
use zkstellar.Types.{string_type, Failure, other_error, Result, ok, err}
use Prim.Native.String.{String}

pub data JsNumber : Type 0 where
  int : ℤ → JsNumber
  non_integer : JsNumber

mutual
  pub data Js : Type 0 where
    undefined null : Js
    boolean : Bool → Js
    number : JsNumber → Js
    bigint : ℤ → Js
    string : Text → Js
    array : Items → Js
    object : Fields → Js
    buffer : List ℕ → Js

  pub data Items : Type 0 where
    nil : Items
    item : Js → Items → Items

  pub data Fields : Type 0 where
    end : Fields
    field : Text → Js → Fields → Fields

abbrev pub elements : Items → List Js
elements nil = []
elements (item v vs) = v ∷ elements vs

abbrev pub items : List Js → Items
items [] = nil
items (v ∷ vs) = item v (items vs)

-- `typeof value`
abbrev pub type_of : Js → TypeName
type_of undefined = undefined_type
type_of null = object_type
type_of (boolean b) = boolean_type
type_of (number n) = number_type
type_of (bigint n) = bigint_type
type_of (string s) = string_type
type_of (array vs) = object_type
type_of (object fs) = object_type
type_of (buffer bs) = object_type

-- `value === null || typeof value !== "object"`, negated.
abbrev pub is_object : Js → Bool
is_object (array vs) = true
is_object (object fs) = true
is_object (buffer bs) = true
is_object _ = false

-- `Array.isArray(value)`, with the elements.
abbrev pub as_array : Js → Option (List Js)
as_array (array vs) = some (elements vs)
as_array _ = none

-- `typeof value === "string"`, with the text.
abbrev pub as_string : Js → Option Text
as_string (string s) = some s
as_string _ = none

-- `Buffer.isBuffer(value)`, with the bytes.
abbrev pub as_buffer : Js → Option (List ℕ)
as_buffer (buffer bs) = some bs
as_buffer _ = none

-- `!value` is the negation of this.
abbrev pub truthy : Js → Bool
truthy undefined = false
truthy null = false
truthy (boolean b) = b
truthy (number (int (pos n))) = not (n == 0)
truthy (number (int (negsuc n))) = true
truthy (number non_integer) = true
truthy (bigint (pos n)) = not (n == 0)
truthy (bigint (negsuc n)) = true
truthy (string s) = not (is_empty s)
truthy (array vs) = true
truthy (object fs) = true
truthy (buffer bs) = true

abbrev pub field_of : Fields → Text → Js
field_of end k = undefined
field_of (field j v fs) k = if text_eq j k then v else field_of fs k

-- `Object.hasOwn(value, k)` on an object.
unfoldable pub has_own : Fields → Text → Bool
has_own end k = false
has_own (field j v fs) k = let rest = has_own fs k in if text_eq j k then true else rest

-- `value.key` on an object; other values have none of the properties that the SDK names.
abbrev pub prop : Js → String → Js
prop (object fs) k = field_of fs (codes k)
prop _ k = undefined

abbrev or_undefined : Option Js → Js
or_undefined none = undefined
or_undefined (some v) = v

-- `values[i]`
abbrev pub element : List Js → ℕ → Js
element vs i = or_undefined (get_elem? vs i)

abbrev type_error : Failure
type_error = other_error (codes "Cannot read properties of undefined or null")

abbrev number_element : Option ℕ → Js
number_element none = undefined
number_element (some b) = number (int (pos b))

abbrev text_element : Option ℕ → Js
text_element none = undefined
text_element (some c) = string (c ∷ [])

-- `value[i]`, which throws a TypeError on `undefined` and `null`.
abbrev pub index : Js → ℕ → Result Js
index undefined i = err type_error
index null i = err type_error
index (array vs) i = ok (element (elements vs) i)
index (string s) i = ok (text_element (get_elem? s i))
index (buffer bs) i = ok (number_element (get_elem? bs i))
index _ i = ok undefined

-- `value.length < bound`, false where there is no such number.
abbrev pub length_below : Js → ℕ → Result Bool
length_below undefined n = err type_error
length_below null n = err type_error
length_below (array vs) n = ok (ltb (length (elements vs)) n)
length_below (string s) n = ok (ltb (length s) n)
length_below (buffer bs) n = ok (ltb (length bs) n)
length_below _ n = ok false
