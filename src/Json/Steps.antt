-- ===== src/Json/Steps.antt =====
-- The steps of JSON.parse over printed texts.
use zkstellar.Prelude.{
  ℕ, suc, ◌≡◌, refl, ◌∙◌, ap, false, List, [], ◌∷◌, ◌++◌, none, some, ◌==◌, All,
}
use zkstellar.Text.{Text}
use zkstellar.Js.{Js, JsNumber, Items, Fields, array, object, string, item, nil, field, end}
use zkstellar.Json.{quote_units, join_with}
use zkstellar.Json.Lex.{skip_blanks, is_blank}
use zkstellar.Json.Strings.{IsUnit, unquote_printed}
use zkstellar.Json.Parse.{parse_value, parse_items, parse_members, opens, has_key}

abbrev pub joined : Text → List Text → Text
joined t ts = join_with (b',' ∷ []) t ts

-- A text that begins with no blank and no closing bracket.
pub record Starts (t : Text) : Type 0 where
  pub first : ℕ
  pub others : Text
  pub begins : t ≡ first ∷ others
  pub no_blank : is_blank first ≡ false
  pub no_bracket : (first == 93) ≡ false

opens_not : (t s : Text) → Starts t → opens 93 (skip_blanks (t ++ s)) ≡ none
unfolding skip_blanks
opens_not t s h = ap (λ u. opens 93 (skip_blanks (u ++ s))) h.begins ∙ rw (h.no_blank, h.no_bracket)

Starts-append : (t s : Text) → Starts t → Starts (t ++ s)
Starts-append t s h = record {
  first = h.first;
  others = h.others ++ s;
  begins = ap (λ u. u ++ s) h.begins;
  no_blank = h.no_blank;
  no_bracket = h.no_bracket;
}

pub Starts-joined : (t : Text) (ts : List Text) → Starts t → Starts (joined t ts)
Starts-joined t [] h = h
Starts-joined t (u ∷ us) h = Starts-append t _ h

module _ (number_of : Text → JsNumber) where
  pub last_item :
      (v : Js) (t : Text) (fuel : ℕ) (rest : Text)
      → parse_value number_of fuel (t ++ (93 ∷ rest)) ≡ some (v, 93 ∷ rest)
      → parse_items number_of (suc fuel) (t ++ (93 ∷ rest)) ≡ some (item v nil, rest)
  unfolding parse_items skip_blanks
  last_item v t fuel rest h = rw (parse_items, h)

  pub more_items :
      (v : Js) (vs : Items) (t j : Text) (fuel : ℕ) (rest : Text)
      → parse_value number_of fuel (t ++ (44 ∷ j)) ≡ some (v, 44 ∷ j)
      → parse_items number_of fuel j ≡ some (vs, rest)
      → parse_items number_of (suc fuel) (t ++ (44 ∷ j)) ≡ some (item v vs, rest)
  unfolding parse_items skip_blanks
  more_items v vs t j fuel rest h k = rw (parse_items, h, k)

  pub empty_array :
      (fuel : ℕ) (rest : Text)
      → parse_value number_of (suc fuel) (91 ∷ 93 ∷ rest) ≡ some (array nil, rest)
  unfolding parse_value skip_blanks
  empty_array fuel rest = refl

  pub some_array :
      (vs : Items) (j rest : Text) (fuel : ℕ)
      → Starts j
      → parse_items number_of fuel (j ++ (93 ∷ rest)) ≡ some (vs, rest)
      → parse_value number_of (suc fuel) (91 ∷ (j ++ (93 ∷ rest))) ≡ some (array vs, rest)
  unfolding parse_value skip_blanks
  some_array vs j rest fuel s h = rw (parse_value, opens_not j (93 ∷ rest) s, h)

  pub empty_object :
      (fuel : ℕ) (rest : Text)
      → parse_value number_of (suc fuel) (123 ∷ 125 ∷ rest) ≡ some (object end, rest)
  unfolding parse_value skip_blanks
  empty_object fuel rest = refl

  pub some_object :
      (fs : Fields) (j rest : Text) (fuel : ℕ)
      → parse_members number_of fuel (34 ∷ j) ≡ some (fs, rest)
      → parse_value number_of (suc fuel) (123 ∷ 34 ∷ j) ≡ some (object fs, rest)
  unfolding parse_value skip_blanks
  some_object fs j rest fuel h = rw (parse_value, h)

  pub a_string :
      (s rest : Text) (fuel : ℕ)
      → All IsUnit s
      → parse_value number_of (suc fuel) (34 ∷ (quote_units s ++ (34 ∷ rest)))
        ≡ some (string s, rest)
  unfolding parse_value skip_blanks
  a_string s rest fuel h = rw (parse_value, unquote_printed s rest h)

  -- A key, its colon and the value.
  pub last_member :
      (k : Text) (v : Js) (t rest : Text) (fuel : ℕ)
      → All IsUnit k
      → parse_value number_of fuel (t ++ (125 ∷ rest)) ≡ some (v, 125 ∷ rest)
      → parse_members number_of (suc fuel) (34 ∷ (quote_units k ++ (34 ∷ 58 ∷ (t ++ (125 ∷ rest)))))
        ≡ some (field k v end, rest)
  unfolding parse_members skip_blanks has_key
  last_member k v t rest fuel h e =
      rw (parse_members, unquote_printed k (58 ∷ (t ++ (125 ∷ rest))) h, e)

  pub more_members :
      (k : Text) (v : Js) (fs : Fields) (t j rest : Text) (fuel : ℕ)
      → All IsUnit k
      → has_key fs k ≡ false
      → parse_value number_of fuel (t ++ (44 ∷ j)) ≡ some (v, 44 ∷ j)
      → parse_members number_of fuel j ≡ some (fs, rest)
      → parse_members number_of (suc fuel) (34 ∷ (quote_units k ++ (34 ∷ 58 ∷ (t ++ (44 ∷ j)))))
        ≡ some (field k v fs, rest)
  unfolding parse_members skip_blanks
  more_members k v fs t j rest fuel h new e m =
      rw (parse_members, unquote_printed k (58 ∷ (t ++ (44 ∷ j))) h, e, m, new)
