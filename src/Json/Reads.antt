-- ===== src/Json/Reads.antt =====
-- Texts that JSON.parse reads as a value or as the elements of an array.
use zkstellar.Prelude.{
  ℕ, suc, zero, ◌+◌, ◌≤◌, ◌≡◌, refl, ◌∙◌, sym, ap, List, [], ◌∷◌, ◌++◌, none, some, length, arith,
  All, length-append, subst,
}
use zkstellar.Text.{Text}
use zkstellar.Js.{Js, JsNumber, Items, array, string, item, nil}
use zkstellar.Json.{quote, quote_units, wrap}
use zkstellar.Json.Strings.{IsUnit, append_assoc}
use zkstellar.Json.Steps.{
  Starts, Starts-joined, joined, last_item, more_items, empty_array, some_array, a_string,
}
use zkstellar.Json.Parse.{parse_value, parse_items}

module _ (number_of : Text → JsNumber) where
  pub record Reads (v : Js) (t : Text) : Type 0 where
    pub starts : Starts t
    pub reads :
        (fuel : ℕ) (rest : Text)
        → length t ≤ fuel
        → parse_value number_of fuel (t ++ rest) ≡ some (v, rest)

  unfoldable pub ItemsRead : Items → List Text → Type 0
  ItemsRead nil ts = ts ≡ []
  ItemsRead (item v vs) ts =
      (t : Text) × (us : List Text) × (ts ≡ t ∷ us)
      × Starts t
      × ((fuel : ℕ) (rest : Text)
          → length (joined t us) + 1 ≤ fuel
          → parse_items number_of fuel (joined t us ++ (93 ∷ rest)) ≡ some (item v vs, rest))

  item_alone :
      (v : Js) (t : Text)
      → Reads v t
      → (fuel : ℕ) (rest : Text) → length t + 1 ≤ fuel
      → parse_items number_of fuel (t ++ (93 ∷ rest)) ≡ some (item v nil, rest)
  item_alone v t r zero rest h = absurd (omega arith)
  item_alone v t r (suc fuel) rest h =
      last_item number_of v t fuel rest (r.reads fuel (93 ∷ rest) (omega arith))

  item_before :
      (v : Js) (vs : Items) (t j : Text)
      → Reads v t
      → ((fuel : ℕ) (rest : Text)
          → length j + 1 ≤ fuel
          → parse_items number_of fuel (j ++ (93 ∷ rest)) ≡ some (vs, rest))
      → (fuel : ℕ) (rest : Text) → length (t ++ (44 ∷ j)) + 1 ≤ fuel
      → parse_items number_of fuel ((t ++ (44 ∷ j)) ++ (93 ∷ rest)) ≡ some (item v vs, rest)
  item_before v vs t j r next zero rest h = absurd (omega arith)
  item_before v vs t j r next (suc fuel) rest h =
      let l = length-append t (44 ∷ j) in
      ap (parse_items number_of (suc fuel)) (append_assoc t (44 ∷ j) (93 ∷ rest))
      ∙ more_items number_of v vs t (j ++ (93 ∷ rest)) fuel rest
          (r.reads fuel (44 ∷ (j ++ (93 ∷ rest))) (omega arith)) (next fuel rest (omega arith))

  pub items_read :
      (v : Js) (vs : Items) (t : Text) (ts : List Text)
      → Reads v t
      → ItemsRead vs ts
      → ItemsRead (item v vs) (t ∷ ts)
  unfolding ItemsRead
  items_read v nil t ts r e = (t, [], ap (λ us. t ∷ us) e, r.starts, item_alone v t r)
  items_read v (item w vs) t ts r (u, us, e, s, next) =
      (t, u ∷ us, ap (λ x. t ∷ x) e, r.starts, item_before v (item w vs) t (joined u us) r next)

  -- Fuel for a text that is not empty.
  pub with_fuel :
      (v : Js) (c : ℕ) (t : Text)
      → ((fuel : ℕ) (rest : Text)
          → length t ≤ fuel
          → parse_value number_of (suc fuel) (c ∷ (t ++ rest)) ≡ some (v, rest))
      → (fuel : ℕ) (rest : Text) → length (c ∷ t) ≤ fuel
      → parse_value number_of fuel ((c ∷ t) ++ rest) ≡ some (v, rest)
  with_fuel v c t r zero rest h = absurd (omega arith)
  with_fuel v c t r (suc fuel) rest h = r fuel rest (omega arith)

  pub string-Reads : (s : Text) → All IsUnit s → Reads (string s) (quote s)
  unfolding quote
  string-Reads s h = record {
    starts = record { first = 34; others = _; begins = refl; no_blank = refl; no_bracket = refl };
    reads = with_fuel (string s) 34 (quote_units s ++ (34 ∷ [])) λ fuel rest l.
        ap (λ u. parse_value number_of (suc fuel) (34 ∷ u))
          (append_assoc (quote_units s) (34 ∷ []) rest)
        ∙ a_string number_of s rest fuel h;
  }

  pub array-Reads :
      (vs : Items) (ts : List Text) → ItemsRead vs ts → Reads (array vs) (wrap b'[' b']' none ts)
  unfolding ItemsRead
  array-Reads nil ts e =
      subst (λ us. Reads (array nil) (wrap b'[' b']' none us)) (sym e)
        (record {
          starts = record {
            first = 91;
            others = _;
            begins = refl;
            no_blank = refl;
            no_bracket = refl;
          };
          reads = with_fuel (array nil) 91 (93 ∷ []) λ fuel rest l. empty_array number_of fuel rest;
        })
  array-Reads (item v vs) ts (t, us, e, s, next) =
      let j = joined t us in
      subst (λ us. Reads (array (item v vs)) (wrap b'[' b']' none us)) (sym e)
        (record {
          starts = record {
            first = 91;
            others = _;
            begins = refl;
            no_blank = refl;
            no_bracket = refl;
          };
          reads = with_fuel (array (item v vs)) 91 (j ++ (93 ∷ [])) λ fuel rest l.
              ap (λ u. parse_value number_of (suc fuel) (91 ∷ u)) (append_assoc j (93 ∷ []) rest)
              ∙ some_array number_of (item v vs) j rest fuel (Starts-joined t us s)
                  (next fuel rest (omega (arith, length-append j (93 ∷ []))));
        })
