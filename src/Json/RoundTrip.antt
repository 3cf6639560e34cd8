-- ===== src/Json/RoundTrip.antt =====
-- What JSON.stringify prints is read back by JSON.parse, for values without numbers.
use zkstellar.Prelude.{
  ◌+◌, ◌≡◌, refl, ◌∙◌, sym, ap, true, false, List, [], ◌∷◌, ◌++◌, none, some, length, arith, All,
}
use zkstellar.Text.{Text, codes}
use zkstellar.Types.{ok, ◌>>=◌}
use zkstellar.Js.{Js, JsNumber, Items, Fields, boolean, null, item, nil, field, end}
use zkstellar.Json.{json, json_items, json_fields, quote, wrap}
use zkstellar.Json.Lex.{skip_blanks}
use zkstellar.Json.Strings.{IsUnit}
use zkstellar.Json.Parse.{parse_value, expect, has_key, json_parse}
use zkstellar.Json.Reads.{Reads, ItemsRead, items_read, with_fuel, string-Reads, array-Reads}
use zkstellar.Json.Members.{MembersRead, member_text, members_read, object-Reads}

-- A value that JSON can hold, without numbers and with different keys in each object.
unfoldable mutual
  pub IsJson : Js → Type 0
  IsJson Js.null = Unit
  IsJson (Js.boolean b) = Unit
  IsJson (Js.string s) = All IsUnit s
  IsJson (Js.array vs) = AreJson vs
  IsJson (Js.object fs) = HaveJson fs
  IsJson _ = ⊥

  pub AreJson : Items → Type 0
  AreJson nil = Unit
  AreJson (item v vs) = IsJson v × AreJson vs

  pub HaveJson : Fields → Type 0
  HaveJson end = Unit
  HaveJson (field k v fs) = All IsUnit k × (has_key fs k ≡ false) × IsJson v × HaveJson fs

append_nil : (t : Text) → t ++ [] ≡ t
append_nil [] = refl
append_nil (c ∷ t) = ap (λ s. c ∷ s) (append_nil t)

module _ (number_text : JsNumber → Text) (number_of : Text → JsNumber) where
  null-Reads : Reads number_of null (codes "null")
  unfolding parse_value expect skip_blanks
  null-Reads = record {
    starts = record { first = b'n'; others = _; begins = refl; no_blank = refl; no_bracket = refl };
    reads = with_fuel number_of null b'n' (codes "ull") λ fuel rest l. refl;
  }

  true-Reads : Reads number_of (boolean true) (codes "true")
  unfolding parse_value expect skip_blanks
  true-Reads = record {
    starts = record { first = b't'; others = _; begins = refl; no_blank = refl; no_bracket = refl };
    reads = with_fuel number_of (boolean true) b't' (codes "rue") λ fuel rest l. refl;
  }

  false-Reads : Reads number_of (boolean false) (codes "false")
  unfolding parse_value expect skip_blanks
  false-Reads = record {
    starts = record { first = b'f'; others = _; begins = refl; no_blank = refl; no_bracket = refl };
    reads = with_fuel number_of (boolean false) b'f' (codes "alse") λ fuel rest l. refl;
  }

  mutual
    unfolding json ItemsRead MembersRead IsJson

    value_round :
        (v : Js)
        → IsJson v
        → (t : Text) × (json number_text none v ≡ ok (some t)) × Reads number_of v t
    value_round Js.null h = (codes "null", refl, null-Reads)
    value_round (Js.boolean true) h = (codes "true", refl, true-Reads)
    value_round (Js.boolean false) h = (codes "false", refl, false-Reads)
    value_round (Js.string s) h = (quote s, refl, string-Reads number_of s h)
    value_round (Js.array vs) h =
        let (ts, e, r) = items_round vs h in
        (
          _,
          ap (λ r. r >>= λ texts. ok (some (wrap b'[' b']' none texts))) e,
          array-Reads number_of vs ts r,
        )
    value_round (Js.object fs) h =
        let (ts, e, r) = fields_round fs h in
        (
          _,
          ap (λ r. r >>= λ texts. ok (some (wrap b'{' b'}' none texts))) e,
          object-Reads number_of fs ts r,
        )
    value_round Js.undefined h = absurd h
    value_round (Js.number n) h = absurd h
    value_round (Js.bigint n) h = absurd h
    value_round (Js.buffer bs) h = absurd h

    items_round :
        (vs : Items)
        → AreJson vs
        → (ts : List Text) × (json_items number_text none vs ≡ ok ts) × ItemsRead number_of vs ts
    items_round nil h = ([], refl, refl)
    items_round (item v vs) (h, hs) =
        let (t, e, r) = value_round v h in
        let (ts, es, rs) = items_round vs hs in
        (t ∷ ts, rw (e, es), items_read number_of v vs t ts r rs)

    fields_round :
        (fs : Fields)
        → HaveJson fs
        → (ts : List Text) × (json_fields number_text none fs ≡ ok ts) × MembersRead number_of fs ts
    fields_round end h = ([], refl, refl)
    fields_round (field k v fs) (u, new, h, hs) =
        let (t, e, r) = value_round v h in
        let (ts, es, rs) = fields_round fs hs in
        (member_text k t ∷ ts, rw (e, es), members_read number_of k v fs t ts u new r rs)

  pub json_parse-json :
      (v : Js)
      → IsJson v
      → (t : Text) × (json number_text none v ≡ ok (some t)) × (json_parse number_of t ≡ ok v)
  unfolding json_parse skip_blanks
  json_parse-json v h =
      let (t, e, r) = value_round v h in
      let parsed = r.reads (length t + 1) [] (omega arith) in
      let whole = ap (parse_value number_of (length t + 1)) (append_nil t) in
      (t, e, rw (json_parse, sym whole ∙ parsed))
