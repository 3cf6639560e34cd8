-- ===== src/Json/Members.antt =====
-- Texts that JSON.parse reads as the members of an object.
use zkstellar.Prelude.{
  ℕ, suc, zero, ◌+◌, ◌≤◌, ◌≡◌, refl, ◌∙◌, sym, ap, false, List, [], ◌∷◌, ◌++◌, none, some, length,
  arith, All, length-append, subst,
}
use zkstellar.Text.{Text}
use zkstellar.Js.{Js, JsNumber, Fields, object, field, end}
use zkstellar.Json.{quote, quote_units, wrap}
use zkstellar.Json.Strings.{IsUnit, append_assoc}
use zkstellar.Json.Steps.{joined, empty_object, some_object, last_member, more_members}
use zkstellar.Json.Parse.{parse_value, parse_members, has_key}
use zkstellar.Json.Reads.{Reads, with_fuel}

-- The text of a member, in front of more.
abbrev pub member_text : Text → Text → Text
member_text k t = quote k ++ (b':' ∷ t)

member_before : (k t s : Text) → member_text k t ++ s ≡ 34 ∷ (quote_units k ++ (34 ∷ 58 ∷ (t ++ s)))
unfolding quote
member_before k t s =
    ap (λ u. 34 ∷ u)
      (ap (λ u. u ++ s) (append_assoc (quote_units k) (34 ∷ []) (58 ∷ t))
        ∙ append_assoc (quote_units k) (34 ∷ 58 ∷ t) s)

length-member_text : (k t : Text) → length t + 2 ≤ length (member_text k t)
unfolding quote
length-member_text k t = omega (
  arith,
  length-append (quote_units k ++ (34 ∷ [])) (58 ∷ t),
  length-append (quote_units k) (34 ∷ []),
)

quoted : (k t : Text) → (o : Text) × (member_text k t ≡ 34 ∷ o)
unfolding quote
quoted k t = (_, refl)

starts_quoted :
    (m : Text) (us : List Text) → ((o : Text) × (m ≡ 34 ∷ o)) → (o : Text) × (joined m us ≡ 34 ∷ o)
starts_quoted m [] h = h
starts_quoted m (u ∷ us) (o, e) = (o ++ _, ap (λ x. x ++ (44 ∷ joined u us)) e)

module _ (number_of : Text → JsNumber) where
  -- The members of an object; the text of the first begins with a quotation mark.
  unfoldable pub MembersRead : Fields → List Text → Type 0
  MembersRead end ts = ts ≡ []
  MembersRead (field k v fs) ts =
      (m : Text) × (us : List Text) × (ts ≡ m ∷ us)
      × ((o : Text) × (m ≡ 34 ∷ o))
      × ((fuel : ℕ) (rest : Text)
          → length (joined m us) + 1 ≤ fuel
          → parse_members number_of fuel (joined m us ++ (125 ∷ rest)) ≡ some (field k v fs, rest))

  member_alone :
      (k : Text) (v : Js) (t : Text)
      → All IsUnit k
      → Reads number_of v t
      → (fuel : ℕ) (rest : Text) → length (member_text k t) + 1 ≤ fuel
      → parse_members number_of fuel (member_text k t ++ (125 ∷ rest)) ≡ some (field k v end, rest)
  member_alone k v t u r zero rest h = absurd (omega arith)
  member_alone k v t u r (suc fuel) rest h =
      ap (parse_members number_of (suc fuel)) (member_before k t (125 ∷ rest))
      ∙ last_member number_of k v t rest fuel u
          (r.reads fuel (125 ∷ rest) (omega (arith, length-member_text k t)))

  member_then :
      (k : Text) (v : Js) (fs : Fields) (t j : Text)
      → All IsUnit k
      → has_key fs k ≡ false
      → Reads number_of v t
      → ((fuel : ℕ) (rest : Text)
          → length j + 1 ≤ fuel
          → parse_members number_of fuel (j ++ (125 ∷ rest)) ≡ some (fs, rest))
      → (fuel : ℕ) (rest : Text) → length (member_text k t ++ (44 ∷ j)) + 1 ≤ fuel
      → parse_members number_of fuel ((member_text k t ++ (44 ∷ j)) ++ (125 ∷ rest))
        ≡ some (field k v fs, rest)
  member_then k v fs t j u new r next zero rest h = absurd (omega arith)
  member_then k v fs t j u new r next (suc fuel) rest h =
      let l = length-append (member_text k t) (44 ∷ j) in
      let m = length-member_text k t in
      ap (parse_members number_of (suc fuel)) (
        append_assoc (member_text k t) (44 ∷ j) (125 ∷ rest)
        ∙ member_before k t (44 ∷ (j ++ (125 ∷ rest))))
      ∙ more_members number_of k v fs t (j ++ (125 ∷ rest)) rest fuel u new
          (r.reads fuel (44 ∷ (j ++ (125 ∷ rest))) (omega arith)) (next fuel rest (omega arith))

  pub members_read :
      (k : Text) (v : Js) (fs : Fields) (t : Text) (ts : List Text)
      → All IsUnit k
      → has_key fs k ≡ false
      → Reads number_of v t
      → MembersRead fs ts
      → MembersRead (field k v fs) (member_text k t ∷ ts)
  unfolding MembersRead
  members_read k v end t ts u new r e =
      (member_text k t, [], ap (λ us. member_text k t ∷ us) e, quoted k t, member_alone k v t u r)
  members_read k v (field i w fs) t ts u new r (m, us, e, s, next) = (
    member_text k t,
    m ∷ us,
    ap (λ x. member_text k t ∷ x) e,
    quoted k t,
    member_then k v (field i w fs) t (joined m us) u new r next,
  )

  object_of_members :
      (fs : Fields) (j rest : Text) (fuel : ℕ)
      → ((o : Text) × (j ≡ 34 ∷ o))
      → parse_members number_of fuel (j ++ (125 ∷ rest)) ≡ some (fs, rest)
      → parse_value number_of (suc fuel) (123 ∷ (j ++ (125 ∷ rest))) ≡ some (object fs, rest)
  object_of_members fs j rest fuel (o, e) h =
      ap (λ u. parse_value number_of (suc fuel) (123 ∷ (u ++ (125 ∷ rest)))) e
      ∙ some_object number_of fs (o ++ (125 ∷ rest)) rest fuel
          (ap (λ u. parse_members number_of fuel (u ++ (125 ∷ rest))) (sym e) ∙ h)

  pub object-Reads :
      (fs : Fields) (ts : List Text)
      → MembersRead fs ts
      → Reads number_of (object fs) (wrap b'{' b'}' none ts)
  unfolding MembersRead
  object-Reads end ts e =
      subst (λ us. Reads number_of (object end) (wrap b'{' b'}' none us)) (sym e)
        (record {
          starts = record {
            first = 123;
            others = _;
            begins = refl;
            no_blank = refl;
            no_bracket = refl;
          };
          reads =
              with_fuel number_of (object end) 123 (125 ∷ [])
                λ fuel rest l. empty_object number_of fuel rest;
        })
  object-Reads (field k v fs) ts (m, us, e, s, next) =
      let j = joined m us in
      subst (λ us. Reads number_of (object (field k v fs)) (wrap b'{' b'}' none us)) (sym e)
        (record {
          starts = record {
            first = 123;
            others = _;
            begins = refl;
            no_blank = refl;
            no_bracket = refl;
          };
          reads = with_fuel number_of (object (field k v fs)) 123 (j ++ (125 ∷ [])) λ fuel rest l.
              ap (λ u. parse_value number_of (suc fuel) (123 ∷ u)) (append_assoc j (125 ∷ []) rest)
              ∙ object_of_members (field k v fs) j rest fuel (starts_quoted m us s)
                  (next fuel rest (omega (arith, length-append j (125 ∷ []))));
        })
