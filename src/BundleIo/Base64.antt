-- ===== src/BundleIo/Base64.antt =====
-- The URL-safe Base64 of sdk/src/bundleIO.ts, and its way back.
use zkstellar.Prelude.{
  ℕ, suc, ◌+◌, ◌-◌, ◌*◌, ◌/◌, ◌%◌, ◌≡◌, refl, ◌∙◌, ap, false, List, [], ◌∷◌, ◌++◌, length,
  replicate, ◌==◌, if◌then◌else◌, arith,
}
use zkstellar.Text.{Text}
use zkstellar.Types.{ok, ◌>>=◌}
use zkstellar.Js.{Js, JsNumber}
use zkstellar.Json.{utf8}
use zkstellar.BundleIo.{
  base64_char, base64, replace_all, keep_unless_padding, strip_padding, url_safe, padded,
  bundle_to_json, bundle_from_json, bundle_to_base64, bundle_from_base64,
}

-- The two replacements at one character, and back.
abbrev out : ℕ → ℕ
out c = let d = if c == b'+' then b'-' else c in if d == b'/' then b'_' else d

abbrev back : ℕ → ℕ
back c = let d = if c == b'-' then b'+' else c in if d == b'_' then b'/' else d

abbrev out_text : Text → Text
out_text s = replace_all b'/' b'_' (replace_all b'+' b'-' s)

abbrev back_text : Text → Text
back_text s = replace_all b'_' b'/' (replace_all b'-' b'+' s)

base64_char_bounds :
    (d : ℕ) → ¬ (base64_char d ≡ b'=') × ¬ (base64_char d ≡ b'-') × ¬ (base64_char d ≡ b'_')
base64_char_bounds d = ground arith

back-out : (d : ℕ) → back (out (base64_char d)) ≡ base64_char d
back-out d = let (a, b, c) = base64_char_bounds d in ground arith

out-no_padding : (d : ℕ) → (out (base64_char d) == b'=') ≡ false
out-no_padding d = ground arith

keep_unless_padding_lem : (c : ℕ) (s : Text) → (c == b'=') ≡ false → keep_unless_padding c s ≡ c ∷ s
keep_unless_padding_lem c [] h = rw h
keep_unless_padding_lem c (d ∷ s) h = refl

keep_digit :
    (d : ℕ) (s : Text) → keep_unless_padding (out (base64_char d)) s ≡ out (base64_char d) ∷ s
keep_digit d s = keep_unless_padding_lem (out (base64_char d)) s (out-no_padding d)

-- The digits without their padding.
digits : List ℕ → Text
digits [] = []
digits (x ∷ []) = base64_char (x / 4) ∷ base64_char (x % 4 * 16) ∷ []
digits (x ∷ y ∷ []) =
    base64_char (x / 4) ∷ base64_char (x % 4 * 16 + y / 16) ∷ base64_char (y % 16 * 4) ∷ []
digits (x ∷ y ∷ z ∷ bytes) =
    base64_char (x / 4)
    ∷ base64_char (x % 4 * 16 + y / 16)
    ∷ base64_char (y % 16 * 4 + z / 64)
    ∷ base64_char (z % 64)
    ∷ digits bytes

strip_padding-base64 : (bytes : List ℕ) → url_safe (base64 bytes) ≡ out_text (digits bytes)
unfolding strip_padding base64 digits
strip_padding-base64 [] = refl
strip_padding-base64 (x ∷ []) = simp keep_digit
strip_padding-base64 (x ∷ y ∷ []) = simp keep_digit
strip_padding-base64 (x ∷ y ∷ z ∷ bytes) = simp (strip_padding-base64 bytes, keep_digit)

back_text-out_text : (bytes : List ℕ) → back_text (out_text (digits bytes)) ≡ digits bytes
unfolding digits
back_text-out_text [] = refl
back_text-out_text (x ∷ []) = simp back-out
back_text-out_text (x ∷ y ∷ []) = simp back-out
back_text-out_text (x ∷ y ∷ z ∷ bytes) = simp (back_text-out_text bytes, back-out)

four_more : (n : ℕ) → (4 - suc (suc (suc (suc n))) % 4) % 4 ≡ (4 - n % 4) % 4
four_more n = omega arith

digits_padded :
    (bytes : List ℕ)
    → digits bytes ++ replicate ((4 - length (digits bytes) % 4) % 4) b'=' ≡ base64 bytes
unfolding digits base64
digits_padded [] = refl
digits_padded (x ∷ []) = refl
digits_padded (x ∷ y ∷ []) = refl
digits_padded (x ∷ y ∷ z ∷ bytes) =
    ap
      (λ s.
        base64_char (x / 4)
        ∷ base64_char (x % 4 * 16 + y / 16)
        ∷ base64_char (y % 16 * 4 + z / 64)
        ∷ base64_char (z % 64)
        ∷ s)
      (ap (λ n. digits bytes ++ replicate n b'=') (four_more (length (digits bytes)))
        ∙ digits_padded bytes)

padded-url_safe : (bytes : List ℕ) → padded (url_safe (base64 bytes)) ≡ base64 bytes
unfolding padded
padded-url_safe bytes =
    let e = ap back_text (strip_padding-base64 bytes) ∙ back_text-out_text bytes in
    ap (λ s. s ++ replicate ((4 - length s % 4) % 4) b'=') e ∙ digits_padded bytes

module _ (number_text : JsNumber → Text) (number_of : Text → JsNumber) (sha256 : List ℕ → List ℕ)
    (decode : Text → Text) where
  -- Let text be the JSON text of a bundle, such that Node decodes the standard Base64 of its UTF-8 bytes
  -- to text again. Then bundleToBase64 returns a text, and bundleFromBase64 does with it what
  -- bundleFromJson does with the JSON text: the URL-safe alphabet and the dropped padding lose nothing.
  pub bundle_from_base64-bundle_to_base64 :
      (bundle : Js) (text : Text)
      → bundle_to_json number_text number_of sha256 decode bundle false ≡ ok text
      → decode (base64 (utf8 text)) ≡ text
      → (b64 : Text) × (bundle_to_base64 number_text number_of sha256 decode bundle ≡ ok b64)
        × (bundle_from_base64 number_text number_of sha256 decode b64
            ≡ bundle_from_json number_text number_of sha256 decode text)
  unfolding bundle_to_base64 bundle_from_base64
  bundle_from_base64-bundle_to_base64 bundle text h d = (
    url_safe (base64 (utf8 text)),
    ap (λ r. r >>= λ t. ok (url_safe (base64 (utf8 t)))) h,
    ap (bundle_from_json number_text number_of sha256 decode)
        (ap decode (padded-url_safe (utf8 text)) ∙ d),
  )
