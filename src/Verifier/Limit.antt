-- ===== src/Verifier/Limit.antt =====
-- The rate limit, over histories within one window.
use zkstellar.Prelude.{
  ℕ, suc, ◌+◌, ◌≤◌, ◌≡◌, ◌⊎◌, inl, inr, refl, ◌∙◌, sym, ap, Bool, true, false, List, [], ◌∷◌, some,
  arith, if◌then◌else◌, Bool-cases, ◌==◌, ==_iff, ◌&&◌,
}
use zkstellar.Text.{text_eq}
use zkstellar.Text.Equality.{text_eq_iff}
use zkstellar.Contract.{Address}
use zkstellar.Verifier.{Limits, Returned, fails, returns, Verifier, or_zero}
use zkstellar.Verifier.Proofs.{window_start}
use zkstellar.Verifier.Outcome.{IsCounted}

abbrev pub one_if : Bool → ℕ
one_if true = 1
one_if false = 0

abbrev pub is_accepted : Returned Bool → Bool
is_accepted (returns success) = success
is_accepted (fails e) = false

abbrev pub accepted_count : List Bool → ℕ
accepted_count [] = 0
accepted_count (b ∷ results) = one_if b + accepted_count results

abbrev pub batch_count : Returned (List Bool) → ℕ
batch_count (returns results) = accepted_count results
batch_count (fails e) = 0

-- The calls of a caller that are counted in a window.
abbrev pub count_at : Address → ℕ → Verifier → ℕ
count_at who window r = or_zero (r.call_count who window)

-- From r to r', n proofs of a caller were accepted in a window.
pub record Grew (who : Address) (window : ℕ) (limits : Limits) (n : ℕ) (r r' : Verifier)
    : Type 0 where
  pub grew_by : n + count_at who window r ≤ count_at who window r'
  pub grew_within :
      (count_at who window r' ≤ limits.max_calls) ⊎ (count_at who window r' ≡ count_at who window r)
  pub kept_limits : r'.limits ≡ r.limits

module _ (who : Address) (window : ℕ) (limits : Limits) where
  pub Grew-none :
      (r r' : Verifier)
      → count_at who window r' ≡ count_at who window r
      → r'.limits ≡ r.limits
      → Grew who window limits 0 r r'
  Grew-none r r' c l = record { grew_by = omega arith; grew_within = inr c; kept_limits = l }

  pub then-Grew :
      (n m : ℕ) (r s t : Verifier)
      → Grew who window limits n r s
      → Grew who window limits m s t
      → Grew who window limits (m + n) r t
  then-Grew n m r s t g k = record {
    grew_by = let p = g.grew_by in let q = k.grew_by in omega arith;
    grew_within = elim k.grew_within [
      | inl below ↦ inl below
      | inr same ↦ elim g.grew_within [
        | inl below ↦ inl (omega arith)
        | inr same' ↦ inr (same ∙ same')
      ]
    ];
    kept_limits = k.kept_limits ∙ g.kept_limits;
  }

  -- The proofs accepted for the caller among those of a call by anyone.
  abbrev pub for_caller : Address → ℕ → ℕ
  for_caller caller n = if text_eq who caller then n else 0

  -- What the caller's count is after a call that was counted in the window.
  count_after :
      (ledger : ℕ) (caller : Address) (r s : Verifier) (c : IsCounted ledger caller limits r s)
      → window_start ledger limits.window_size ≡ some window
      → (c.window ≡ window)
        × (count_at who window s
            ≡ or_zero (
                if text_eq who caller && window == c.window
                then some c.next
                else r.call_count who window))
  count_after ledger caller r s c w =
      let i = c.in_window in (ground arith, ap (λ (x : Verifier). count_at who window x) c.after)

  pub counted_at :
      (ledger : ℕ) (caller : Address) (r s : Verifier) (accepted : Bool)
      → window_start ledger limits.window_size ≡ some window
      → IsCounted ledger caller limits r s
      → Grew who window limits (for_caller caller (one_if accepted)) r s
  counted_at ledger caller r s accepted w c =
      let (same_window, count) = count_after ledger caller r s c w in
      elim (Bool-cases (text_eq who caller)) [
        | inr other ↦
            rw other
              (Grew-none r s (count ∙ (rw other refl)) (ap (λ (x : Verifier). x.limits) c.after))
        | inl same ↦
            let here : (window == c.window) ≡ true = (==_iff _ _).1 (sym same_window) in
            let caller_is : who ≡ caller = (text_eq_iff who caller).0 same in
            let counted : count_at who window s ≡ c.next = count ∙ (rw (same, here) refl) in
            let was : count_at caller c.window r ≡ count_at who window r =
              ap (λ x. count_at x c.window r) (sym caller_is)
              ∙ ap (λ x. count_at who x r) same_window in
            rw same (record {
              grew_by = one_more accepted (counted ∙ c.is_next ∙ ap suc was);
              grew_within = inl (let b = c.below_limit in omega arith);
              kept_limits = ap (λ (x : Verifier). x.limits) c.after;
            })
      ]
    where
      one_more : (accepted : Bool) {n m : ℕ} → n ≡ suc m → one_if accepted + m ≤ n
      one_more true e = omega arith
      one_more false e = omega arith

  pub not_counted :
      (caller : Address) (r : Verifier) → Grew who window limits (for_caller caller 0) r r
  not_counted caller r = elim (Bool-cases (text_eq who caller)) [
    | inl same ↦ rw same (Grew-none r r refl refl)
    | inr other ↦ rw other (Grew-none r r refl refl)
  ]
