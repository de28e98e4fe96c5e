-- ===== src/Treasury/Retry.antt =====
-- server/src/utils/sui-settle.ts: what `withRetry` returns or throws, for any behaviour of the call.
use sui_comabts.Prelude.{
  ℕ, zero, suc, ◌+◌, ◌≤◌, ◌≡◌, ◌⊎◌, inl, inr, refl, Bool, true, false, ◌&&◌, List, [], ◌∷◌, arith,
  length, subst, ◌∙◌,
}
use sui_comabts.Treasury.{Attempt, returns, throws, retry_from, with_retry}

-- The first `k` of the list, and whether the `k` attempts from `i` on all throw.
abbrev pub take {ℓ} : {A : Type ℓ} → ℕ → List A → List A
take zero xs = []
take (suc k) [] = []
take (suc k) (x ∷ xs) = x ∷ take k xs

abbrev is_throw {ℓ κ} : {A : Type ℓ} {E : Type κ} → Attempt A E → Bool
is_throw (returns v) = false
is_throw (throws e) = true

abbrev pub all_throw {ℓ κ} : {A : Type ℓ} {E : Type κ} → (ℕ → Attempt A E) → ℕ → ℕ → Bool
all_throw fn i zero = true
all_throw fn i (suc k) = is_throw (fn i) && all_throw fn (i + 1) k

pub Attempt-cases {ℓ κ} :
    {A : Type ℓ} {E : Type κ} (a : Attempt A E)
    → ((v : A) × a ≡ returns v) ⊎ ((e : E) × a ≡ throws e)
Attempt-cases (returns v) = inl (v, refl)
Attempt-cases (throws e) = inr (e, refl)

module _ {ℓ κ} {A : Type ℓ} {E : Type κ} (fn : ℕ → Attempt A E) where
  -- From attempt `i`, with the pauses `bs` left: attempt `i + k` is the first that returns, or all
  -- throw and the last error is thrown.
  Succeeds : ℕ → List ℕ → Type (ℓ ⊔ κ)
  Succeeds i bs =
      (k : ℕ) × (v : A) × (k ≤ length bs)
      × (all_throw fn i k ≡ true)
      × (fn (i + k) ≡ returns v)
      × (retry_from fn i bs
          ≡ record { outcome = returns v; attempts = i + k + 1; slept = take k bs })

  Exhausts : ℕ → List ℕ → Type (ℓ ⊔ κ)
  Exhausts i bs =
      (e : E) × (all_throw fn i (suc (length bs)) ≡ true)
      × (fn (i + length bs) ≡ throws e)
      × (retry_from fn i bs
          ≡ record { outcome = throws e; attempts = i + length bs + 1; slept = bs })

  retry_from-cases : (i : ℕ) (bs : List ℕ) → Succeeds i bs ⊎ Exhausts i bs
  unfolding retry_from Succeeds Exhausts
  retry_from-cases i [] = elim (Attempt-cases (fn i)) [
    | inl (v, q) ↦ inl (0, v, omega arith, refl, ground (arith, q), ground (arith, q))
    | inr (e, q) ↦ inr (e, ground (arith, q), ground (arith, q), ground (arith, q))
  ]
  retry_from-cases i (b ∷ bs) = elim (Attempt-cases (fn i)) [
    | inl (v, q) ↦ inl (0, v, omega arith, refl, ground (arith, q), ground (arith, q))
    | inr (e, q) ↦ elim (retry_from-cases (i + 1) bs) [
      | inl (k, v, le, t, r, s) ↦ inl (
        suc k,
        v,
        omega (arith, le),
        rw q t,
        subst (λ n. fn n ≡ returns v) (omega arith) r,
        ground (arith, q, s),
      )
      | inr (e', t, r, s) ↦
          inr (e', rw q t, subst (λ n. fn n ≡ throws e') (omega arith) r, ground (arith, q, s))
    ]
  ]

  -- For any call and pauses, in one of two ways: some attempt, with an index of at most the number of
  -- pauses, is the first that does not throw, and `withRetry` returns its value after exactly the
  -- attempts up to it, having slept a pause after each one before it; or every attempt throws, one
  -- more than there are pauses, and it throws the error of the last one, having slept every pause.
  pub with_retry-cases :
      (bs : List ℕ)
      → ((k : ℕ) × (v : A) × (k ≤ length bs)
          × (all_throw fn 0 k ≡ true)
          × (fn k ≡ returns v)
          × (with_retry fn bs
              ≡ record { outcome = returns v; attempts = k + 1; slept = take k bs }))
        ⊎ ((e : E) × (all_throw fn 0 (suc (length bs)) ≡ true)
            × (fn (length bs) ≡ throws e)
            × (with_retry fn bs
                ≡ record { outcome = throws e; attempts = length bs + 1; slept = bs }))
  unfolding with_retry Succeeds Exhausts
  with_retry-cases bs = elim (retry_from-cases 0 bs) [
    | inl (k, v, le, t, r, s) ↦
        inl (k, v, le, t, subst (λ n. fn n ≡ returns v) (omega arith) r, s ∙ ground arith)
    | inr (e, t, r, s) ↦ inr (e, t, subst (λ n. fn n ≡ throws e) (omega arith) r, s ∙ ground arith)
  ]
