-- ===== src/Oracle/Charge.antt =====
-- The charge against plain arithmetic.
use bartok.Base.{
  ℕ, ◌+◌, ◌*◌, ◌/◌, ◌%◌, ◌≤◌, ◌<◌, ◌≡◌, ◌↔◌, ◌⊎◌, inl, inr, refl, ap, Bool-cases, ◌&&◌, ltb, ◌==◌,
  if◌then◌else◌, arith,
}
use native.Mathlib.Nat.{
  add-mul, div-mul-le_self, lt-div-mul-add, le-div_iff_mul-le, div-eq_of_lt, le_trans,
}
use bartok.Text.Decimal.{u64_mod}
use bartok.Oracle.{charge_of}

-- The rounded quotient.
abbrev rounded : ℕ → ℕ → ℕ
rounded x denom = (x + denom / 2) / denom

-- Where the product fits into 64 bits the charge is the rounded quotient, but at least 1 for any token.
charge_of-fits :
    (tokens price denom : ℕ)
    → tokens * price + denom / 2 < u64_mod
    → charge_of tokens price denom ≡ (
        if ltb 0 tokens && rounded (tokens * price) denom == 0
        then 1
        else rounded (tokens * price) denom)
unfolding charge_of
charge_of-fits tokens price denom h =
    let e : tokens * price % u64_mod ≡ tokens * price = omega arith in
    let e' : (tokens * price + denom / 2) % u64_mod ≡ tokens * price + denom / 2 = omega arith in
    rw (e, e')

rounded_near :
    (x denom : ℕ)
    → 0 < denom
    → (2 * (rounded x denom * denom) ≤ 2 * x + denom)
      × (2 * x < 2 * (rounded x denom * denom) + denom)
rounded_near x denom h =
    omega (arith, div-mul-le_self (x + denom / 2) denom, lt-div-mul-add {a = x + denom / 2} h)

rounded_mono : (x y denom : ℕ) → 0 < denom → x ≤ y → rounded x denom ≤ rounded y denom
rounded_mono x y denom h le =
    (le-div_iff_mul-le h).1 (le_trans (div-mul-le_self (x + denom / 2) denom) (omega arith))

abbrev at_least_one : ℕ → ℕ → ℕ
at_least_one tokens r = if ltb 0 tokens && r == 0 then 1 else r

-- The minimum of 1 keeps a quotient `r` near.
near :
    (x tokens denom r : ℕ)
    → 0 < denom
    → (tokens ≡ 0 → r ≡ 0)
    → 2 * (r * denom) ≤ 2 * x + denom
    → 2 * x < 2 * (r * denom) + denom
    → ((at_least_one tokens r ≡ 0) ↔ (tokens ≡ 0))
      × (2 * x < 2 * (at_least_one tokens r * denom) + denom)
      × ((at_least_one tokens r ≡ 1) ⊎ (2 * (at_least_one tokens r * denom) ≤ 2 * x + denom))
near x tokens denom r h none_used hi lo = elim (Bool-cases (ltb 0 tokens && r == 0)) [
  | inl least ↦
      let zero_r : r ≡ 0 = ground arith in
      let used : 0 < tokens = ground arith in
      let lo' : 2 * x < denom = omega (arith, ap (λ k. k * denom) zero_r) in
      rw least ((λ e. absurd (omega arith), λ e. absurd (omega arith)), omega arith, inl refl)
  | inr other ↦ rw other ((λ e. ground arith, none_used), lo, inr hi)
]

no_tokens : (tokens price denom : ℕ) → 0 < denom → tokens ≡ 0 → rounded (tokens * price) denom ≡ 0
no_tokens tokens price denom h e = div-eq_of_lt (rw e (omega arith))

-- While the product fits into 64 bits: nothing is charged exactly when no token was used, the charge
-- is short of the price by less than half a unit, and over it by at most half a unit or it is 1.
pub charge_of-near :
    (tokens price denom : ℕ)
    → 0 < denom
    → tokens * price + denom / 2 < u64_mod
    → ((charge_of tokens price denom ≡ 0) ↔ (tokens ≡ 0))
      × (2 * (tokens * price) < 2 * (charge_of tokens price denom * denom) + denom)
      × ((charge_of tokens price denom ≡ 1)
          ⊎ (2 * (charge_of tokens price denom * denom) ≤ 2 * (tokens * price) + denom))
charge_of-near tokens price denom h fits = rw (charge_of-fits tokens price denom fits) (
    near (tokens * price) tokens denom (rounded (tokens * price) denom) h
      (no_tokens tokens price denom h) (rounded_near (tokens * price) denom h).0
      (rounded_near (tokens * price) denom h).1)

-- While the products fit into 64 bits more tokens never cost less.
pub charge_of_mono :
    (tokens more price denom : ℕ)
    → 0 < denom
    → tokens ≤ more
    → more * price + denom / 2 < u64_mod
    → charge_of tokens price denom ≤ charge_of more price denom
charge_of_mono tokens more price denom h le fits =
    let below : tokens * price ≤ more * price = grind arith in
    rw (charge_of-fits tokens price denom (omega arith), charge_of-fits more price denom fits)
      (ground (arith, rounded_mono (tokens * price) (more * price) denom h below))

-- The rounded quotient of the wrapped sum is short of that of the sum by what a wrap is worth.
wrapped_short :
    (x denom : ℕ)
    → 0 < denom
    → u64_mod ≤ x + denom / 2
    → ((x % u64_mod + denom / 2) % u64_mod) / denom + u64_mod / denom ≤ rounded x denom
wrapped_short x denom h over =
    let s = (x % u64_mod + denom / 2) % u64_mod in
    let wraps : s + u64_mod ≤ x + denom / 2 = omega (arith, over) in
    let below : s / denom * denom ≤ s = div-mul-le_self s denom in
    let unit : u64_mod / denom * denom ≤ u64_mod = div-mul-le_self u64_mod denom in
    let sum : (s / denom + u64_mod / denom) * denom ≡ s / denom * denom + u64_mod / denom * denom =
      add-mul (s / denom) (u64_mod / denom) denom in
    (le-div_iff_mul-le h).1 (omega (arith, wraps, below, unit, sum))

-- Where the product, rounded, does not fit into 64 bits, the charge is too low: it is 1, or short of
-- the rounded price by at least 2 ^ 64 over the denominator; and 1 is short of it by nearly as much.
pub charge_of-wraps :
    (tokens price denom : ℕ)
    → 0 < denom
    → u64_mod ≤ tokens * price + denom / 2
    → ((charge_of tokens price denom ≡ 1)
        ⊎ (charge_of tokens price denom + u64_mod / denom ≤ (tokens * price + denom / 2) / denom))
      × (charge_of tokens price denom + u64_mod / denom ≤ (tokens * price + denom / 2) / denom + 1)
unfolding charge_of
charge_of-wraps tokens price denom h over =
    let x = tokens * price in
    let c = ((x % u64_mod + denom / 2) % u64_mod) / denom in
    let short : c + u64_mod / denom ≤ rounded x denom = wrapped_short x denom h over in
    elim (Bool-cases (ltb 0 tokens && c == 0)) [
      | inl least ↦
          let none_left : c ≡ 0 = ground arith in
          rw least (inl refl, omega (arith, short, none_left))
      | inr other ↦ rw other (inr short, omega (arith, short))
    ]
