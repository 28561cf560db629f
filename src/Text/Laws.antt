-- ===== src/Text/Laws.antt =====
-- Laws of the text operations, and the round trip of decimal numbers.
use bartok.Base.{
  ℕ, zero, suc, ◌+◌, ◌-◌, ◌*◌, ◌/◌, ◌%◌, ◌<◌, true, some, [], ◌∷◌, ◌++◌, ◌≡◌, ◌↔◌, ◌≢◌, refl, ap,
  ◌∙◌, inl, inr, ltb, Bool-cases, All, arith,
}
use mathlib.Core.List.{reverse, reverse-reverse, reverse-append}
use bartok.Text.{Text, text_eq, trim_start, trim, split}
use bartok.Text.Decimal.{print_onto, to_string, u64_mod, is_digit, parse_digits, parse_u64}

pub text_eq_iff : (s t : Text) → (text_eq s t ≡ true) ↔ (s ≡ t)
unfolding text_eq
text_eq_iff (x ∷ s) (y ∷ t) = ground (arith, text_eq_iff s t)
text_eq_iff _ _ = ground arith

abbrev pub IsDigits : Text → Type 0
IsDigits = All (λ c. is_digit c ≡ true)

print_onto-IsDigits : (fuel n : ℕ) (acc : Text) → IsDigits acc → IsDigits (print_onto fuel n acc)
unfolding print_onto
print_onto-IsDigits zero n acc h = h
print_onto-IsDigits (suc fuel) n acc h = elim (Bool-cases (ltb n 10)) [
  | inl last ↦ ground arith
  | inr more ↦ rw more (print_onto-IsDigits fuel (n / 10) ((48 + n % 10) ∷ acc) (ground arith, h))
]

pub to_string-IsDigits : (n : ℕ) → IsDigits (to_string n)
unfolding to_string
to_string-IsDigits n = print_onto-IsDigits (suc n) n [] tt

parse_digits-digit :
    (a d : ℕ) (cs : Text)
    → d < 10
    → a * 10 + d < u64_mod
    → parse_digits a ((48 + d) ∷ cs) ≡ parse_digits (a * 10 + d) cs
unfolding parse_digits
parse_digits-digit a d cs h b =
    let e : 48 + d - 48 ≡ d = omega arith in
    let digit : is_digit (48 + d) ≡ true = ground arith in
    let fits : ltb (a * 10 + d) u64_mod ≡ true = ground arith in rw (e, digit, fits) refl

parse_digits-print_onto :
    (fuel n : ℕ) (acc : Text)
    → n < fuel
    → n < u64_mod
    → parse_digits 0 (print_onto fuel n acc) ≡ parse_digits n acc
unfolding print_onto
parse_digits-print_onto zero n acc f b = elim f [ ]
parse_digits-print_onto (suc fuel) n acc f b = elim (Bool-cases (ltb n 10)) [
  | inl last ↦ rw last (
      parse_digits-digit 0 n acc (ground arith) (omega arith)
      ∙ ap (λ k. parse_digits k acc) (omega arith))
  | inr more ↦
      let back : n / 10 * 10 + n % 10 ≡ n = omega arith in
      rw more (
        parse_digits-print_onto fuel (n / 10) ((48 + n % 10) ∷ acc) (ground arith) (omega arith)
        ∙ parse_digits-digit (n / 10) (n % 10) acc (omega arith) (omega arith)
        ∙ ap (λ k. parse_digits k acc) back)
]

print_onto-ne-nil : (fuel n : ℕ) (acc : Text) → acc ≢ [] → print_onto fuel n acc ≢ []
unfolding print_onto
print_onto-ne-nil zero n acc h = h
print_onto-ne-nil (suc fuel) n acc h = elim (Bool-cases (ltb n 10)) [
  | inl last ↦ rw last (λ e. cc)
  | inr more ↦ rw more (print_onto-ne-nil fuel (n / 10) ((48 + n % 10) ∷ acc) (λ e. cc))
]

pub to_string-ne-nil : (n : ℕ) → to_string n ≢ []
unfolding to_string print_onto
to_string-ne-nil n = elim (Bool-cases (ltb n 10)) [
  | inl last ↦ rw last (λ e. cc)
  | inr more ↦ rw more (print_onto-ne-nil n (n / 10) ((48 + n % 10) ∷ []) (λ e. cc))
]

parse_u64-IsDigits : (s : Text) → IsDigits s → s ≢ [] → parse_u64 s ≡ parse_digits 0 s
unfolding parse_u64
parse_u64-IsDigits [] h ne = absurd (ne refl)
parse_u64-IsDigits (c ∷ s) h ne = ground arith

-- A number of 64 bits that was printed is read back.
pub parse_u64-to_string : (n : ℕ) → n < u64_mod → parse_u64 (to_string n) ≡ some n
parse_u64-to_string n h =
    parse_u64-IsDigits (to_string n) (to_string-IsDigits n) (to_string-ne-nil n)
    ∙ unfold to_string parse_digits in parse_digits-print_onto (suc n) n [] (omega arith) h

IsDigits-append : (s t : Text) → IsDigits s → IsDigits t → IsDigits (s ++ t)
IsDigits-append [] t hs ht = ht
IsDigits-append (c ∷ s) t (h, hs) ht = (h, IsDigits-append s t hs ht)

IsDigits-reverse : (s : Text) → IsDigits s → IsDigits (reverse s)
IsDigits-reverse [] h = h
IsDigits-reverse (c ∷ s) (h, hs) =
    rw (reverse-append (c ∷ []) s)
      (IsDigits-append (reverse s) (c ∷ []) (IsDigits-reverse s hs) (h, tt))

trim_start-IsDigits : (s : Text) → IsDigits s → trim_start s ≡ s
unfolding trim_start
trim_start-IsDigits [] h = refl
trim_start-IsDigits (c ∷ s) h = ground arith

pub trim-IsDigits : (s : Text) → IsDigits s → trim s ≡ s
unfolding trim
trim-IsDigits s h =
    rw (trim_start-IsDigits s h, trim_start-IsDigits (reverse s) (IsDigits-reverse s h))
      (reverse-reverse s)

pub split-IsDigits : (s : Text) → IsDigits s → split b',' s ≡ s ∷ []
unfolding split
split-IsDigits [] h = refl
split-IsDigits (c ∷ s) h = ground (arith, split-IsDigits s h.1)

pub split-IsDigits_comma :
    (s rest : Text) → IsDigits s → split b',' (s ++ (b',' ∷ rest)) ≡ s ∷ split b',' rest
unfolding split
split-IsDigits_comma [] rest h = ground arith
split-IsDigits_comma (c ∷ s) rest h = ground (arith, split-IsDigits_comma s rest h.1)
