-- ===== src/Oracle/Fragment.antt =====
-- `json_object_fragment` as a whole: it returns a balanced object, or nothing.
use bartok.Base.{
  ℕ, zero, suc, ◌+◌, ◌≤◌, ◌<◌, ◌≡◌, refl, sym, ap, ◌∙◌, inl, inr, true, Bool-cases, Option, none,
  some, [], ◌∷◌, length, arith,
}
use bartok.Text.{Text, codes, find, starts_with, drop, take, shift}
use bartok.Text.Decimal.{u64_mod}
use bartok.Oracle.{quoted, after_key, scan, json_object_fragment, ◌>>=?◌}
use bartok.Oracle.Scan.{Closes, scan-Closes}

>>=?-eq-some :
    {A B : Type 0} (o : Option A) (f : A → Option B) {b : B}
    → (o >>=? f) ≡ some b
    → (a : A) × (o ≡ some a) × (f a ≡ some b)
>>=?-eq-some none f e = cc
>>=?-eq-some (some a) f e = (a, refl, e)

length-drop : (i : ℕ) (s : Text) → length (drop i s) ≤ length s
length-drop zero s = omega arith
length-drop (suc i) [] = omega arith
length-drop (suc i) (c ∷ s) = omega (arith, length-drop i s)

shift-eq-some : (o : Option ℕ) (i : ℕ) → shift o ≡ some i → (k : ℕ) × (o ≡ some k) × (i ≡ suc k)
shift-eq-some none i e = cc
shift-eq-some (some k) i e = (k, refl, cc)

opening : (c : ℕ) (s : Text) → starts_with (codes "{") (c ∷ s) ≡ true → c ≡ b'{'
unfolding starts_with
opening c s h = ground arith

-- Where the brace is found, it stands.
find-drop : (s : Text) (i : ℕ) → find (codes "{") s ≡ some i → (cs : Text) × (drop i s ≡ b'{' ∷ cs)
unfolding find starts_with
find-drop [] i e = cc
find-drop (c ∷ s) i e = elim (Bool-cases (starts_with (codes "{") (c ∷ s))) [
  | inl here ↦
      let start : some 0 ≡ some i = rw (here, find) at e in
      let zero_i : 0 ≡ i = cc in
      let brace : c ≡ b'{' = opening c s here in (s, rw (← zero_i) (ap (λ x. x ∷ s) brace))
  | inr later ↦
      let (k, found, same) = shift-eq-some (find (codes "{") s) i (rw (later, find) at e) in
      let (cs, stands) = find-drop s k found in (cs, rw same stands)
]

-- From the opening brace the scan goes on at depth 1.
scan-open :
    (cs : Text) (n : ℕ) → scan 0 (b'{' ∷ cs) ≡ some n → (k : ℕ) × (scan 1 cs ≡ some k) × (n ≡ suc k)
unfolding scan
scan-open cs n e = shift-eq-some (scan 1 cs) n e

after_key-le : (s key rest : Text) → after_key s key ≡ some rest → length rest ≤ length s
after_key-le s key rest e =
    let (i, found, same) = >>=?-eq-some (find (quoted key) s) _ e in
    let is : drop (i + length (quoted key)) s ≡ rest = cc in
    rw (← is) (length-drop (i + length (quoted key)) s)

-- A fragment that the oracle slices out of a text, which is shorter than 2 ^ 64 by more than one
-- character, is an object: an opening brace, and a text whose braces close what that one opened with
-- its last character and not before.
pub json_object_fragment-Closes :
    (s key fragment : Text)
    → suc (length s) < u64_mod
    → json_object_fragment s key ≡ some fragment
    → (body : Text) × (fragment ≡ b'{' ∷ body) × Closes 1 body
unfolding json_object_fragment
json_object_fragment-Closes s key fragment fits e =
    let (rest, keyed, e1) = >>=?-eq-some (after_key s key) _ e in
    let (start, found, e2) = >>=?-eq-some (find (codes "{") rest) _ e1 in
    let (n, scanned, e3) = >>=?-eq-some (scan 0 (drop start rest)) _ e2 in
    let (cs, stands) = find-drop rest start found in
    let (k, inner, size) = scan-open cs n (ap (scan 0) (sym stands) ∙ scanned) in
    let short : suc (length cs) ≤ length rest =
      rw (ap length (sym stands)) (length-drop start rest) in
    let is : take n (drop start rest) ≡ fragment = cc in
    let sliced : take n (drop start rest) ≡ b'{' ∷ take k cs = (λ i. take (size i) (stands i)) in
    (
      take k cs,
      sym is ∙ sliced,
      scan-Closes 1 cs k (omega arith) (omega (arith, after_key-le s key rest keyed)) inner,
    )
