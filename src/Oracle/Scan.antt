-- ===== src/Oracle/Scan.antt =====
-- The fragment that the oracle slices out of a partly disclosed response.
use bartok.Base.{
  ℕ, zero, suc, ◌+◌, ◌-◌, ◌<◌, ◌≡◌, ◌≢◌, inl, inr, false, ◌&&◌, some, [], ◌∷◌, Bool-cases,
  Option-cases, ◌==◌, if◌then◌else◌, length, arith,
}
use bartok.Text.{Text, take}
use bartok.Text.Decimal.{u64_mod}
use bartok.Oracle.{next_depth, scan}

-- The depth of braces behind a character, without wrap-around.
abbrev pub depth_after : ℕ → ℕ → ℕ
depth_after depth c = if c == b'{' then depth + 1 else if c == b'}' then depth - 1 else depth

-- Read from a depth, the braces of the text close with its last character and not before.
abbrev pub Closes : ℕ → Text → Type 0
Closes depth [] = ⊥
Closes depth (c ∷ []) = (c ≡ b'}') × (depth ≡ 1)
Closes depth (c ∷ d ∷ cs) = (0 < depth_after depth c) × Closes (depth_after depth c) (d ∷ cs)

next_depth-depth_after :
    (depth c : ℕ) → 0 < depth → depth + 1 < u64_mod → next_depth depth c ≡ depth_after depth c
next_depth-depth_after depth c pos fits = ground arith

scan-ne-zero : (depth : ℕ) (s : Text) → scan depth s ≢ some 0
unfolding scan
scan-ne-zero depth [] e = cc
scan-ne-zero depth (c ∷ cs) e = ground arith

-- One round of the loop that goes on.
scan-suc :
    (depth c n : ℕ) (cs : Text)
    → (c == b'}' && next_depth depth c == 0) ≡ false
    → scan depth (c ∷ cs) ≡ some n
    → (k : ℕ) × (n ≡ suc (suc k)) × (scan (next_depth depth c) cs ≡ some (suc k))
unfolding scan
scan-suc depth c n cs more e = elim (Option-cases (scan (next_depth depth c) cs)) [
  | inl endless ↦ cc (rw (more, endless, scan) at e)
  | inr (zero, closed) ↦ absurd (scan-ne-zero (next_depth depth c) cs closed)
  | inr (suc k, closed) ↦
      let found : some (suc (suc k)) ≡ some n = rw (more, closed, scan) at e in (k, cc, closed)
]

still_open :
    (depth c : ℕ)
    → 0 < depth
    → depth + 1 < u64_mod
    → (c == b'}' && next_depth depth c == 0) ≡ false
    → 0 < depth_after depth c
still_open depth c pos fits more = ground arith

Closes-cons :
    (depth c k : ℕ) (cs : Text)
    → 0 < depth_after depth c
    → scan (depth_after depth c) cs ≡ some (suc k)
    → Closes (depth_after depth c) (take (suc k) cs)
    → Closes depth (take (suc (suc k)) (c ∷ cs))
Closes-cons depth c k [] stays found closes = unfold scan in cc
Closes-cons depth c k (d ∷ cs) stays found closes = (stays, closes)

-- From a depth that is not zero the loop stops at the brace that closes it, and the depth never
-- falls below zero on the way.
pub scan-Closes :
    (depth : ℕ) (s : Text) (n : ℕ)
    → 0 < depth
    → depth + length s < u64_mod
    → scan depth s ≡ some n
    → Closes depth (take n s)
scan-Closes depth [] n pos fits e = unfold scan in cc
scan-Closes depth (c ∷ cs) n pos fits e = elim (Bool-cases (c == b'}' && next_depth depth c == 0)) [
  | inl last ↦
      unfold scan in
      (let found : some 1 ≡ some n = rw (last, scan) at e in
        let one : 1 ≡ n = cc in rw (← one) (ground arith))
  | inr more ↦
      let (k, size, closed) = scan-suc depth c n cs more e in
      let same : next_depth depth c ≡ depth_after depth c =
        next_depth-depth_after depth c pos (omega arith) in
      let stays : 0 < depth_after depth c = still_open depth c pos (omega arith) more in
      rw size (
        Closes-cons depth c k cs stays (rw same at closed)
          (scan-Closes (depth_after depth c) cs (suc k) stays (ground arith) (rw same at closed)))
]
