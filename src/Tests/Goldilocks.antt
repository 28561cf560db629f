-- ===== src/Tests/Goldilocks.antt =====
-- The field of the Miden virtual machine, as an instance of `Felts`.
use mathlib.Core.HLevel.{Σ_prop_path}
use native.Mathlib.Bridge.{le_prop}
use native.Mathlib.Decide.{dec_lt}
use bartok.Base.{ℕ, ◌+◌, ◌-◌, ◌%◌, ◌^◌, ◌<◌, ◌≡◌, refl, sym, ap, Option, none, some, arith}
use bartok.Miden.{Felts}

abbrev pub prime : ℕ
prime = 2 ^ 64 - 2 ^ 32 + 1

abbrev pub Element : Type 0
Element = (v : ℕ) × (v < prime)

from_dec : (v : ℕ) → Dec (v < prime) → Option Element
from_dec v (yes h) = some (v, h)
from_dec v (no h) = none

unfoldable pub new : ℕ → Option Element
unfolding from_dec dec_lt
new v = from_dec v (dec_lt v prime)

pub Element-eq : (a b : Element) → a.0 ≡ b.0 → a ≡ b
Element-eq a b e = Σ_prop_path (λ n. le_prop) e

from_dec-canonical : (a : Element) (d : Dec (a.0 < prime)) → from_dec a.0 d ≡ some a
unfolding from_dec
from_dec-canonical a (yes h) = ap some (Element-eq (a.0, h) a refl)
from_dec-canonical a (no h) = absurd (h a.1)

from_dec-value : (v : ℕ) (a : Element) (d : Dec (v < prime)) → from_dec v d ≡ some a → a.0 ≡ v
unfolding from_dec
from_dec-value v a (yes h) e =
    sym (ap (λ (o : Option Element). elim o [ none ↦ a.0 | some b ↦ b.0 ]) e)
from_dec-value v a (no h) e = cc

from_dec-lt : (v : ℕ) (d : Dec (v < prime)) → v < prime → (a : Element) × (from_dec v d ≡ some a)
unfolding from_dec
from_dec-lt v (yes h) l = ((v, h), refl)
from_dec-lt v (no h) l = absurd (h l)

pub new_canonical : (a : Element) → new a.0 ≡ some a
unfolding new
new_canonical a = from_dec-canonical a (dec_lt a.0 prime)

pub canonical_new : (v : ℕ) (a : Element) → new v ≡ some a → a.0 ≡ v
unfolding new
canonical_new v a e = from_dec-value v a (dec_lt v prime) e

pub new_lt : (v : ℕ) → v < prime → (a : Element) × (new v ≡ some a)
unfolding new
new_lt v l = from_dec-lt v (dec_lt v prime) l

pub mod_prime-lt : (v : ℕ) → v % prime < prime
mod_prime-lt v = omega arith

-- The element of a number, reduced.
abbrev pub reduce : ℕ → Element
reduce v = (v % prime, mod_prime-lt v)

abbrev pub goldilocks : Felts
goldilocks = record {
  Felt = Element;
  modulus = prime;
  felt_new = new;
  as_canonical_u64 = λ a. a.0;
  felt_zero = reduce 0;
  felt_sub = λ a b. reduce (a.0 + prime - b.0);
  canonical_lt = λ a. a.1;
  new_canonical = new_canonical;
  canonical_new = canonical_new;
  new_lt = new_lt;
  canonical_sub = λ a b. refl;
}
