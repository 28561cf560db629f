-- ===== src/Base/Results.antt =====
-- `Result` of the fallible code: a value, or the message of the error. `bail!`, `?`, `.context`,
-- `expect` and a failed `assert!` all end the program with a message.
use Prim.Native.String.{String}
use mathlib.Core.Path.{◌≡◌, refl}
use mathlib.Core.Logic.{◌⊎◌, inl, inr}
use mathlib.Core.Bool.{Bool, true, false}
use mathlib.Core.List.{List, [], ◌∷◌}
use mathlib.Core.Option.{Option, none, some}

pub data Result {ℓ} (A : Type ℓ) : Type ℓ where
  ok : A → Result A
  err : String → Result A

infixl 5 ◌>>=◌
abbrev pub ◌>>=◌ {ℓ κ} : {X : Type ℓ} {Y : Type κ} → Result X → (X → Result Y) → Result Y
err message >>= next = err message
ok x >>= next = next x

-- `option.context(message)?`, and `option.unwrap()`
abbrev pub context {ℓ} : {X : Type ℓ} → Option X → String → Result X
context (some x) message = ok x
context none message = err message

-- `assert!(test, message)`, `ensure!(test, message)`
abbrev pub ensure : Bool → String → Result (Unit {0})
ensure false message = err message
ensure true message = ok tt

infixl 5 ◌>>◌
abbrev pub ◌>>◌ {κ} : {Y : Type κ} → Result (Unit {0}) → Result Y → Result Y
first >> next = first >>= λ done. next

-- `iter.map(f).collect::<Result<Vec<_>>>()`, which stops at the first error.
abbrev pub collect {ℓ κ} : {A : Type ℓ} {B : Type κ} → (A → Result B) → List A → Result (List B)
collect f [] = ok []
collect f (x ∷ xs) = f x >>= λ y. (collect f xs >>= λ ys. ok (y ∷ ys))

pub >>=-eq-ok {ℓ κ} :
    {X : Type ℓ} {Y : Type κ} (first : Result X) (next : X → Result Y) {y : Y}
    → (first >>= next) ≡ ok y
    → (x : X) × (first ≡ ok x) × (next x ≡ ok y)
>>=-eq-ok (err message) next done = cc
>>=-eq-ok (ok x) next done = (x, refl, done)

pub Result-cases {ℓ} :
    {A : Type ℓ} (r : Result A) → ((a : A) × (r ≡ ok a)) ⊎ ((e : String) × (r ≡ err e))
Result-cases (ok a) = inl (a, refl)
Result-cases (err e) = inr (e, refl)

pub context-eq-ok {ℓ κ} :
    {A : Type ℓ} {B : Type κ} (o : Option A) (e : String) (f : A → Result B) {b : B}
    → (context o e >>= f) ≡ ok b
    → (a : A) × (o ≡ some a) × (f a ≡ ok b)
context-eq-ok none e f h = cc
context-eq-ok (some a) e f h = (a, refl, h)

pub ensure-eq-ok {κ} :
    {B : Type κ} (t : Bool) (e : String) (k : Result B) {b : B}
    → (ensure t e >> k) ≡ ok b
    → (t ≡ true) × (k ≡ ok b)
ensure-eq-ok true e k h = (refl, h)
ensure-eq-ok false e k h = cc

pub ok_inj {ℓ} : {A : Type ℓ} {a b : A} → ok a ≡ ok b → a ≡ b
ok_inj h = cc
