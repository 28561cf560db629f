-- ===== src/Tests/Docs.antt =====
-- A JSON library whose values are trees, printed in postfix order.
use bartok.Base.{
  ℕ, zero, suc, ◌≡◌, ◌≢◌, refl, sym, ap, ◌∙◌, Bool, true, false, Bool-cases, inl, inr, Option, none,
  some, List, [], ◌∷◌, ◌++◌, if◌then◌else◌,
}
use bartok.Text.{Text, text_eq}
use bartok.Text.Laws.{text_eq_iff}
use bartok.Setup.{JsonDoc}
use bartok.Tests.Chain.{Raw, JsonLib, host_with}

-- An object is its last field before the others.
pub data Doc : Type 0 where
  null : Doc
  text : Text → Doc
  number : ℕ → Doc
  field : Text → Doc → Doc → Doc

unfoldable pub index : Doc → Text → Doc
index (field k v d) q = if text_eq q k then v else index d q
index _ q = null

abbrev pub is_object : Doc → Bool
is_object null = true
is_object (field k v d) = true
is_object _ = false

abbrev pub set_field : Bool → Doc → Text → Doc → Option Doc
set_field true d k v = some (field k v d)
set_field false d k v = none

abbrev pub set : Doc → Text → Doc → Option Doc
set d k v = set_field (is_object d) d k v

abbrev pub str_of : Doc → Option Text
str_of (text t) = some t
str_of _ = none

abbrev pub number_of : Doc → Option ℕ
number_of (number n) = some n
number_of _ = none

unfoldable pub spell : Text → Text
spell [] = 1 ∷ []
spell (c ∷ t) = spell t ++ suc (suc (suc (suc (suc c)))) ∷ []

unfoldable pub count : ℕ → Text
count zero = 2 ∷ []
count (suc n) = count n ++ 3 ∷ []

unfoldable pub print : Doc → Text
print null = 0 ∷ []
print (text t) = spell t
print (number n) = count n
print (field k v d) = print v ++ (print d ++ (spell k ++ 4 ∷ []))

unfoldable pub step : ℕ → List Doc → List Doc
step zero st = null ∷ st
step (suc zero) st = text [] ∷ st
step (suc (suc zero)) st = number 0 ∷ st
step (suc (suc (suc zero))) (number n ∷ st) = number (suc n) ∷ st
step (suc (suc (suc (suc zero)))) (text k ∷ d ∷ v ∷ st) = field k v d ∷ st
step (suc (suc (suc (suc (suc c))))) (text t ∷ st) = text (c ∷ t) ∷ st
step _ st = st

unfoldable pub read : Text → List Doc → List Doc
read [] st = st
read (c ∷ cs) st = read cs (step c st)

abbrev pub top : List Doc → Option Doc
top [] = none
top (d ∷ _) = some d

read_append : (s t : Text) (st : List Doc) → read (s ++ t) st ≡ read t (read s st)
unfolding read
read_append [] t st = refl
read_append (c ∷ s) t st = read_append s t (step c st)

read-spell : (t : Text) (st : List Doc) → read (spell t) st ≡ text t ∷ st
unfolding spell read step
read-spell [] st = refl
read-spell (c ∷ t) st =
    rw (read_append (spell t) (suc (suc (suc (suc (suc c)))) ∷ []) st, read-spell t st)

read-count : (n : ℕ) (st : List Doc) → read (count n) st ≡ number n ∷ st
unfolding count read step
read-count zero st = refl
read-count (suc n) st = rw (read_append (count n) (3 ∷ []) st, read-count n st)

read-print : (d : Doc) (st : List Doc) → read (print d) st ≡ d ∷ st
unfolding print read step
read-print null st = refl
read-print (text t) st = read-spell t st
read-print (number n) st = read-count n st
read-print (field k v d) st =
    read_append (print v) (print d ++ (spell k ++ 4 ∷ [])) st
    ∙ ap (read (print d ++ (spell k ++ 4 ∷ []))) (read-print v st)
    ∙ read_append (print d) (spell k ++ 4 ∷ []) (v ∷ st)
    ∙ ap (read (spell k ++ 4 ∷ [])) (read-print d (v ∷ st))
    ∙ read_append (spell k) (4 ∷ []) (d ∷ v ∷ st)
    ∙ ap (read (4 ∷ [])) (read-spell k (d ∷ v ∷ st))

pub set_made :
    (d : Doc) (k : Text) (v : Doc) → is_object d ≡ true → (d' : Doc) × (set d k v ≡ some d')
set_made d k v is = (field k v d, ap (λ b. set_field b d k v) is)

pub field_of : (d : Doc) (k : Text) (v d' : Doc) → set d k v ≡ some d' → field k v d ≡ d'
field_of null k v d' e = cc
field_of (text t) k v d' e = cc
field_of (number n) k v d' e = cc
field_of (field q u d) k v d' e = cc

pub set-is_object : (d : Doc) (k : Text) (v d' : Doc) → set d k v ≡ some d' → is_object d' ≡ true
set-is_object d k v d' e = ap is_object (sym (field_of d k v d' e))

pub index-set : (d : Doc) (k : Text) (v d' : Doc) → set d k v ≡ some d' → index d' k ≡ v
unfolding index
index-set d k v d' e = rw (← field_of d k v d' e, (text_eq_iff k k).1 refl)

pub index-set_other :
    (d : Doc) (k q : Text) (v d' : Doc) → q ≢ k → set d k v ≡ some d' → index d' q ≡ index d q
unfolding index
index-set_other d k q v d' differ e = elim (Bool-cases (text_eq q k)) [
  | inl same ↦ absurd (differ ((text_eq_iff q k).0 same))
  | inr other ↦ rw (← field_of d k v d' e, other)
]

pub parse-print :
    (d : Doc) (t : Text)
    → ◌≡◌ {A = Option Text} (some (print d)) (some t)
    → top (read t []) ≡ some d
parse-print d t e =
    let same : print d ≡ t = cc in ap top (ap (λ x. read x []) (sym same) ∙ read-print d [])

abbrev pub docs : JsonLib
docs = record {
  Value = Doc;
  parse = λ t. top (read t []);
  index = index;
  as_str = str_of;
  as_u64 = number_of;
}

abbrev pub doc_lib : (d : Text → Option Raw) → JsonDoc (host_with docs d)
doc_lib d = record {
  empty_object = null;
  is_object = is_object;
  set = set;
  of_text = text;
  of_number = number;
  pretty = λ x. some (print x);
  empty_is_object = refl;
  set_object = set_made;
  set_is_object = set-is_object;
  index_set = index-set;
  index_set_other = index-set_other;
  pretty_total = λ x. (print x, refl);
  str_of_text = λ t. refl;
  u64_of_number = λ n fits. refl;
  parse_pretty = parse-print;
}
