-- ===== src/Base/Lists.antt =====
-- Lists measured and indexed by native numbers, under the library's names.
use Prim.Native.Nat.{ℕ, zero, suc, ◌+◌, ◌≤◌, ◌<◌}
use mathlib.Core.Path.{◌≡◌, refl, ap, subst}
use mathlib.Core.List.{List, [], ◌∷◌, ◌++◌, map}
use mathlib.Core.Logic.{inl, inr}
use mathlib.Core.Bool.{Bool, false, ◌||◌}
use native.Mathlib.Omega.{arith}
use cpp_gossip.Base.Tests.{if◌then◌else◌, ◌==◌, Bool-cases}

module _ {ℓ} {A : Type ℓ} where
  abbrev pub length : List A → ℕ
  length [] = 0
  length (x ∷ xs) = suc (length xs)

  abbrev pub get_or : List A → ℕ → A → A
  get_or [] i d = d
  get_or (x ∷ xs) zero d = x
  get_or (x ∷ xs) (suc i) d = get_or xs i d

  -- A write out of bounds changes nothing.
  abbrev pub set : List A → ℕ → A → List A
  set [] i v = []
  set (x ∷ xs) zero v = v ∷ xs
  set (x ∷ xs) (suc i) v = x ∷ set xs i v

  abbrev pub drop : ℕ → List A → List A
  drop zero xs = xs
  drop (suc n) [] = []
  drop (suc n) (x ∷ xs) = drop n xs

  abbrev pub take : ℕ → List A → List A
  take zero l = []
  take (suc n) [] = []
  take (suc n) (a ∷ l) = a ∷ take n l

  -- The elements that pass a test.
  abbrev pub keep : (A → Bool) → List A → List A
  keep p [] = []
  keep p (x ∷ xs) = if p x then x ∷ keep p xs else keep p xs

  abbrev pub any : (A → Bool) → List A → Bool
  any p [] = false
  any p (x ∷ xs) = p x || any p xs

  -- A predicate of every element.
  abbrev pub All {κ} : (A → Type κ) → List A → Type κ
  All P [] = Unit
  All P (x ∷ xs) = P x × All P xs

  pub take_of_length-le : (n : ℕ) (l : List A) → length l ≤ n → take n l ≡ l
  take_of_length-le zero [] small = refl
  take_of_length-le zero (a ∷ l) small = absurd (omega arith)
  take_of_length-le (suc n) [] small = refl
  take_of_length-le (suc n) (a ∷ l) small = ap (◌∷◌ a) (take_of_length-le n l (omega arith))

  pub length-take-le : (n : ℕ) (l : List A) → n ≤ length l → n ≤ length (take n l)
  length-take-le zero l h = omega arith
  length-take-le (suc n) [] h = absurd (omega arith)
  length-take-le (suc n) (a ∷ l) h = omega (arith, length-take-le n l (omega arith))

  pub length-append : (xs ys : List A) → length (xs ++ ys) ≡ length xs + length ys
  length-append [] ys = omega arith
  length-append (x ∷ xs) ys = omega (arith, length-append xs ys)

  pub length-set : (xs : List A) (i : ℕ) (v : A) → length (set xs i v) ≡ length xs
  length-set [] i v = refl
  length-set (x ∷ xs) zero v = refl
  length-set (x ∷ xs) (suc i) v = ap suc (length-set xs i v)

  pub length-keep-le : (p : A → Bool) (xs : List A) → length (keep p xs) ≤ length xs
  length-keep-le p [] = omega arith
  length-keep-le p (x ∷ xs) = ground (arith, length-keep-le p xs)

  pub All-append {κ} : (P : A → Type κ) (xs ys : List A) → All P xs → All P ys → All P (xs ++ ys)
  All-append P [] ys h k = k
  All-append P (x ∷ xs) ys h k = (h.0, All-append P xs ys h.1 k)

  pub All-keep {κ} : (P : A → Type κ) (p : A → Bool) (xs : List A) → All P xs → All P (keep p xs)
  All-keep P p [] h = h
  All-keep P p (x ∷ xs) h = ground (arith, All-keep P p xs h.1)

  pub All-imp {κ μ} :
      (P : A → Type κ) (Q : A → Type μ) (xs : List A) → ((a : A) → P a → Q a) → All P xs → All Q xs
  All-imp P Q [] f h = tt
  All-imp P Q (x ∷ xs) f h = (f x h.0, All-imp P Q xs f h.1)

-- How often a number stands in a list.
abbrev pub count : ℕ → List ℕ → ℕ
count a [] = 0
count a (x ∷ xs) = if x == a then suc (count a xs) else count a xs

pub count-append : (k : ℕ) (l m : List ℕ) → count k (l ++ m) ≡ count k l + count k m
count-append k [] m = omega arith
count-append k (x ∷ l) m = ground (arith, count-append k l m)

-- A write trades one occurrence for another.
pub count-set :
    (a : ℕ) (xs : List ℕ) (i v d : ℕ)
    → i < length xs
    → count a (set xs i v) + count a (get_or xs i d ∷ []) ≡ count a xs + count a (v ∷ [])
count-set a [] i v d h = elim h [ ]
count-set a (x ∷ xs) zero v d h = ground arith
count-set a (x ∷ xs) (suc i) v d h = ground (arith, count-set a xs i v d (omega arith))

pub get_or-append :
    (xs ys : List ℕ) (i d : ℕ) → i < length xs → get_or (xs ++ ys) i d ≡ get_or xs i d
get_or-append [] ys i d h = elim h [ ]
get_or-append (x ∷ xs) ys zero d h = refl
get_or-append (x ∷ xs) ys (suc i) d h = get_or-append xs ys i d (omega arith)

-- The list has this element.
pub data Has {ℓ} {A : Type ℓ} (x : A) : List A → Type ℓ where
  at_head : {l : List A} → Has x (x ∷ l)
  in_tail : {y : A} {l : List A} → Has x l → Has x (y ∷ l)

pub Has-map {ℓ κ} :
    {A : Type ℓ} {B : Type κ} (f : A → B) {x : A} {l : List A} → Has x l → Has (f x) (map f l)
Has-map f at_head = at_head
Has-map f (in_tail h) = in_tail (Has-map f h)

pub Has-count : (q : ℕ) (l : List ℕ) → 0 < count q l → Has q l
Has-count q [] h = elim h [ ]
Has-count q (x ∷ l) h = elim (Bool-cases (x == q)) [
  | inl e ↦ subst (λ y. Has y (x ∷ l)) (ground (arith, e)) at_head
  | inr e ↦ in_tail (Has-count q l (ground (arith, h, e)))
]

pub count-Has : {q : ℕ} {l : List ℕ} → Has q l → 0 < count q l
count-Has at_head = ground arith
count-Has (in_tail h) = ground (arith, count-Has h)
