-- ===== src/Prelude/Lists.antt =====
-- Lists measured and indexed by native numbers, with the Boolean walks that the source makes
-- (`some`, `every`, `filter`), and predicates by recursion.
use Prim.Native.Nat.{ℕ, zero, suc, ◌+◌, ◌≤◌, ◌<◌}
use mathlib.Core.Path.{◌≡◌, refl, sym, ap, subst}
use mathlib.Core.Logic.{◌⊎◌, inl, inr}
use mathlib.Core.Bool.{Bool, true, false, not, ◌||◌}
use mathlib.Core.List.{List, [], ◌∷◌, ◌++◌, reverse, reverse-cons}
use mathlib.Core.Option.{Option, none, some, some-injective}
use native.Mathlib.Omega.{arith}
use hellodac.Prelude.Tests.{if◌then◌else◌, Bool-cases}

module _ {ℓ} {A : Type ℓ} where
  abbrev pub length : List A → ℕ
  length [] = 0
  length (x ∷ xs) = suc (length xs)

  abbrev pub get_elem? : List A → ℕ → Option A
  get_elem? [] i = none
  get_elem? (x ∷ xs) zero = some x
  get_elem? (x ∷ xs) (suc i) = get_elem? xs i

  abbrev pub take : ℕ → List A → List A
  take zero xs = []
  take (suc n) [] = []
  take (suc n) (x ∷ xs) = x ∷ take n xs

  abbrev pub head? : List A → Option A
  head? [] = none
  head? (x ∷ xs) = some x

  abbrev pub any : (A → Bool) → List A → Bool
  any p [] = false
  any p (x ∷ xs) = p x || any p xs

  abbrev pub keep_if : (A → Bool) → List A → List A
  keep_if p [] = []
  keep_if p (x ∷ xs) = if p x then x ∷ keep_if p xs else keep_if p xs

  abbrev pub find_if : (A → Bool) → List A → Option A
  find_if p [] = none
  find_if p (x ∷ xs) = if p x then some x else find_if p xs

  abbrev pub count_if : (A → Bool) → List A → ℕ
  count_if p [] = 0
  count_if p (x ∷ xs) = if p x then suc (count_if p xs) else count_if p xs

  abbrev pub sum_by : (A → ℕ) → List A → ℕ
  sum_by f [] = 0
  sum_by f (x ∷ xs) = f x + sum_by f xs

  abbrev pub All {κ} : (A → Type κ) → List A → Type κ
  All P [] = Unit
  All P (x ∷ xs) = P x × All P xs

  pub length-append : (xs ys : List A) → length (xs ++ ys) ≡ length xs + length ys
  length-append [] ys = omega arith
  length-append (x ∷ xs) ys = omega (arith, length-append xs ys)

-- Membership with its position kept.
abbrev pub In : {A : Type 0} → A → List A → Type 0
In a [] = ⊥
In a (x ∷ xs) = (a ≡ x) ⊎ In a xs

module _ {A : Type 0} where
  pub All-imp : (P Q : A → Type 0) → ((a : A) → P a → Q a) → (xs : List A) → All P xs → All Q xs
  All-imp P Q f [] h = tt
  All-imp P Q f (x ∷ xs) h = (f x h.0, All-imp P Q f xs h.1)

  pub All-In : (xs : List A) → All (λ a. In a xs) xs
  All-In [] = tt
  All-In (x ∷ xs) =
      (inl refl, All-imp (λ a. In a xs) (λ a. In a (x ∷ xs)) (λ a. inr) xs (All-In xs))

  pub All_of_In : (P : A → Type 0) (xs : List A) {a : A} → All P xs → In a xs → P a
  All_of_In P [] h m = elim m [ ]
  All_of_In P (x ∷ xs) h (inl e) = subst P (sym e) h.0
  All_of_In P (x ∷ xs) h (inr m) = All_of_In P xs h.1 m

  -- What a filter keeps stood in the list and passes the test.
  pub keep_if-All : (p : A → Bool) (xs : List A) → All (λ a. In a xs × (p a ≡ true)) (keep_if p xs)
  keep_if-All p [] = tt
  keep_if-All p (x ∷ xs) =
      let rest : All (λ a. In a (x ∷ xs) × (p a ≡ true)) (keep_if p xs) =
        All-imp (λ a. In a xs × (p a ≡ true)) (λ a. In a (x ∷ xs) × (p a ≡ true))
          (λ a h. (inr h.0, h.1)) (keep_if p xs) (keep_if-All p xs) in
      elim (Bool-cases (p x)) [ inl e ↦ rw e ((inl refl, e), rest) | inr e ↦ rw e rest ]

  -- What holds of all that a filter keeps holds of each entry that passes the test.
  pub keep_if-All_back :
      (p : A → Bool) (P : A → Type 0) (xs : List A)
      → All P (keep_if p xs)
      → All (λ a. p a ≡ true → P a) xs
  keep_if-All_back p P [] h = tt
  keep_if-All_back p P (x ∷ xs) h = elim (Bool-cases (p x)) [
    | inl e ↦
        let k : All P (x ∷ keep_if p xs) = rw e at h in (λ _. k.0, keep_if-All_back p P xs k.1)
    | inr e ↦ let k : All P (keep_if p xs) = rw e at h in (λ t. cc, keep_if-All_back p P xs k)
  ]

  pub length-keep_if-le : (p : A → Bool) (xs : List A) → length (keep_if p xs) ≤ length xs
  length-keep_if-le p [] = omega arith
  length-keep_if-le p (x ∷ xs) = ground (arith, length-keep_if-le p xs)

  pub All-get_elem? :
      (P : A → Type 0) (xs : List A) (i : ℕ) {a : A} → All P xs → get_elem? xs i ≡ some a → P a
  All-get_elem? P [] i h e = cc
  All-get_elem? P (x ∷ xs) zero h e = subst P (some-injective _ _ e) h.0
  All-get_elem? P (x ∷ xs) (suc i) h e = All-get_elem? P xs i h.1 e

  pub get_elem?-some : (xs : List A) (i : ℕ) → i < length xs → (a : A) × (get_elem? xs i ≡ some a)
  get_elem?-some [] i h = elim h [ ]
  get_elem?-some (x ∷ xs) zero h = (x, refl)
  get_elem?-some (x ∷ xs) (suc i) h = get_elem?-some xs i (omega arith)

  pub get_elem?-In : (xs : List A) (i : ℕ) {a : A} → get_elem? xs i ≡ some a → In a xs
  get_elem?-In [] i e = cc
  get_elem?-In (x ∷ xs) zero e = inl (sym (some-injective _ _ e))
  get_elem?-In (x ∷ xs) (suc i) e = inr (get_elem?-In xs i e)

  pub get_elem?-lt : (xs : List A) (i : ℕ) {a : A} → get_elem? xs i ≡ some a → i < length xs
  get_elem?-lt [] i e = cc
  get_elem?-lt (x ∷ xs) zero e = omega arith
  get_elem?-lt (x ∷ xs) (suc i) e = omega (arith, get_elem?-lt xs i e)

  pub length-reverse : (xs : List A) → length (reverse xs) ≡ length xs
  length-reverse [] = refl
  length-reverse (x ∷ xs) =
      omega (
        arith,
        ap length (reverse-cons x xs),
        length-append (reverse xs) (x ∷ []),
        length-reverse xs,
      )

  -- A test splits a list in two.
  pub length-keep_if-not :
      (p : A → Bool) (xs : List A)
      → length (keep_if (λ a. not (p a)) xs) + length (keep_if p xs) ≡ length xs
  length-keep_if-not p [] = refl
  length-keep_if-not p (x ∷ xs) = ground (arith, length-keep_if-not p xs)

  pub length-take-le : (n : ℕ) (xs : List A) → n ≤ length xs → length (take n xs) ≡ n
  length-take-le zero xs h = refl
  length-take-le (suc n) [] h = omega arith
  length-take-le (suc n) (x ∷ xs) h = omega (arith, length-take-le n xs (omega arith))

  pub All-append : (P : A → Type 0) (xs ys : List A) → All P xs → All P ys → All P (xs ++ ys)
  All-append P [] ys h k = k
  All-append P (x ∷ xs) ys h k = (h.0, All-append P xs ys h.1 k)

  pub All-take : (P : A → Type 0) (n : ℕ) (xs : List A) → All P xs → All P (take n xs)
  All-take P zero xs h = tt
  All-take P (suc n) [] h = tt
  All-take P (suc n) (x ∷ xs) h = (h.0, All-take P n xs h.1)

  pub keep_if-All_keep :
      (p : A → Bool) (P : A → Type 0) (xs : List A) → All P xs → All P (keep_if p xs)
  keep_if-All_keep p P [] h = tt
  keep_if-All_keep p P (x ∷ xs) h = ground (arith, keep_if-All_keep p P xs h.1)

  pub All-reverse : (P : A → Type 0) (xs : List A) → All P xs → All P (reverse xs)
  All-reverse P [] h = tt
  All-reverse P (x ∷ xs) h =
      rw (reverse-cons x xs) (All-append P (reverse xs) (x ∷ []) (All-reverse P xs h.1) (h.0, tt))
