-- ===== src/Prelude/Sort.antt =====
-- `Array.prototype.sort` with a comparator: a stable sort, as insertion sort.
use mathlib.Core.Option.{some-injective}
use mathlib.Core.Path.{subst}
use hellodac.Prelude.{
  sym, ℕ, ◌≡◌, refl, suc, List, [], ◌∷◌, Ordering, compare, arith, length, All, In, All-In,
  All-append, ◌++◌, head?, some, none, ◌≢◌,
}

-- `if (c !== 0) return c` and then the next comparison.
abbrev pub then_by : Ordering → Ordering → Ordering
then_by Ordering.eq o = o
then_by Ordering.lt o = Ordering.lt
then_by Ordering.gt o = Ordering.gt

abbrev pub opposite : Ordering → Ordering
opposite Ordering.eq = Ordering.eq
opposite Ordering.lt = Ordering.gt
opposite Ordering.gt = Ordering.lt

-- What `sort` asks of a comparator.
pub record IsComparator {ℓ} {A : Type ℓ} (cmp : A → A → Ordering) : Type ℓ where
  pub flip : (a b : A) → cmp b a ≡ opposite (cmp a b)
  pub lt_trans : (a b c : A) → cmp a b ≡ Ordering.lt → cmp b c ≡ Ordering.lt → cmp a c ≡ Ordering.lt
  pub lt_eq : (a b c : A) → cmp a b ≡ Ordering.lt → cmp b c ≡ Ordering.eq → cmp a c ≡ Ordering.lt
  pub eq_lt : (a b c : A) → cmp a b ≡ Ordering.eq → cmp b c ≡ Ordering.lt → cmp a c ≡ Ordering.lt
  pub eq_eq : (a b c : A) → cmp a b ≡ Ordering.eq → cmp b c ≡ Ordering.eq → cmp a c ≡ Ordering.eq

-- Comparison of a number that is read off each entry.
pub by_key-IsComparator {ℓ} :
    {A : Type ℓ} (key : A → ℕ) → IsComparator (λ (a b : A). compare (key a) (key b))
by_key-IsComparator key = record {
  flip = λ a b. ground arith;
  lt_trans = λ a b c p q. ground arith;
  lt_eq = λ a b c p q. ground arith;
  eq_lt = λ a b c p q. ground arith;
  eq_eq = λ a b c p q. ground arith;
}

-- A comparison that falls back on another one is a comparison.
pub then_by-IsComparator {ℓ} :
    {A : Type ℓ} (f g : A → A → Ordering)
    → IsComparator f
    → IsComparator g
    → IsComparator (λ a b. then_by (f a b) (g a b))
then_by-IsComparator f g F G = record {
  flip = λ a b. ground (arith, F.flip a b, G.flip a b);
  lt_trans = λ a b c p q.
      ground
        (arith, F.lt_trans a b c, F.lt_eq a b c, F.eq_lt a b c, F.eq_eq a b c, G.lt_trans a b c);
  lt_eq = λ a b c p q. ground (arith, F.lt_eq a b c, F.eq_eq a b c, G.lt_eq a b c);
  eq_lt = λ a b c p q. ground (arith, F.eq_lt a b c, F.eq_eq a b c, G.eq_lt a b c);
  eq_eq = λ a b c p q. ground (arith, F.eq_eq a b c, G.eq_eq a b c);
}

module _ {ℓ} {A : Type ℓ} (cmp : A → A → Ordering) where
  -- An entry goes in front of those that compare equal to it.
  unfoldable pub insert_by : A → List A → List A
  insert_by x [] = x ∷ []
  insert_by x (y ∷ ys) = elim (cmp x y) [ Ordering.gt ↦ y ∷ insert_by x ys | _ ↦ x ∷ y ∷ ys ]

  unfoldable pub sort_by : List A → List A
  unfolding insert_by
  sort_by [] = []
  sort_by (x ∷ xs) = insert_by x (sort_by xs)

-- `a` may stand in front of `b`.
abbrev pub NotAfter {ℓ} : {A : Type ℓ} → (A → A → Ordering) → A → A → Type 0
NotAfter cmp a b = cmp a b ≢ Ordering.gt

abbrev pub IsSorted : {A : Type 0} → (A → A → Ordering) → List A → Type 0
IsSorted cmp [] = Unit
IsSorted cmp (x ∷ xs) = All (NotAfter cmp x) xs × IsSorted cmp xs

module _ {A : Type 0} (cmp : A → A → Ordering) where
  insert_by-All :
      (P : A → Type 0) (x : A) (xs : List A) → P x → All P xs → All P (insert_by cmp x xs)
  unfolding insert_by
  insert_by-All P x [] h hs = (h, tt)
  insert_by-All P x (y ∷ ys) h hs = ground (arith, insert_by-All P x ys h hs.1)

  -- Sorting keeps what holds of every entry.
  pub sort_by-All : (P : A → Type 0) (xs : List A) → All P xs → All P (sort_by cmp xs)
  unfolding sort_by
  sort_by-All P [] hs = tt
  sort_by-All P (x ∷ xs) hs = insert_by-All P x (sort_by cmp xs) hs.0 (sort_by-All P xs hs.1)

  insert_by-All_back :
      (P : A → Type 0) (x : A) (xs : List A) → All P (insert_by cmp x xs) → P x × All P xs
  unfolding insert_by
  insert_by-All_back P x [] hs = (hs.0, tt)
  insert_by-All_back P x (y ∷ ys) hs = ground (arith, insert_by-All_back P x ys)

  -- What holds of every entry of the result holds of every entry.
  pub sort_by-All_back : (P : A → Type 0) (xs : List A) → All P (sort_by cmp xs) → All P xs
  unfolding sort_by
  sort_by-All_back P [] hs = tt
  sort_by-All_back P (x ∷ xs) hs =
      let (h, rest) = insert_by-All_back P x (sort_by cmp xs) hs in (h, sort_by-All_back P xs rest)

  length-insert_by : (x : A) (xs : List A) → length (insert_by cmp x xs) ≡ suc (length xs)
  unfolding insert_by
  length-insert_by x [] = refl
  length-insert_by x (y ∷ ys) = ground (arith, length-insert_by x ys)

  pub length-sort_by : (xs : List A) → length (sort_by cmp xs) ≡ length xs
  unfolding sort_by
  length-sort_by [] = refl
  length-sort_by (x ∷ xs) = omega (arith, length-insert_by x (sort_by cmp xs), length-sort_by xs)

module _ {A : Type 0} (cmp : A → A → Ordering) (C : IsComparator cmp) where
  pub NotAfter-trans : (a b c : A) → NotAfter cmp a b → NotAfter cmp b c → NotAfter cmp a c
  NotAfter-trans a b c p q =
      ground (arith, C.lt_trans a b c, C.lt_eq a b c, C.eq_lt a b c, C.eq_eq a b c)

  NotAfter-All :
      (a b : A) (xs : List A) → NotAfter cmp a b → All (NotAfter cmp b) xs → All (NotAfter cmp a) xs
  NotAfter-All a b [] p hs = tt
  NotAfter-All a b (x ∷ xs) p hs = (NotAfter-trans a b x p hs.0, NotAfter-All a b xs p hs.1)

  insert_by-IsSorted : (x : A) (xs : List A) → IsSorted cmp xs → IsSorted cmp (insert_by cmp x xs)
  unfolding insert_by
  insert_by-IsSorted x [] s = (tt, tt)
  insert_by-IsSorted x (y ∷ ys) s = ground (
    arith,
    C.flip x y,
    NotAfter-All x y ys,
    insert_by-All cmp (NotAfter cmp y) x ys,
    insert_by-IsSorted x ys s.1,
  )

  -- The result of the sort is in order.
  pub sort_by-IsSorted : (xs : List A) → IsSorted cmp (sort_by cmp xs)
  unfolding sort_by
  sort_by-IsSorted [] = tt
  sort_by-IsSorted (x ∷ xs) = insert_by-IsSorted x (sort_by cmp xs) (sort_by-IsSorted xs)

  head_least :
      (xs s : List A) {a : A}
      → sort_by cmp xs ≡ s
      → head? s ≡ some a
      → In a xs × All (NotAfter cmp a) xs
  head_least xs [] e h = cc
  head_least xs (y ∷ ys) {a} e h =
      subst (λ b. In b xs × All (NotAfter cmp b) xs) (some-injective _ _ h) (member, before)
    where
      member : In y xs
      member = (subst (All (λ b. In b xs)) e (sort_by-All cmp (λ b. In b xs) xs (All-In xs))).0

      self : NotAfter cmp y y
      self = ground (arith, C.flip y y)

      before : All (NotAfter cmp y) xs
      before = sort_by-All_back cmp (NotAfter cmp y) xs (
          subst (All (NotAfter cmp y)) (sym e)
            (self, (subst (IsSorted cmp) e (sort_by-IsSorted xs)).0))

  -- The head of the result is one of the entries, and no entry comes before it.
  pub sort_by-head :
      (xs : List A) {a : A} → head? (sort_by cmp xs) ≡ some a → In a xs × All (NotAfter cmp a) xs
  sort_by-head xs h = head_least xs (sort_by cmp xs) refl h

pub sort_by-nil :
    {A : Type 0} (cmp : A → A → Ordering) (xs : List A) → head? (sort_by cmp xs) ≡ none → xs ≡ []
unfolding sort_by insert_by
sort_by-nil cmp [] h = refl
sort_by-nil cmp (x ∷ xs) h = absurd (nonempty (sort_by cmp xs) h)
  where
    nonempty : (s : List _) → ¬ (head? (insert_by cmp x s) ≡ none)
    nonempty [] e = cc
    nonempty (y ∷ ys) e = ground arith

-- No two entries have the same key.
abbrev pub DistinctBy : {A : Type 0} → (A → ℕ) → List A → Type 0
DistinctBy key [] = Unit
DistinctBy key (x ∷ xs) = All (λ y. key x ≢ key y) xs × DistinctBy key xs

module _ {A : Type 0} (cmp : A → A → Ordering) (key : A → ℕ) where
  insert_by-DistinctBy :
      (x : A) (xs : List A)
      → All (λ y. key x ≢ key y) xs
      → DistinctBy key xs
      → DistinctBy key (insert_by cmp x xs)
  unfolding insert_by
  insert_by-DistinctBy x [] n d = (tt, tt)
  insert_by-DistinctBy x (y ∷ ys) n d = ground (
    arith,
    insert_by-All cmp (λ z. key y ≢ key z) x ys (λ e. n.0 (sym e)) d.0,
    insert_by-DistinctBy x ys n.1 d.1,
  )

  pub sort_by-DistinctBy : (xs : List A) → DistinctBy key xs → DistinctBy key (sort_by cmp xs)
  unfolding sort_by
  sort_by-DistinctBy [] d = tt
  sort_by-DistinctBy (x ∷ xs) d =
      insert_by-DistinctBy x (sort_by cmp xs) (sort_by-All cmp (λ y. key x ≢ key y) xs d.0)
        (sort_by-DistinctBy xs d.1)

pub DistinctBy-append :
    {A : Type 0} (key : A → ℕ) (xs ys : List A)
    → DistinctBy key xs
    → DistinctBy key ys
    → All (λ x. All (λ y. key x ≢ key y) ys) xs
    → DistinctBy key (xs ++ ys)
DistinctBy-append key [] ys d e h = e
DistinctBy-append key (x ∷ xs) ys d e h =
    (All-append (λ y. key x ≢ key y) xs ys d.0 h.0, DistinctBy-append key xs ys d.1 e h.1)
