-- ===== src/Sorting.antt =====
-- `Array.prototype.sort`: stable, by a comparison that is here the Boolean "comes strictly before".
use seatfirst.Prelude.{
  ℕ, ◌≡◌, refl, sym, ap, ◌∙◌, suc, length, subst, Bool, true, false, ◌⊎◌, List, [], ◌∷◌, inl, inr,
  All, ltb, ◌==◌, if◌then◌else◌, Bool-cases, arith,
}

module _ {ℓ} {A : Type ℓ} (before : A → A → Bool) where
  unfoldable pub insert : A → List A → List A
  insert x [] = x ∷ []
  insert x (y ∷ ys) = if before y x then y ∷ insert x ys else x ∷ y ∷ ys

  unfoldable pub sort : List A → List A
  unfolding insert
  sort [] = []
  sort (x ∷ xs) = insert x (sort xs)

module _ {ℓ κ} {A : Type ℓ} (P : A → Type κ) (before : A → A → Bool) where
  All-insert : (x : A) (xs : List A) → P x → All P xs → All P (insert before x xs)
  unfolding insert
  All-insert x [] p q = (p, tt)
  All-insert x (y ∷ ys) p q = elim (Bool-cases (before y x)) [
    | inl later ↦ rw later (q.0, All-insert x ys p q.1)
    | inr here ↦ rw here (p, q)
  ]

  pub All-sort : (xs : List A) → All P xs → All P (sort before xs)
  unfolding sort
  All-sort [] p = tt
  All-sort (x ∷ xs) p = All-insert x (sort before xs) p.0 (All-sort xs p.1)

-- The comparison of a chain of keys: `if (a.k !== b.k) return a.k - b.k`, and so on.
module _ {ℓ} {A : Type ℓ} where
  abbrev pub ascending : (A → ℕ) → (A → A → Bool) → A → A → Bool
  ascending key next a b = if key a == key b then next a b else ltb (key a) (key b)

  abbrev pub descending : (A → ℕ) → (A → A → Bool) → A → A → Bool
  descending key next a b = if key a == key b then next a b else ltb (key b) (key a)

  abbrev pub tied : A → A → Bool
  tied a b = false

  -- A strict weak order.
  pub record IsOrder (before : A → A → Bool) : Type ℓ where
    pub asymmetric : (a b : A) → before a b ≡ true → before b a ≡ false
    pub cotransitive : (a b c : A) → before a b ≡ false → before b c ≡ false → before a c ≡ false

  pub tied-IsOrder : IsOrder tied
  tied-IsOrder = record { asymmetric = λ a b h. refl; cotransitive = λ a b c p q. refl }

  pub ascending-IsOrder :
      (key : A → ℕ) {next : A → A → Bool} → IsOrder next → IsOrder (ascending key next)
  ascending-IsOrder key o = record {
    asymmetric = λ a b h. ground (arith, o.asymmetric a b);
    cotransitive = λ a b c p q. ground (arith, o.cotransitive a b c);
  }

  pub descending-IsOrder :
      (key : A → ℕ) {next : A → A → Bool} → IsOrder next → IsOrder (descending key next)
  descending-IsOrder key o = record {
    asymmetric = λ a b h. ground (arith, o.asymmetric a b);
    cotransitive = λ a b c p q. ground (arith, o.cotransitive a b c);
  }

-- No member of the list comes before one in front of it.
abbrev pub IsSorted : {A : Type 0} → (A → A → Bool) → List A → Type 0
IsSorted before [] = Unit
IsSorted before (x ∷ xs) = All (λ y. before y x ≡ false) xs × IsSorted before xs

-- Membership, by recursion.
abbrev pub In : {A : Type 0} → A → List A → Type 0
In a [] = ⊥
In a (x ∷ xs) = (a ≡ x) ⊎ In a xs

-- The first of a sorted list: a member that no member comes before.
pub record First {A : Type 0} (before : A → A → Bool) (xs sorted : List A) : Type 0 where
  pub first : A
  pub later : List A
  pub sorted_as : sorted ≡ first ∷ later
  pub member : In first xs
  pub none_before : All (λ y. before y first ≡ false) xs

module _ {A : Type 0} (before : A → A → Bool) where
  insert_later :
      (x y : A) (ys : List A)
      → before y x ≡ true
      → insert before x (y ∷ ys) ≡ y ∷ insert before x ys
  unfolding insert
  insert_later x y ys h = rw h refl

  insert_first :
      (x y : A) (ys : List A) → before y x ≡ false → insert before x (y ∷ ys) ≡ x ∷ y ∷ ys
  unfolding insert
  insert_first x y ys h = rw h refl

  In-insert : (a x : A) (xs : List A) → In a (insert before x xs) → (a ≡ x) ⊎ In a xs
  unfolding insert
  In-insert a x [] m = m
  In-insert a x (y ∷ ys) m = elim (Bool-cases (before y x)) [
    | inl later ↦ elim (subst (In a) (insert_later x y ys later) m) [
      | inl here ↦ inr (inl here)
      | inr there ↦ elim (In-insert a x ys there) [ inl h ↦ inl h | inr h ↦ inr (inr h) ]
    ]
    | inr first ↦ subst (In a) (insert_first x y ys first) m
  ]

  -- The members of a sorted list are those of the list.
  pub In-sort : (a : A) (xs : List A) → In a (sort before xs) → In a xs
  unfolding sort
  In-sort a [] m = m
  In-sort a (x ∷ xs) m = elim (In-insert a x (sort before xs) m) [
    | inl here ↦ inl here
    | inr there ↦ inr (In-sort a xs there)
  ]

module _ {A : Type 0} (before : A → A → Bool) where
  insert-In : (a x : A) (xs : List A) → (a ≡ x) ⊎ In a xs → In a (insert before x xs)
  unfolding insert
  insert-In a x [] m = m
  insert-In a x (y ∷ ys) m = elim (Bool-cases (before y x)) [
    | inl later ↦ subst (In a) (sym (insert_later before x y ys later)) (elim m [
      | inl first ↦ inr (insert-In a x ys (inl first))
      | inr rest ↦ elim rest [
        | inl here ↦ inl here
        | inr there ↦ inr (insert-In a x ys (inr there))
      ]
    ])
    | inr first ↦ subst (In a) (sym (insert_first before x y ys first)) m
  ]

  pub sort-In : (a : A) (xs : List A) → In a xs → In a (sort before xs)
  unfolding sort
  sort-In a [] m = m
  sort-In a (x ∷ xs) m =
      insert-In a x (sort before xs)
        (elim m [ inl here ↦ inl here | inr there ↦ inr (sort-In a xs there) ])

  length-insert : (x : A) (xs : List A) → length (insert before x xs) ≡ suc (length xs)
  unfolding insert
  length-insert x [] = refl
  length-insert x (y ∷ ys) = elim (Bool-cases (before y x)) [
    | inl later ↦ ap length (insert_later before x y ys later) ∙ ap suc (length-insert x ys)
    | inr first ↦ ap length (insert_first before x y ys first)
  ]

  pub length-sort : (xs : List A) → length (sort before xs) ≡ length xs
  unfolding sort
  length-sort [] = refl
  length-sort (x ∷ xs) = length-insert x (sort before xs) ∙ ap suc (length-sort xs)

module _ {A : Type 0} {before : A → A → Bool} (o : IsOrder before) where
  none_before_trans :
      (xs : List A) (m x : A)
      → before m x ≡ false
      → All (λ y. before y m ≡ false) xs
      → All (λ y. before y x ≡ false) xs
  none_before_trans [] m x h p = tt
  none_before_trans (y ∷ ys) m x h p = (o.cotransitive y m x p.0 h, none_before_trans ys m x h p.1)

  before_self : (x : A) → before x x ≡ false
  before_self x = ground (arith, o.asymmetric x x)

  pub sort-First : (x : A) (xs : List A) → First before (x ∷ xs) (sort before (x ∷ xs))
  unfolding sort
  sort-First x [] = record {
    first = x;
    later = [];
    sorted_as = refl;
    member = inl refl;
    none_before = (before_self x, tt);
  }
  sort-First x (y ∷ ys) =
      let rest = sort-First y ys in
      elim (Bool-cases (before rest.first x)) [
        | inl earlier ↦ record {
          first = rest.first;
          later = insert before x rest.later;
          sorted_as = rw (rest.sorted_as, earlier) refl;
          member = inr rest.member;
          none_before = (o.asymmetric rest.first x earlier, rest.none_before);
        }
        | inr not_earlier ↦ record {
          first = x;
          later = rest.first ∷ rest.later;
          sorted_as = rw (rest.sorted_as, not_earlier) refl;
          member = inl refl;
          none_before =
              (before_self x, none_before_trans (y ∷ ys) rest.first x not_earlier rest.none_before);
        }
      ]

  insert-IsSorted :
      (x : A) (ys : List A) → IsSorted before ys → IsSorted before (insert before x ys)
  unfolding insert
  insert-IsSorted x [] s = (tt, tt)
  insert-IsSorted x (y ∷ ys) s = elim (Bool-cases (before y x)) [
    | inl later ↦ subst (IsSorted before) (sym (insert_later before x y ys later)) (
      All-insert (λ z. before z y ≡ false) before x ys (o.asymmetric y x later) s.0,
      insert-IsSorted x ys s.1,
    )
    | inr here ↦
        subst (IsSorted before) (sym (insert_first before x y ys here))
          ((here, none_before_trans ys y x here s.0), s)
  ]

  pub sort-IsSorted : (xs : List A) → IsSorted before (sort before xs)
  unfolding sort
  sort-IsSorted [] = tt
  sort-IsSorted (x ∷ xs) = insert-IsSorted x (sort before xs) (sort-IsSorted xs)
