-- ===== src/Predicate/Rejection.antt =====
-- packages/core/src/search-spec.ts: what a projection's rejection says of the whole predicate.
use seatfirst.Prelude.{
  String, ◌≡◌, refl, ap, Bool, true, false, not, ◌&&◌, ◌||◌, Option, none, some, List, ◌∷◌,
  Bool-cases, inl, inr, arith,
}
use seatfirst.Predicate.{
  PerformancePredicate, movie, attribute, auditorium, price, runtime, date_range, time_window,
  format, both, either, never, Predicates, nil, cons, Projection, some_is, every_is, join_and,
  join_or, project, project_all, movie_leaf, matches_movie_predicate, or_neutral,
}

module _ {R : Type 0} where
  unfoldable mutual
    -- No NOT in the tree.
    pub has_no_not : PerformancePredicate R → Bool
    has_no_not (both of) = none_has_not of
    has_no_not (either of) = none_has_not of
    has_no_not (never of) = false
    has_no_not p = true

    pub none_has_not : Predicates R → Bool
    none_has_not nil = true
    none_has_not (cons p ps) = has_no_not p && none_has_not ps

module _ {R : Type 0} (holds : PerformancePredicate R → Bool) where
  unfoldable mutual
    -- The Boolean value of the tree, from the values of its leaves.
    pub evaluate : PerformancePredicate R → Bool
    evaluate (both of) = evaluate_every of
    evaluate (either of) = evaluate_some of
    evaluate (never of) = not (evaluate of)
    evaluate p = holds p

    pub evaluate_every : Predicates R → Bool
    evaluate_every nil = true
    evaluate_every (cons p ps) = evaluate p && evaluate_every ps

    pub evaluate_some : Predicates R → Bool
    evaluate_some nil = false
    evaluate_some (cons p ps) = evaluate p || evaluate_some ps

or_neutral-false : (c : Projection) → or_neutral c ≡ false → c ≡ some false
or_neutral-false c e = ground (arith, e)

both_true : (a b : Bool) → (a && b) ≡ true → (a ≡ true) × (b ≡ true)
both_true a b h = ground (arith, h)

-- A tree that its projection rejects has a rejected child, or only such.
join_and-false : (cs : List Projection) → join_and cs ≡ some false → some_is false cs ≡ true
unfolding join_and
join_and-false cs e = elim (Bool-cases (some_is false cs)) [
  | inl found ↦ found
  | inr absent ↦ ground (arith, absent, e)
]

join_or-false : (cs : List Projection) → join_or cs ≡ some false → every_is false cs ≡ true
unfolding join_or
join_or-false cs e = elim (Bool-cases (every_is false cs)) [
  | inl found ↦ found
  | inr absent ↦ ground (arith, absent, e)
]

every_child :
    (c : Projection) (cs : List Projection) (x y : Bool)
    → (c ≡ some false → x ≡ false)
    → (some_is false cs ≡ true → y ≡ false)
    → some_is false (c ∷ cs) ≡ true
    → (x && y) ≡ false
every_child none cs x y p q e = ground (arith, q e)
every_child (some true) cs x y p q e = ground (arith, q e)
every_child (some false) cs x y p q e = ground (arith, p refl)

some_child :
    (c : Projection) (cs : List Projection) (x y : Bool)
    → (c ≡ some false → x ≡ false)
    → (every_is false cs ≡ true → y ≡ false)
    → every_is false (c ∷ cs) ≡ true
    → (x || y) ≡ false
some_child none cs x y p q e = ground (arith, e)
some_child (some true) cs x y p q e = ground (arith, e)
some_child (some false) cs x y p q e = ground (arith, p refl, q e)

module _ {R : Type 0} (leaf : PerformancePredicate R → Projection)
    (holds : PerformancePredicate R → Bool)
    (agrees : (p : PerformancePredicate R) → leaf p ≡ some false → holds p ≡ false) where
  mutual
    unfolding project join_and join_or has_no_not evaluate

    rejected_lem :
        (p : PerformancePredicate R)
        → has_no_not p ≡ true
        → project leaf p ≡ some false
        → evaluate holds p ≡ false
    rejected_lem (both of) h e = every_lem of h (join_and-false (project_all leaf of) e)
    rejected_lem (either of) h e = some_lem of h (join_or-false (project_all leaf of) e)
    rejected_lem (never of) h e = ground (arith, h)
    rejected_lem (movie a b) h e = agrees (movie a b) e
    rejected_lem (attribute a) h e = agrees (attribute a) e
    rejected_lem (auditorium a) h e = agrees (auditorium a) e
    rejected_lem (price a b) h e = agrees (price a b) e
    rejected_lem (runtime a) h e = agrees (runtime a) e
    rejected_lem (date_range a b) h e = agrees (date_range a b) e
    rejected_lem (time_window a b c) h e = agrees (time_window a b c) e
    rejected_lem (format a) h e = agrees (format a) e

    every_lem :
        (ps : Predicates R)
        → none_has_not ps ≡ true
        → some_is false (project_all leaf ps) ≡ true
        → evaluate_every holds ps ≡ false
    every_lem nil h e = ground (arith, e)
    every_lem (cons p ps) h e =
        let (here, rest) = both_true (has_no_not p) (none_has_not ps) h in
        every_child (project leaf p) (project_all leaf ps) (evaluate holds p)
          (evaluate_every holds ps) (rejected_lem p here) (every_lem ps rest) e

    some_lem :
        (ps : Predicates R)
        → none_has_not ps ≡ true
        → every_is false (project_all leaf ps) ≡ true
        → evaluate_some holds ps ≡ false
    some_lem nil h e = refl
    some_lem (cons p ps) h e =
        let (here, rest) = both_true (has_no_not p) (none_has_not ps) h in
        some_child (project leaf p) (project_all leaf ps) (evaluate holds p)
          (evaluate_some holds ps) (rejected_lem p here) (some_lem ps rest) e

-- The leaves' values: the projection's own where it has one, and any other ones elsewhere.
abbrev pub value_or : Bool → Projection → Bool
value_or other none = other
value_or other (some b) = b

abbrev pub reading :
    {R : Type 0}
    → (PerformancePredicate R → Projection)
    → (PerformancePredicate R → Bool)
    → PerformancePredicate R
    → Bool
reading leaf other p = value_or (other p) (leaf p)

module _ {R : Type 0} (leaf : PerformancePredicate R → Projection)
    (other : PerformancePredicate R → Bool) where
  reading-false : (p : PerformancePredicate R) → leaf p ≡ some false → reading leaf other p ≡ false
  reading-false p e = ap (value_or (other p)) e

  neutral_lem :
      (p : PerformancePredicate R)
      → has_no_not p ≡ true
      → or_neutral (project leaf p) ≡ false
      → evaluate (reading leaf other) p ≡ false
  neutral_lem p h e =
      rejected_lem leaf (reading leaf other) reading-false p h (or_neutral-false (project leaf p) e)

module _ {R : Type 0} (other : PerformancePredicate R → Bool) where
  -- For a predicate without NOT, when the movie projection rejects a performance, the whole
  -- predicate is false, whatever values the leaves of other kinds take.
  pub matches_movie_predicate-false :
      (normalize_title : String → String) (id title : Option String) (p : PerformancePredicate R)
      → has_no_not p ≡ true
      → matches_movie_predicate normalize_title id title p ≡ false
      → evaluate (reading (movie_leaf normalize_title id title) other) p ≡ false
  unfolding matches_movie_predicate
  matches_movie_predicate-false normalize_title id title p =
      neutral_lem (movie_leaf normalize_title id title) other p
