-- ===== src/Examples/Predicates.antt =====
-- packages/core/src/search-spec.ts: the projections of a performance predicate at small trees.
use seatfirst.Prelude.{ℕ, String, ◌≡◌, refl, Bool, true, false, none, some, [], ◌∷◌}
use seatfirst.Predicate.{
  PerformancePredicate, movie, attribute, format, both, never, nil, cons, movie_leaf,
  matches_movie_predicate, matches_format_predicate,
}
use seatfirst.Predicate.Rejection.{has_no_not, evaluate, reading, matches_movie_predicate-false}

abbrev plain_title : String → String
plain_title s = s

-- The movie m1 with an attribute, and in a format.
abbrev wish : PerformancePredicate ℕ
wish =
    both (cons (movie ("m1" ∷ []) none) (cons (attribute "RECLINERS") (cons (format "IMAX") nil)))

abbrev anything : PerformancePredicate ℕ → Bool
anything p = true

wish-has_no_not : has_no_not wish ≡ true
unfolding has_no_not
wish-has_no_not = refl

other_movie : matches_movie_predicate plain_title (some "m2") none wish ≡ false
unfolding matches_movie_predicate
other_movie = refl

other_format : matches_format_predicate (some "DOLBY") wish ≡ false
unfolding matches_format_predicate
other_format = refl

matches_movie_predicate_example :
    evaluate (reading (movie_leaf plain_title (some "m2") none) anything) wish ≡ false
matches_movie_predicate_example =
    matches_movie_predicate-false anything plain_title (some "m2") none wish wish-has_no_not
      other_movie

-- Under a NOT a rejection may be wrong: without the attribute the wish does not hold, its negation does.
abbrev nothing : PerformancePredicate ℕ → Bool
nothing p = false

abbrev unwanted : PerformancePredicate ℕ
unwanted = never (both (cons (movie ("m1" ∷ []) none) (cons (attribute "RECLINERS") nil)))

unwanted_rejected : matches_movie_predicate plain_title (some "m1") none unwanted ≡ false
unfolding matches_movie_predicate
unwanted_rejected = refl

unwanted_holds :
    evaluate (reading (movie_leaf plain_title (some "m1") none) nothing) unwanted ≡ true
unfolding evaluate movie_leaf
unwanted_holds = refl
