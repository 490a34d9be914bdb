-- ===== src/Predicate.antt =====
-- packages/core/src/search-spec.ts: the tree of a performance predicate and its projections to the
-- movie and to the format. `normalize_title` trims, lowercases and collapses white space.
pub mod Rejection
use seatfirst.Prelude.{
  ℕ, String, Bool, true, false, not, ◌&&◌, ◌||◌, Option, none, some, List, [], ◌∷◌, if◌then◌else◌,
}
use seatfirst.Prelude.Int.{ℤ}
use text.Mathlib.Text.{◌==◌ as same_text}

mutual
  pub data PerformancePredicate (R : Type 0) : Type 0 where
    movie : List String → Option (List String) → PerformancePredicate R
    attribute : String → PerformancePredicate R
    auditorium : List ℤ → PerformancePredicate R
    price : Option R → Option R → PerformancePredicate R
    runtime : ℕ → PerformancePredicate R
    date_range : String → String → PerformancePredicate R
    time_window : List String → String → String → PerformancePredicate R
    format : String → PerformancePredicate R
    both : Predicates R → PerformancePredicate R
    either : Predicates R → PerformancePredicate R
    never : PerformancePredicate R → PerformancePredicate R

  pub data Predicates (R : Type 0) : Type 0 where
    nil : Predicates R
    cons : PerformancePredicate R → Predicates R → Predicates R

-- `boolean | undefined`, with `none` for undefined.
abbrev pub Projection : Type 0
Projection = Option Bool

abbrev pub is_value : Bool → Projection → Bool
is_value value none = false
is_value true (some b) = b
is_value false (some b) = not b

-- children.some(...) and children.every(...)
abbrev pub some_is : Bool → List Projection → Bool
some_is value [] = false
some_is value (c ∷ cs) = is_value value c || some_is value cs

abbrev pub every_is : Bool → List Projection → Bool
every_is value [] = true
every_is value (c ∷ cs) = is_value value c && every_is value cs

unfoldable pub join_and : List Projection → Projection
join_and children =
    if some_is false children then some false else if some_is true children then some true else none

unfoldable pub join_or : List Projection → Projection
join_or children =
    if some_is true children
    then some true
    else if every_is false children
    then some false
    else none

abbrev pub negated : Projection → Projection
negated none = none
negated (some b) = some (not b)

-- `projection ?? true`
abbrev pub or_neutral : Projection → Bool
or_neutral none = true
or_neutral (some b) = b

module _ {R : Type 0} (leaf : PerformancePredicate R → Projection) where
  -- What both projections do at AND, OR and NOT; `leaf` is what they do at the other kinds.
  unfoldable mutual
    unfolding join_and join_or

    pub project : PerformancePredicate R → Projection
    project (both of) = join_and (project_all of)
    project (either of) = join_or (project_all of)
    project (never of) = negated (project of)
    project p = leaf p

    pub project_all : Predicates R → List Projection
    project_all nil = []
    project_all (cons p ps) = project p ∷ project_all ps

abbrev pub includes_text : List String → String → Bool
includes_text [] s = false
includes_text (x ∷ xs) s = same_text x s || includes_text xs s

by_id : Option String → List String → Bool
by_id none ids = false
by_id (some id) ids = includes_text ids id

module _ (normalize_title : String → String) where
  some_title : String → List String → Bool
  some_title target [] = false
  some_title target (t ∷ ts) = same_text (normalize_title t) target || some_title target ts

  by_title : Option String → Option (List String) → Bool
  unfolding some_title
  by_title none titles = false
  by_title (some title) none = false
  by_title (some title) (some titles) = some_title (normalize_title title) titles

module _ {R : Type 0} (normalize_title : String → String) where
  -- matchesMovieLeaf at MOVIE, and undefined at the other leaves.
  unfoldable pub movie_leaf : Option String → Option String → PerformancePredicate R → Projection
  unfolding by_title by_id
  movie_leaf id title (movie ids titles) =
      some (by_id id ids || by_title normalize_title title titles)
  movie_leaf id title _ = none

  unfoldable pub matches_movie_predicate :
      Option String → Option String → PerformancePredicate R → Bool
  unfolding project movie_leaf
  matches_movie_predicate id title predicate = or_neutral (project (movie_leaf id title) predicate)

is_format : Option String → String → Bool
is_format none code = same_text code "STANDARD"
is_format (some f) code = if same_text code "STANDARD" then false else same_text f code

module _ {R : Type 0} where
  pub format_leaf : Option String → PerformancePredicate R → Projection
  unfolding is_format
  format_leaf format_code (format code) = some (is_format format_code code)
  format_leaf format_code _ = none

  unfoldable pub matches_format_predicate : Option String → PerformancePredicate R → Bool
  unfolding project format_leaf
  matches_format_predicate format_code predicate =
      or_neutral (project (format_leaf format_code) predicate)
