-- ===== src/Ranking/Signals.antt =====
-- packages/core/src/candidate-rank.ts: when the format signal is one, and which windows are collected.
use seatfirst.Prelude.{
  ℕ, String, ◌≡◌, refl, ◌∙◌, Bool, true, false, ◌||◌, Option, List, [], ◌∷◌, ◌++◌, Bool-cases, inl,
  inr, arith,
}
use seatfirst.Predicate.{
  PerformancePredicate, movie, attribute, auditorium, price, runtime, date_range, time_window,
  format, both, either, never, Predicates, nil, cons,
}
use seatfirst.Ranking.{
  Walked, walk, walk_all, collect_time_windows, collect_format_codes, codes_of_all, code_matches,
  match_codes, format_match_for_performance,
}

module _ {R : Type 0} (format_code : Option String) where
  unfoldable mutual
    -- Some FORMAT leaf, wherever it stands, has a code that matches.
    pub some_format : PerformancePredicate R → Bool
    some_format (format code) = code_matches format_code code
    some_format (both of) = some_format_of of
    some_format (either of) = some_format_of of
    some_format (never of) = some_format of
    some_format _ = false

    pub some_format_of : Predicates R → Bool
    some_format_of nil = false
    some_format_of (cons p ps) = some_format p || some_format_of ps

-- 1 or 0
abbrev pub signal : Bool → ℕ
signal true = 1
signal false = 0

match_codes-append :
    (format_code : Option String) (xs ys : List String) (a b : Bool)
    → match_codes format_code xs ≡ signal a
    → match_codes format_code ys ≡ signal b
    → match_codes format_code (xs ++ ys) ≡ signal (a || b)
unfolding match_codes
match_codes-append format_code [] ys a b p q = ground (arith, p, q)
match_codes-append format_code (x ∷ xs) ys a b p q =
    elim (Bool-cases (code_matches format_code x)) [
      | inl here ↦ ground (arith, p, here)
      | inr other ↦ ground (arith, p, other, match_codes-append format_code xs ys a b)
    ]

module _ {R : Type 0} (format_code : Option String) where
  mutual
    unfolding collect_format_codes some_format match_codes

    codes_lem :
        (p : PerformancePredicate R)
        → match_codes format_code (collect_format_codes p) ≡ signal (some_format format_code p)
    codes_lem (format code) = elim (Bool-cases (code_matches format_code code)) [
      | inl here ↦ ground (arith, here)
      | inr other ↦ ground (arith, other)
    ]
    codes_lem (both of) = all_codes_lem of
    codes_lem (either of) = all_codes_lem of
    codes_lem (never of) = codes_lem of
    codes_lem (movie a b) = refl
    codes_lem (attribute a) = refl
    codes_lem (auditorium a) = refl
    codes_lem (price a b) = refl
    codes_lem (runtime a) = refl
    codes_lem (date_range a b) = refl
    codes_lem (time_window a b c) = refl

    all_codes_lem :
        (ps : Predicates R)
        → match_codes format_code (codes_of_all ps) ≡ signal (some_format_of format_code ps)
    all_codes_lem nil = refl
    all_codes_lem (cons p ps) =
        match_codes-append format_code (collect_format_codes p) (codes_of_all ps)
          (some_format format_code p) (some_format_of format_code ps) (codes_lem p)
          (all_codes_lem ps)

  -- The format signal of a performance is 1 exactly when some FORMAT leaf, wherever it stands in
  -- the predicate, has a code that matches the performance's format, and else 0.
  pub format_match_lem :
      (p : PerformancePredicate R)
      → format_match_for_performance format_code p ≡ signal (some_format format_code p)
  unfolding format_match_for_performance
  format_match_lem p = codes_lem p

or_or : {x : Bool} (a b c : Bool) → x ≡ (a || b) → (x || c) ≡ (a || (b || c))
or_or a b c e = ground (arith, e)

module _ {R : Type 0} where
  unfoldable mutual
    -- A TIME_WINDOW stands in the tree.
    pub has_window : PerformancePredicate R → Bool
    has_window (time_window a b c) = true
    has_window (both of) = some_window of
    has_window (either of) = some_window of
    has_window (never of) = has_window of
    has_window _ = false

    pub some_window : Predicates R → Bool
    some_window nil = false
    some_window (cons p ps) = has_window p || some_window ps

  unfoldable mutual
    unfolding has_window

    -- A TIME_WINDOW stands below an OR or a NOT.
    pub is_ambiguous : PerformancePredicate R → Bool
    is_ambiguous (both of) = some_ambiguous of
    is_ambiguous (either of) = some_window of
    is_ambiguous (never of) = has_window of
    is_ambiguous _ = false

    pub some_ambiguous : Predicates R → Bool
    some_ambiguous nil = false
    some_ambiguous (cons p ps) = is_ambiguous p || some_ambiguous ps

  mutual
    unfolding walk has_window

    forbidden_lem :
        (p : PerformancePredicate R) (s : Walked)
        → (walk p false s).violated ≡ (s.violated || has_window p)
    forbidden_lem (both of) s = all_forbidden_lem of s
    forbidden_lem (either of) s = all_forbidden_lem of s
    forbidden_lem (never of) s = forbidden_lem of s
    forbidden_lem (time_window a b c) s = ground arith
    forbidden_lem (format a) s = ground arith
    forbidden_lem (movie a b) s = ground arith
    forbidden_lem (attribute a) s = ground arith
    forbidden_lem (auditorium a) s = ground arith
    forbidden_lem (price a b) s = ground arith
    forbidden_lem (runtime a) s = ground arith
    forbidden_lem (date_range a b) s = ground arith

    all_forbidden_lem :
        (ps : Predicates R) (s : Walked)
        → (walk_all ps false s).violated ≡ (s.violated || some_window ps)
    all_forbidden_lem nil s = ground arith
    all_forbidden_lem (cons p ps) s =
        all_forbidden_lem ps (walk p false s)
        ∙ or_or s.violated (has_window p) (some_window ps) (forbidden_lem p s)

  mutual
    unfolding walk has_window is_ambiguous

    allowed_lem :
        (p : PerformancePredicate R) (s : Walked)
        → (walk p true s).violated ≡ (s.violated || is_ambiguous p)
    allowed_lem (both of) s = all_allowed_lem of s
    allowed_lem (either of) s = all_forbidden_lem of s
    allowed_lem (never of) s = forbidden_lem of s
    allowed_lem (time_window a b c) s = ground arith
    allowed_lem (format a) s = ground arith
    allowed_lem (movie a b) s = ground arith
    allowed_lem (attribute a) s = ground arith
    allowed_lem (auditorium a) s = ground arith
    allowed_lem (price a b) s = ground arith
    allowed_lem (runtime a) s = ground arith
    allowed_lem (date_range a b) s = ground arith

    all_allowed_lem :
        (ps : Predicates R) (s : Walked)
        → (walk_all ps true s).violated ≡ (s.violated || some_ambiguous ps)
    all_allowed_lem nil s = ground arith
    all_allowed_lem (cons p ps) s =
        all_allowed_lem ps (walk p true s)
        ∙ or_or s.violated (is_ambiguous p) (some_ambiguous ps) (allowed_lem p s)

  -- When a TIME_WINDOW stands below an OR or a NOT of the predicate, no window at all is collected.
  pub collect_time_windows-ambiguous :
      (p : PerformancePredicate R) → is_ambiguous p ≡ true → collect_time_windows p ≡ []
  unfolding collect_time_windows
  collect_time_windows-ambiguous p h =
      ground (arith, allowed_lem p (record { windows = []; violated = false }), h)
