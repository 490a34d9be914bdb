-- ===== src/Schedule/Walk.antt =====
-- packages/core/src/local-time.ts: the traversal of a predicate, against the predicate's value at a
-- date. The value is that of the projections of search-spec.ts, with DATE_RANGE the only leaf that
-- has one.
use seatfirst.Prelude.{
  ℕ, ◌≤◌, ◌≡◌, refl, sym, ap, ◌∙◌, String, Bool, true, false, ◌&&◌, none, some, List, ◌∷◌, leb,
  arith,
}
use seatfirst.Predicate.{
  PerformancePredicate, Predicates, movie, attribute, auditorium, price, runtime, date_range,
  time_window, format, both, either, never, nil, cons, Projection, some_is, project, project_all,
  join_and, join_or,
}
use seatfirst.Schedule.{Collected, walk, walk_all}

pub join_or-silent :
    (x : Projection) (xs : List Projection)
    → ((b : Bool) → some_is b (x ∷ xs) ≡ false)
    → join_or (x ∷ xs) ≡ none
unfolding join_or
join_or-silent x xs h = ground (arith, h true, h false)

-- A part of the tree that says nothing of dates and may not: nothing is collected.
pub record Silent (value : ℕ → Projection) (before after : Collected) : Type 0 where
  pub valueless : (day : ℕ) → value day ≡ none
  pub unchanged : after ≡ before

pub record AllSilent (values : ℕ → List Projection) (before after : Collected) : Type 0 where
  pub valueless : (day : ℕ) (b : Bool) → some_is b (values day) ≡ false
  pub unchanged : after ≡ before

module _ {R : Type 0} (day_of : String → ℕ) where
  -- What the schema checks of a tree: no OR is empty, and no range ends before it starts.
  unfoldable mutual
    pub IsChecked : PerformancePredicate R → Type 0
    IsChecked (both of) = AllChecked of
    IsChecked (either nil) = ⊥
    IsChecked (either (cons p ps)) = IsChecked p × AllChecked ps
    IsChecked (never of) = IsChecked of
    IsChecked (date_range from to) = day_of from ≤ day_of to
    IsChecked _ = Unit

    pub AllChecked : Predicates R → Type 0
    AllChecked nil = Unit
    AllChecked (cons p ps) = IsChecked p × AllChecked ps

  unfoldable pub date_leaf : ℕ → PerformancePredicate R → Projection
  date_leaf day (date_range from to) = some (leb (day_of from) day && leb day (day_of to))
  date_leaf day _ = none

module _ {R : Type 0} (day_of minute_of : String → ℕ) where
  mutual
    unfolding walk walk_all project project_all join_and join_or date_leaf IsChecked AllChecked

    pub walk_below :
        (p : PerformancePredicate R) (c : Collected)
        → IsChecked day_of p
        → (walk day_of minute_of false p c).violated ≡ none
        → Silent (λ day. project (date_leaf day_of day) p) c (walk day_of minute_of false p c)
    walk_below (both of) c k h =
        let s = walk_all_below of c k h in
        record {
          valueless = λ day. rw (s.valueless day false, s.valueless day true) refl;
          unchanged = s.unchanged;
        }
    walk_below (either nil) c k h = absurd k
    walk_below (either (cons p ps)) c k h =
        let s = walk_all_below (cons p ps) c k h in
        record {
          valueless = λ day.
              join_or-silent (project (date_leaf day_of day) p)
                (project_all (date_leaf day_of day) ps) (s.valueless day);
          unchanged = s.unchanged;
        }
    walk_below (never of) c k h =
        let s = walk_below of c k h in
        record { valueless = λ day. rw (s.valueless day) refl; unchanged = s.unchanged }
    walk_below (date_range from to) c k h = absurd (ground (arith, h))
    walk_below (time_window days start end) c k h = absurd (ground (arith, h))
    walk_below (movie ids titles) c k h = record { valueless = λ day. refl; unchanged = refl }
    walk_below (attribute code) c k h = record { valueless = λ day. refl; unchanged = refl }
    walk_below (auditorium numbers) c k h = record { valueless = λ day. refl; unchanged = refl }
    walk_below (price least most) c k h = record { valueless = λ day. refl; unchanged = refl }
    walk_below (runtime most) c k h = record { valueless = λ day. refl; unchanged = refl }
    walk_below (format code) c k h = record { valueless = λ day. refl; unchanged = refl }

    pub walk_all_below :
        (ps : Predicates R) (c : Collected)
        → AllChecked day_of ps
        → (walk_all day_of minute_of false ps c).violated ≡ none
        → AllSilent
            (λ day. project_all (date_leaf day_of day) ps)
            c
            (walk_all day_of minute_of false ps c)
    walk_all_below nil c k h = record { valueless = λ day b. refl; unchanged = refl }
    walk_all_below (cons p ps) c k h =
        let rest = walk_all_below ps (walk day_of minute_of false p c) k.1 h in
        let first =
          walk_below p c k.0 (sym (ap (λ (x : Collected). x.violated) rest.unchanged) ∙ h) in
        record {
          valueless = λ day b. rw (first.valueless day) (rest.valueless day b);
          unchanged = rest.unchanged ∙ first.unchanged;
        }
