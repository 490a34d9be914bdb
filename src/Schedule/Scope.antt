-- ===== src/Schedule/Scope.antt =====
-- packages/core/src/local-time.ts: the date scope that the traversal collects, against the value of
-- the predicate at a date.
use seatfirst.Prelude.{
  ℕ, ◌+◌, ◌≤◌, ◌≡◌, refl, sym, ap, ◌∙◌, String, Bool, true, false, not, ◌||◌, none, some, List, [],
  ◌∷◌, ◌++◌, All, arith,
}
use seatfirst.Predicate.{
  PerformancePredicate, Predicates, movie, attribute, auditorium, price, runtime, date_range,
  time_window, format, both, either, never, nil, cons, Projection, some_is, every_is, project,
  project_all, join_and, join_or,
}
use seatfirst.Schedule.{
  DateRun, Collected, walk, walk_all, run_of, runs_of, some_date, every_date, or_scope,
}
use seatfirst.Schedule.Runs.{covers, IsRun}
use seatfirst.Schedule.Walk.{
  join_or-silent, IsChecked, AllChecked, date_leaf, walk_below, walk_all_below,
}

-- What a part of the tree adds: no scope and no value; one scope, whose days are those at which the
-- part holds; or more than one.
pub data Adds (value : ℕ → Projection) (before after : Collected) : Type 0 where
  silent :
      ((day : ℕ) → value day ≡ none)
      → after.runs ≡ before.runs
      → after.scopes ≡ before.scopes
      → Adds value before after
  scope :
      (rs : List DateRun)
      → All IsRun rs
      → ((day : ℕ) → value day ≡ some (covers rs day))
      → after.runs ≡ before.runs ++ rs
      → after.scopes ≡ before.scopes + 1
      → Adds value before after
  several : before.scopes + 2 ≤ after.scopes → Adds value before after

-- The same for the children of an AND, whose value is made of theirs.
pub data AllAdd (values : ℕ → List Projection) (before after : Collected) : Type 0 where
  silents :
      ((day : ℕ) (b : Bool) → some_is b (values day) ≡ false)
      → after.runs ≡ before.runs
      → after.scopes ≡ before.scopes
      → AllAdd values before after
  one_scope :
      (rs : List DateRun)
      → All IsRun rs
      → ((day : ℕ) → some_is true (values day) ≡ covers rs day)
      → ((day : ℕ) → some_is false (values day) ≡ not (covers rs day))
      → after.runs ≡ before.runs ++ rs
      → after.scopes ≡ before.scopes + 1
      → AllAdd values before after
  many : before.scopes + 2 ≤ after.scopes → AllAdd values before after

and_of :
    (values : ℕ → List Projection) (before after : Collected)
    → AllAdd values before after
    → Adds (λ day. join_and (values day)) before after
unfolding join_and
and_of values before after (silents v r s) = silent (λ day. rw (v day false, v day true) refl) r s
and_of values before after (one_scope rs a t f r s) =
    scope rs a (λ day. ground (arith, t day, f day)) r s
and_of values before after (many s) = several s

or_false : (b : Bool) → (b || false) ≡ b
or_false b = ground arith

cons_of :
    (value : ℕ → Projection) (values : ℕ → List Projection) (before middle after : Collected)
    → Adds value before middle
    → AllAdd values middle after
    → AllAdd (λ day. value day ∷ values day) before after
cons_of value values before middle after (silent v r s) (silents v' r' s') =
    silents (λ day b. rw (v day) (v' day b)) (r' ∙ r) (s' ∙ s)
cons_of value values before middle after (silent v r s) (one_scope rs a t f r' s') =
    one_scope rs a (λ day. rw (v day) (t day)) (λ day. rw (v day) (f day))
      (r' ∙ ap (λ runs. runs ++ rs) r) (omega (arith, s, s'))
cons_of value values before middle after (silent v r s) (many s') = many (omega (arith, s, s'))
cons_of value values before middle after (scope rs a v r s) (silents v' r' s') =
    one_scope rs a (λ day. rw (v day, v' day true) (or_false (covers rs day)))
      (λ day. rw (v day, v' day false) (or_false (not (covers rs day)))) (r' ∙ r)
      (omega (arith, s, s'))
cons_of value values before middle after (scope rs a v r s) (one_scope rs' a' t f r' s') =
    many (omega (arith, s, s'))
cons_of value values before middle after (scope rs a v r s) (many s') = many (omega (arith, s, s'))
cons_of value values before middle after (several s) (silents v' r' s') =
    many (omega (arith, s, s'))
cons_of value values before middle after (several s) (one_scope rs' a' t f r' s') =
    many (omega (arith, s, s'))
cons_of value values before middle after (several s) (many s') = many (omega (arith, s, s'))

-- The children of an OR that are all DATE_RANGE.
module _ {R : Type 0} (day_of : String → ℕ) where
  every_date_lem :
      (ps : Predicates R)
      → every_date ps ≡ true
      → AllChecked day_of ps
      → All IsRun (runs_of day_of ps)
        × ((day : ℕ)
            → (some_is true (project_all (date_leaf day_of day) ps)
                ≡ covers (runs_of day_of ps) day)
              × (every_is false (project_all (date_leaf day_of day) ps)
                  ≡ not (covers (runs_of day_of ps) day)))
  unfolding project project_all date_leaf AllChecked IsChecked
  every_date_lem nil h k = (tt, λ day. (refl, refl))
  every_date_lem (cons (date_range from to) ps) h k =
      let (a, v) = every_date_lem ps h k.1 in
      ((k.0, a), λ day. (rw (v day).0 refl, rw (v day).1 (ground arith)))
  every_date_lem (cons (movie ids titles) ps) h k = cc
  every_date_lem (cons (attribute code) ps) h k = cc
  every_date_lem (cons (auditorium numbers) ps) h k = cc
  every_date_lem (cons (price least most) ps) h k = cc
  every_date_lem (cons (runtime most) ps) h k = cc
  every_date_lem (cons (time_window days start end) ps) h k = cc
  every_date_lem (cons (format code) ps) h k = cc
  every_date_lem (cons (both of) ps) h k = cc
  every_date_lem (cons (either of) ps) h k = cc
  every_date_lem (cons (never of) ps) h k = cc

  module _ (minute_of : String → ℕ) where
    -- An OR with a DATE_RANGE among its children.
    date_or_lem :
        (ps : Predicates R) (c : Collected)
        → AllChecked day_of ps
        → every_date ps ≡ true
        → Adds
            (λ day. join_or (project_all (date_leaf day_of day) ps))
            c
            (record c { scopes = c.scopes + 1; runs = c.runs ++ runs_of day_of ps })
    unfolding join_or
    date_or_lem ps c k h =
        let (a, v) = every_date_lem ps h k in
        scope (runs_of day_of ps) a (λ day. rw ((v day).0, (v day).1) (ground arith)) refl refl

    -- An OR: all DATE_RANGE, or none of them.
    or_scope_lem :
        (dated every : Bool) (p : PerformancePredicate R) (ps : Predicates R) (c : Collected)
        → AllChecked day_of (cons p ps)
        → every_date (cons p ps) ≡ every
        → (or_scope dated every
            (runs_of day_of (cons p ps))
            (walk_all day_of minute_of false (cons p ps) c)
            c).violated
          ≡ none
        → (c.violated ≡ none)
          × Adds
              (λ day. join_or (project_all (date_leaf day_of day) (cons p ps)))
              c
              (or_scope dated every
                (runs_of day_of (cons p ps))
                (walk_all day_of minute_of false (cons p ps) c)
                c)
    unfolding project_all
    or_scope_lem true true p ps c k e h = (h, date_or_lem (cons p ps) c k e)
    or_scope_lem true false p ps c k e h = absurd (ground (arith, h))
    or_scope_lem false every p ps c k e h =
        let s = walk_all_below day_of minute_of (cons p ps) c k h in
        (
          sym (ap (λ (x : Collected). x.violated) s.unchanged) ∙ h,
          silent
              (λ day.
                join_or-silent (project (date_leaf day_of day) p)
                  (project_all (date_leaf day_of day) ps) (s.valueless day))
              (ap (λ (x : Collected). x.runs) s.unchanged)
              (ap (λ (x : Collected). x.scopes) s.unchanged),
        )

    mutual
      unfolding walk walk_all project project_all join_and join_or date_leaf IsChecked AllChecked

      pub walk_lem :
          (p : PerformancePredicate R) (c : Collected)
          → IsChecked day_of p
          → (walk day_of minute_of true p c).violated ≡ none
          → (c.violated ≡ none)
            × Adds (λ day. project (date_leaf day_of day) p) c (walk day_of minute_of true p c)
      walk_lem (both of) c k h =
          let (clean, a) = walk_all_lem of c k h in
          (clean, and_of (λ day. project_all (date_leaf day_of day) of) c _ a)
      walk_lem (either nil) c k h = absurd k
      walk_lem (either (cons p ps)) c k h =
          or_scope_lem (some_date (cons p ps)) (every_date (cons p ps)) p ps c k refl h
      walk_lem (never of) c k h =
          let s = walk_below day_of minute_of of c k h in
          (
            sym (ap (λ (x : Collected). x.violated) s.unchanged) ∙ h,
            silent (λ day. rw (s.valueless day) refl) (ap (λ (x : Collected). x.runs) s.unchanged)
                (ap (λ (x : Collected). x.scopes) s.unchanged),
          )
      walk_lem (date_range from to) c k h =
          (h, scope (run_of day_of from to ∷ []) (k, tt) (λ day. ground arith) refl refl)
      walk_lem (time_window days start end) c k h = (h, silent (λ day. refl) refl refl)
      walk_lem (movie ids titles) c k h = (h, silent (λ day. refl) refl refl)
      walk_lem (attribute code) c k h = (h, silent (λ day. refl) refl refl)
      walk_lem (auditorium numbers) c k h = (h, silent (λ day. refl) refl refl)
      walk_lem (price least most) c k h = (h, silent (λ day. refl) refl refl)
      walk_lem (runtime most) c k h = (h, silent (λ day. refl) refl refl)
      walk_lem (format code) c k h = (h, silent (λ day. refl) refl refl)

      walk_all_lem :
          (ps : Predicates R) (c : Collected)
          → AllChecked day_of ps
          → (walk_all day_of minute_of true ps c).violated ≡ none
          → (c.violated ≡ none)
            × AllAdd
                (λ day. project_all (date_leaf day_of day) ps)
                c
                (walk_all day_of minute_of true ps c)
      walk_all_lem nil c k h = (h, silents (λ day b. refl) refl refl)
      walk_all_lem (cons p ps) c k h =
          let (clean, rest) = walk_all_lem ps (walk day_of minute_of true p c) k.1 h in
          let (start, first) = walk_lem p c k.0 clean in
          (
            start,
            cons_of (λ day. project (date_leaf day_of day) p)
                (λ day. project_all (date_leaf day_of day) ps) c (walk day_of minute_of true p c) _
                first rest,
          )
