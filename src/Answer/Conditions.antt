-- ===== src/Answer/Conditions.antt =====
-- packages/core/src/answer-assembly.ts: the conditions that a recommendation without relaxations meets.
use seatfirst.Prelude.{
  ℕ, ◌-◌, ◌≤◌, ◌≡◌, ◌≢◌, refl, String, Bool, true, false, not, Option, none, some, List, [], ◌∷◌,
  ◌++◌, length, get_or, inl, inr, All, ltb, Bool-cases, arith,
}
use seatfirst.Recovery.{KeyOf}
use seatfirst.Answer.{
  Measure, Threshold, no_threshold, at_least, all_showtimes, fraction, GroupShowtime, AnswerGroup,
  Spec, count_resolved, some_outside, outside_label, when, threshold_met, relaxed_for,
  fewer_showtimes, unresolved_showtimes,
}

append-nil : {A : Type 0} (xs ys : List A) → xs ++ ys ≡ [] → (xs ≡ []) × (ys ≡ [])
append-nil [] ys e = (refl, e)
append-nil (x ∷ xs) ys e = cc

when-nil : {A : Type 0} (b : Bool) (a : A) → when b a ≡ [] → b ≡ false
when-nil true a e = cc
when-nil false a e = refl

-- Every cell has a one in the mask of the region, if there are a region and a mask.
abbrev pub Inside : Option String → Option (List ℕ) → List ℕ → Type 0
Inside none mask cells = Unit
Inside (some label) none cells = Unit
Inside (some label) (some mask) cells = All (λ c. get_or mask c 1 ≢ 0) cells

abbrev pub AllResolved : List GroupShowtime → Type 0
AllResolved = All (λ (s : GroupShowtime). s.is_resolved ≡ true)

some_outside-Inside :
    (mask cells : List ℕ)
    → some_outside (some mask) cells ≡ false
    → All (λ c. get_or mask c 1 ≢ 0) cells
unfolding some_outside
some_outside-Inside mask [] e = tt
some_outside-Inside mask (c ∷ cs) e =
    (ground (arith, e), some_outside-Inside mask cs (ground (arith, e)))

Inside-some_outside :
    (mask cells : List ℕ)
    → All (λ c. get_or mask c 1 ≢ 0) cells
    → some_outside (some mask) cells ≡ false
unfolding some_outside
Inside-some_outside mask [] a = refl
Inside-some_outside mask (c ∷ cs) a = ground (arith, a.0, Inside-some_outside mask cs a.1)

label-Inside :
    (label : Option String) (mask : Option (List ℕ)) (cells : List ℕ)
    → outside_label (some_outside mask cells) label ≡ []
    → Inside label mask cells
unfolding some_outside
label-Inside none mask cells e = tt
label-Inside (some l) none cells e = tt
label-Inside (some l) (some mask) cells e =
    some_outside-Inside mask cells (when-nil (some_outside (some mask) cells) _ e)

Inside-label :
    (label : Option String) (mask : Option (List ℕ)) (cells : List ℕ)
    → Inside label mask cells
    → outside_label (some_outside mask cells) label ≡ []
unfolding some_outside
Inside-label none mask cells a = refl
Inside-label (some l) none cells a = refl
Inside-label (some l) (some mask) cells a = rw (Inside-some_outside mask cells a) refl

count_resolved-le : (showtimes : List GroupShowtime) → count_resolved showtimes ≤ length showtimes
unfolding count_resolved
count_resolved-le [] = omega arith
count_resolved-le (s ∷ ss) = ground (arith, count_resolved-le ss)

count_resolved-AllResolved :
    (showtimes : List GroupShowtime)
    → length showtimes ≤ count_resolved showtimes
    → AllResolved showtimes
unfolding count_resolved
count_resolved-AllResolved [] h = tt
count_resolved-AllResolved (s ∷ ss) h = elim (Bool-cases s.is_resolved) [
  | inl there ↦ (there, count_resolved-AllResolved ss (ground (arith, there, h)))
  | inr missing ↦ absurd (ground (arith, missing, h, count_resolved-le ss))
]

AllResolved-count_resolved :
    (showtimes : List GroupShowtime)
    → AllResolved showtimes
    → count_resolved showtimes ≡ length showtimes
unfolding count_resolved
AllResolved-count_resolved [] a = refl
AllResolved-count_resolved (s ∷ ss) a = ground (arith, a.0, AllResolved-count_resolved ss a.1)

module _ (M : Measure) (key_of : KeyOf) where
  -- Offered at as many showtimes as the specification asks for.
  abbrev pub Enough : Threshold M.Real → ℕ → ℕ → Type 0
  Enough no_threshold showtimes resolved = Unit
  Enough (at_least n) showtimes resolved = n ≤ showtimes
  Enough all_showtimes showtimes resolved = showtimes ≡ resolved
  Enough (fraction least) showtimes resolved = M.at_least_fraction showtimes resolved least ≡ true

  threshold_met-Enough :
      (t : Threshold M.Real) (showtimes resolved : ℕ)
      → threshold_met M key_of t showtimes resolved ≡ true
      → Enough t showtimes resolved
  unfolding threshold_met
  threshold_met-Enough no_threshold showtimes resolved e = tt
  threshold_met-Enough (at_least n) showtimes resolved e = ground (arith, e)
  threshold_met-Enough all_showtimes showtimes resolved e = ground (arith, e)
  threshold_met-Enough (fraction least) showtimes resolved e = e

  Enough-threshold_met :
      (t : Threshold M.Real) (showtimes resolved : ℕ)
      → Enough t showtimes resolved
      → threshold_met M key_of t showtimes resolved ≡ true
  unfolding threshold_met
  Enough-threshold_met no_threshold showtimes resolved e = refl
  Enough-threshold_met (at_least n) showtimes resolved e = ground (arith, e)
  Enough-threshold_met all_showtimes showtimes resolved e = ground (arith, e)
  Enough-threshold_met (fraction least) showtimes resolved e = e

  -- What the specification asks of a hit with its member cells: enough showtimes, no unresolved
  -- showtime in the group, and cells inside the region.
  pub record Meets (spec : Spec M.Real) (g : AnswerGroup M.Real) (showtimes : ℕ) (cells : List ℕ)
      : Type 0 where
    pub enough : Enough spec.threshold showtimes (count_resolved g.showtimes)
    pub all_resolved : AllResolved g.showtimes
    pub inside : Inside spec.region_label g.region_mask cells

  pub relaxed_for-Meets :
      (spec : Spec M.Real) (g : AnswerGroup M.Real) (showtimes : ℕ) (cells : List ℕ)
      → relaxed_for M key_of spec g showtimes cells ≡ []
      → Meets spec g showtimes cells
  unfolding relaxed_for
  relaxed_for-Meets spec g showtimes cells e =
      let resolved = count_resolved g.showtimes in
      let out = outside_label (some_outside g.region_mask cells) spec.region_label in
      let met = threshold_met M key_of spec.threshold showtimes resolved in
      let few = when (not met) fewer_showtimes in
      let missing = length g.showtimes - resolved in
      let (front, unresolved) =
        append-nil (out ++ few) (when (ltb 0 missing) (unresolved_showtimes missing)) e in
      let (outside, fewer) = append-nil out few front in
      let is_met : met ≡ true = ground (arith, when-nil (not met) fewer_showtimes fewer) in
      let none_left = when-nil (ltb 0 missing) (unresolved_showtimes missing) unresolved in
      record {
        enough = threshold_met-Enough spec.threshold showtimes resolved is_met;
        all_resolved = count_resolved-AllResolved g.showtimes (ground (arith, none_left));
        inside = label-Inside spec.region_label g.region_mask cells outside;
      }

  pub Meets-relaxed_for :
      (spec : Spec M.Real) (g : AnswerGroup M.Real) (showtimes : ℕ) (cells : List ℕ)
      → Meets spec g showtimes cells
      → relaxed_for M key_of spec g showtimes cells ≡ []
  unfolding relaxed_for
  Meets-relaxed_for spec g showtimes cells m =
      let resolved = AllResolved-count_resolved g.showtimes m.all_resolved in
      let none_left : ltb 0 (length g.showtimes - count_resolved g.showtimes) ≡ false =
        ground (arith, resolved) in
      rw
        (
          Inside-label spec.region_label g.region_mask cells m.inside,
          Enough-threshold_met spec.threshold showtimes (count_resolved g.showtimes) m.enough,
          none_left,
        )
        refl
