-- ===== src/Recovery/Rungs/Elsewhere.antt =====
-- packages/core/src/recovery-ladder.ts: level 2, the gone seats at another showtime.
use seatfirst.Prelude.{
  ℕ, zero, suc, ◌<◌, ◌≤◌, ◌≡◌, ◌≢◌, ◌⊎◌, refl, sym, subst, true, false, Option, none, some, List,
  [], ◌∷◌, inl, inr, All, length, get_elem?, ltb, ◌==◌, Bool-cases, arith,
}
use seatfirst.Prelude.Outcome.{Yields}
use seatfirst.Sorting.{In}
use seatfirst.Recovery.{GroupHit, LadderInput, Showtime, RecoveryOption, ground_at, common_ground}
use seatfirst.Recovery.Schema.{is_nonempty, parse_built}
use seatfirst.Recovery.Rungs.{
  without_gone, smallest, find_gone, level_two_at, level_two_on, level_two_of, is_gone_placement,
  plain_option, assemble_recovery_level_two,
}
use seatfirst.Recovery.Rungs.Valid.{
  AllHits, InRange, IsLadderInput, In-All, ground_of, plain-parsed,
}

without_gone-In : (gone j : ℕ) (is : List ℕ) → In j is → j ≢ gone → In j (without_gone gone is)
unfolding without_gone
without_gone-In gone j [] m other = absurd m
without_gone-In gone j (i ∷ is) (inl e) other = ground (arith, e, other)
without_gone-In gone j (i ∷ is) (inr m) other = ground (arith, without_gone-In gone j is m other)

In-without_gone : (gone j : ℕ) (is : List ℕ) → In j (without_gone gone is) → In j is × (j ≢ gone)
unfolding without_gone
In-without_gone gone j [] m = absurd m
In-without_gone gone j (i ∷ is) m = ground (arith, m, In-without_gone gone j is)

smallest-below : (i j : ℕ) (js : List ℕ) → ltb j i ≡ true → smallest i (j ∷ js) ≡ smallest j js
unfolding smallest
smallest-below i j js below = rw below refl

smallest-other : (i j : ℕ) (js : List ℕ) → ltb j i ≡ false → smallest i (j ∷ js) ≡ smallest i js
unfolding smallest
smallest-other i j js other = rw other refl

smallest-In : (i : ℕ) (is : List ℕ) → In (smallest i is) (i ∷ is)
unfolding smallest
smallest-In i [] = inl refl
smallest-In i (j ∷ js) = elim (Bool-cases (ltb j i)) [
  | inl below ↦
      subst (λ x. In x (i ∷ j ∷ js)) (sym (smallest-below i j js below)) (inr (smallest-In j js))
  | inr other ↦
      subst (λ x. In x (i ∷ j ∷ js)) (sym (smallest-other i j js other))
        (elim (smallest-In i js) [ inl e ↦ inl e | inr m ↦ inr (inr m) ])
]

smallest-le : (i : ℕ) (is : List ℕ) (k : ℕ) → In k (i ∷ is) → smallest i is ≤ k
unfolding smallest
smallest-le i [] k m = ground (arith, m)
smallest-le i (j ∷ js) k m = elim (Bool-cases (ltb j i)) [
  | inl below ↦
      let first : smallest j js ≤ j = smallest-le j js j (inl refl) in
      subst (λ x. x ≤ k) (sym (smallest-below i j js below))
        (elim m [ inl e ↦ ground (arith, e, first, below) | inr m' ↦ smallest-le j js k m' ])
  | inr other ↦
      let first : smallest i js ≤ i = smallest-le i js i (inl refl) in
      subst (λ x. x ≤ k) (sym (smallest-other i j js other))
        (elim m [
          | inl e ↦ smallest-le i js k (inl e)
          | inr (inl e) ↦ ground (arith, e, first, other)
          | inr (inr m') ↦ smallest-le i js k (inr m')
        ])
]

pub elem-All :
    {A : Type 0} (P : A → Type 0) (xs : List A) (i : ℕ)
    → All P xs
    → i < length xs
    → (a : A) × (get_elem? xs i ≡ some a) × P a
elem-All P [] i a h = absurd (omega (arith, h))
elem-All P (x ∷ xs) zero a h = (x, refl, a.0)
elem-All P (x ∷ xs) (suc i) a h = elem-All P xs i a.1 (omega (arith, h))

only_gone : {gone : ℕ} (is : List ℕ) (j : ℕ) → without_gone gone is ≡ [] → In j is → j ≡ gone
only_gone {gone} is j e m = elim (Bool-cases (j == gone)) [
  | inl same ↦ ground (arith, same)
  | inr other ↦ absurd (subst (In j) e (without_gone-In gone j is m (ground (arith, other))))
]

module _ (input : LadderInput) (gone : ℕ) where
  -- The option names a showtime at another index than the gone one.
  pub record LeavesShowtime (o : RecoveryOption) : Type 0 where
    pub index : ℕ
    pub other : index ≢ gone
    pub showtime : Showtime
    pub found : get_elem? input.group.showtimes index ≡ some showtime
    pub named : o.showtime_id ≡ showtime.showtime_id

  -- The hit of the gone seats.
  abbrev pub IsGone : GroupHit → Type 0
  IsGone h =
      (h.row ≡ input.gone_placement.row)
      × ((h.start_col ≡ input.gone_placement.start_col)
          × (h.row_span ≡ input.gone_placement.row_span))

  -- The gone placement, unrelaxed, at the first other showtime that its own hit is offered at.
  pub record Moved (hits : List GroupHit) (o : RecoveryOption) : Type 0 where
    pub hit : GroupHit
    pub among : In hit hits
    pub own : IsGone hit
    pub index : ℕ
    pub offered : In index hit.showtime_indices
    pub other : index ≢ gone
    pub least : (j : ℕ) → In j hit.showtime_indices → j ≢ gone → index ≤ j
    pub showtime : Showtime
    pub found : get_elem? input.group.showtimes index ≡ some showtime
    pub option : o ≡ plain_option 2 input.gone_placement showtime.showtime_id

  -- No hit has the gone seats, or one that has them is offered at no other showtime.
  abbrev pub Unmoved : List GroupHit → Type 0
  Unmoved hits =
      ((h : GroupHit) → In h hits → IsGone h → ⊥)
      ⊎ ((h : GroupHit) × In h hits × IsGone h × ((j : ℕ) → In j h.showtime_indices → j ≡ gone))

  abbrev pub SecondRung : List GroupHit → Option RecoveryOption → Type 0
  SecondRung hits none = Unmoved hits
  SecondRung hits (some o) = Moved hits o

  -- The first hit of the gone seats, if there is one.
  FoundGone : List GroupHit → Option GroupHit → Type 0
  FoundGone hits none = (h : GroupHit) → In h hits → IsGone h → ⊥
  FoundGone hits (some h) = In h hits × IsGone h

  not_own : (h : GroupHit) → is_gone_placement input h ≡ false → IsGone h → ⊥
  not_own h other own = ground (arith, other, own)

  found_later :
      (h : GroupHit) (hs : List GroupHit) (r : Option GroupHit)
      → is_gone_placement input h ≡ false
      → FoundGone hs r
      → FoundGone (h ∷ hs) r
  unfolding FoundGone
  found_later h hs none other f =
      λ k m own. elim m [ inl e ↦ not_own h other (subst IsGone e own) | inr later ↦ f k later own ]
  found_later h hs (some g) other f = (inr f.0, f.1)

  find_gone_lem : (hits : List GroupHit) → FoundGone hits (find_gone input hits)
  unfolding find_gone FoundGone
  find_gone_lem [] = λ h m own. m
  find_gone_lem (h ∷ hs) = elim (Bool-cases (is_gone_placement input h)) [
    | inl own ↦ rw own (inl refl, ground (arith, own))
    | inr other ↦ rw other (found_later h hs (find_gone input hs) other (find_gone_lem hs))
  ]

  module _ (v : IsLadderInput input) where
    showtime_of :
        (i : ℕ)
        → i < length input.group.showtimes
        → (s : Showtime) × (get_elem? input.group.showtimes i ≡ some s)
          × (is_nonempty s.showtime_id ≡ true)
    showtime_of i h =
        elem-All (λ s. is_nonempty s.showtime_id ≡ true) input.group.showtimes i v.parsed.showtimes
          h

    level_two_at_lem :
        (hits : List GroupHit) (hit : GroupHit) (is : List ℕ)
        → In hit hits
        → IsGone hit
        → InRange input hit
        → without_gone gone hit.showtime_indices ≡ is
        → Yields (parse_built (level_two_at input is)) (SecondRung hits)
    unfolding level_two_at parse_built
    level_two_at_lem hits hit [] m own r e =
        (none, refl, inr (hit, m, own, λ j k. only_gone hit.showtime_indices j e k))
    level_two_at_lem hits hit (i ∷ is) m own r e =
        let inside =
          In-without_gone gone (smallest i is) hit.showtime_indices
            (subst (In (smallest i is)) (sym e) (smallest-In i is)) in
        let (s, found, named) = showtime_of (smallest i is) (
          In-All (λ j. j < length input.group.showtimes) hit.showtime_indices (smallest i is) r
            inside.0) in
        subst
          (λ x.
            Yields
              (parse_built (elim x [
                | none ↦ none
                | some s ↦ some (plain_option 2 input.gone_placement s.showtime_id)
              ]))
              (SecondRung hits))
          (sym found)
          (
            some (plain_option 2 input.gone_placement s.showtime_id),
            plain-parsed 2 input.gone_placement s.showtime_id (omega arith) (omega arith)
                v.parsed.gone_placement named,
            record {
              hit = hit;
              among = m;
              own = own;
              index = smallest i is;
              offered = inside.0;
              other = inside.1;
              least = λ j k other.
                  smallest-le i is j
                    (subst (In j) e (without_gone-In gone j hit.showtime_indices k other));
              showtime = s;
              found = found;
              option = refl;
            },
          )

    level_two_on_lem :
        (hits : List GroupHit) (r : Option GroupHit)
        → All (InRange input) hits
        → FoundGone hits r
        → Yields (parse_built (level_two_on input gone r)) (SecondRung hits)
    unfolding level_two_on FoundGone parse_built
    level_two_on_lem hits none a f = (none, refl, inl f)
    level_two_on_lem hits (some h) a f =
        level_two_at_lem hits h (without_gone gone h.showtime_indices) f.0 f.1
          (In-All (InRange input) hits h a f.0) refl

    -- For a ladder input that has passed the schemas, on the common ground of a gone showtime and
    -- hits, level 2 returns without crashing: the plain option of the gone placement at the least
    -- index, other than the gone one, among the showtimes at which a hit of the gone row, column
    -- and row span is offered; or nothing, and then no hit has the gone row, column and row span,
    -- or one that has them is offered at no other showtime.
    pub level_two_lem :
        (hits : List GroupHit)
        → common_ground input ≡ ground_at gone hits
        → Yields (assemble_recovery_level_two input) (SecondRung hits)
    unfolding assemble_recovery_level_two level_two_of
    level_two_lem hits e =
        subst (λ g. Yields (level_two_of input g) (SecondRung hits)) (sym e)
          (level_two_on_lem hits (find_gone input hits)
            (subst (AllHits (InRange input)) (ground_of input gone hits e).1 v.in_range)
            (find_gone_lem hits))
