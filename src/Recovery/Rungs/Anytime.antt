-- ===== src/Recovery/Rungs/Anytime.antt =====
-- packages/core/src/recovery-ladder.ts: level 4, other seats at another showtime.
use seatfirst.Prelude.{
  ℕ, zero, suc, ◌<◌, ◌≡◌, ◌≢◌, refl, sym, ap, subst, true, Option, none, some, List, [], ◌∷◌, inl,
  inr, All, length, get_elem?, Bool-cases, Option-cases, arith,
}
use seatfirst.Prelude.Outcome.{Outcome, ok, ◌>>=◌, Yields, Yields-bind}
use seatfirst.Sorting.{sort, IsOrder, sort-First, ascending-IsOrder, tied-IsOrder}
use seatfirst.Recovery.{
  Placement, GroupHit, LadderInput, Showtime, RecoveryOption, Crash, KeyOf, Candidate, by_quality,
  apart, ground_at, common_ground,
}
use seatfirst.Recovery.Schema.{is_valid_placement}
use seatfirst.Recovery.Rungs.{
  without_gone, winner, Scored, by_nearness, score_one, score_showtimes, eligible_indices,
  is_gone_placement, level_4_relaxation, level_four_option, level_four_from, level_four_at,
  level_four_of, place, add_eligible, collect_elsewhere, level_four_on,
  assemble_recovery_level_four,
}
use seatfirst.Recovery.Rungs.Valid.{
  AllHits, InRange, IsLadderInput, In-All, ground_of, place-valid, far_option, far-parsed,
}
use seatfirst.Recovery.Rungs.Near.{by_quality-IsOrder}
use seatfirst.Recovery.Rungs.Elsewhere.{LeavesShowtime, elem-All}

without_gone-All :
    (gone : ℕ) (P : ℕ → Type 0) (is : List ℕ)
    → All P is
    → All (λ i. P i × (i ≢ gone)) (without_gone gone is)
unfolding without_gone
without_gone-All gone P [] a = tt
without_gone-All gone P (i ∷ is) a = ground (arith, without_gone-All gone P is a.1, a.0)

some-injective : {A : Type 0} (a b : A) → some a ≡ some b → a ≡ b
some-injective a b e = ground (arith, e)

winner-All :
    (P : Candidate → Type 0) (cs : List Candidate) (c : Candidate)
    → All P cs
    → winner (sort by_quality cs) ≡ some c
    → P c
unfolding sort
winner-All P [] c a e = ground arith
winner-All P (x ∷ xs) c a e =
    let f = sort-First by_quality-IsOrder x xs in
    let e' : some f.first ≡ some c = rw f.sorted_as at e in
    subst P (some-injective f.first c e') (In-All P (x ∷ xs) f.first a f.member)

get_elem?-below :
    {A : Type 0} (xs : List A) (i : ℕ) → i < length xs → (a : A) × (get_elem? xs i ≡ some a)
get_elem?-below [] i h = absurd (omega (arith, h))
get_elem?-below (x ∷ xs) zero h = (x, refl)
get_elem?-below (x ∷ xs) (suc i) h = get_elem?-below xs i (omega (arith, h))

by_nearness-IsOrder : IsOrder by_nearness
by_nearness-IsOrder =
    ascending-IsOrder (λ s. s.diff)
      (ascending-IsOrder (λ s. s.time) (ascending-IsOrder (λ s. s.showtime_index) tied-IsOrder))

module _ (input : LadderInput) (gone : ℕ) (v : IsLadderInput input) where
  -- An index that the showtimes have, other than the gone one.
  abbrev pub Offerable : ℕ → Type 0
  Offerable i = (i < length input.group.showtimes) × (i ≢ gone)

  Scores : List ℕ → List Scored → Type 0
  Scores is scored = All (λ s. Offerable s.showtime_index) scored × (length scored ≡ length is)

  score_showtimes_lem :
      (time : ℕ) (is : List ℕ)
      → All Offerable is
      → Yields (score_showtimes input.group.showtimes time is) (Scores is)
  unfolding score_showtimes Scores
  score_showtimes_lem time [] a = ([], refl, (tt, refl))
  score_showtimes_lem time (i ∷ is) a =
      let (s, found) = get_elem?-below input.group.showtimes i a.0.0 in
      let (rest, e, h) = score_showtimes_lem time is a.1 in
      let run : Option Showtime → Outcome Crash (List Scored) = λ o. score_one time i o >>= λ x.
      score_showtimes input.group.showtimes time is >>= λ rest. ok (x ∷ rest) in
      subst (λ o. Yields (run o) (Scores (i ∷ is))) (sym found)
        (rw e (
          record { showtime_index = i; time = s.time; diff = apart s.time time } ∷ rest,
          refl,
          ((a.0, h.0), ap suc h.1),
        ))

  -- Level 4's result: nothing, or an option that needs consent.
  abbrev pub Consented : Option RecoveryOption → Type 0
  Consented none = Unit
  Consented (some o) =
      LeavesShowtime input gone o
      × ((o.level ≡ 4) × ((o.requires_consent ≡ true) × (o.relaxed ≡ level_4_relaxation ∷ [])))

  level_four_at_lem :
      (placement : Placement) (scored : List Scored)
      → All (λ s. Offerable s.showtime_index) scored
      → 0 < length scored
      → is_valid_placement placement ≡ true
      → Yields (level_four_at input placement (sort by_nearness scored)) Consented
  unfolding level_four_at level_four_option sort
  level_four_at_lem placement [] a h valid = absurd (omega (arith, h))
  level_four_at_lem placement (x ∷ xs) a h valid =
      let f = sort-First by_nearness-IsOrder x xs in
      let m = In-All (λ s. Offerable s.showtime_index) (x ∷ xs) f.first a f.member in
      let (s, found, named) =
        elem-All _ input.group.showtimes f.first.showtime_index v.parsed.showtimes m.0 in
      rw f.sorted_as (
        subst (λ o. Yields (level_four_option placement o) Consented) (sym found)
          (
            some (far_option placement s.showtime_id),
            far-parsed placement s.showtime_id valid named,
            (
              record {
                index = f.first.showtime_index;
                other = m.1;
                showtime = s;
                found = found;
                named = refl;
              },
              (refl, (refl, refl)),
            ),
          ))

  -- A candidate of level 4 has showtimes left and a placement that the schema accepts.
  abbrev pub Elsewhere : Candidate → Type 0
  Elsewhere c =
      All Offerable c.eligible × ((0 < length c.eligible) × (is_valid_placement c.placement ≡ true))

  level_four_of_lem :
      (s : Showtime) (c : Option Candidate)
      → get_elem? input.group.showtimes gone ≡ some s
      → ((d : Candidate) → c ≡ some d → Elsewhere d)
      → Yields (level_four_of input gone c) Consented
  unfolding level_four_of level_four_from Scores
  level_four_of_lem s none at_gone k = (none, refl, tt)
  level_four_of_lem s (some c) at_gone k =
      let (a, (positive, valid)) = k c refl in
      subst (λ o. Yields (level_four_from input c o) Consented) (sym at_gone)
        (Yields-bind (Scores c.eligible) Consented
          (score_showtimes input.group.showtimes s.time c.eligible)
          (λ scored. level_four_at input c.placement (sort by_nearness scored))
          (score_showtimes_lem s.time c.eligible a)
          λ scored h. level_four_at_lem c.placement scored h.0 (omega (arith, h.1, positive)) valid)

  module _ (key_of : KeyOf) where
    add_eligible_lem :
        (h : GroupHit) (is : List ℕ) (rest : List Candidate)
        → All Offerable is
        → 0 < h.row_span
        → All Elsewhere rest
        → All Elsewhere (add_eligible key_of input h is rest)
    unfolding add_eligible
    add_eligible_lem h [] rest a span k = k
    add_eligible_lem h (i ∷ is) rest a span k = elim (Option-cases (place key_of input h)) [
      | inl missing ↦ rw missing k
      | inr (p, placed) ↦
          rw placed ((a, (omega arith, place-valid key_of input v h p span placed)), k)
    ]

    eligible_lem : (h : GroupHit) → InRange input h → All Offerable (eligible_indices input gone h)
    eligible_lem h r = elim (Bool-cases (is_gone_placement input h)) [
      | inl same ↦ rw same tt
      | inr different ↦
          rw different
            (without_gone-All gone (λ i. i < length input.group.showtimes) h.showtime_indices r)
    ]

    collect_elsewhere_lem :
        (hits : List GroupHit)
        → All (InRange input) hits
        → All (λ h. 0 < h.row_span) hits
        → All Elsewhere (collect_elsewhere key_of input gone hits)
    unfolding collect_elsewhere
    collect_elsewhere_lem [] a b = tt
    collect_elsewhere_lem (h ∷ hs) a b =
        add_eligible_lem h (eligible_indices input gone h) (collect_elsewhere key_of input gone hs)
          (eligible_lem h a.0) b.0 (collect_elsewhere_lem hs a.1 b.1)

    pub level_four_lem :
        (s : Showtime) (hits : List GroupHit)
        → get_elem? input.group.showtimes gone ≡ some s
        → common_ground input ≡ ground_at gone hits
        → Yields (assemble_recovery_level_four key_of input) Consented
    unfolding assemble_recovery_level_four level_four_on
    level_four_lem s hits at_gone e =
        let cs = collect_elsewhere key_of input gone hits in
        let found = (ground_of input gone hits e).1 in
        subst (λ g. Yields (level_four_on key_of input g) Consented) (sym e)
          (level_four_of_lem s (winner (sort by_quality cs)) at_gone λ d at.
            winner-All Elsewhere cs d
              (collect_elsewhere_lem hits (subst (AllHits (InRange input)) found v.in_range)
                (subst (AllHits (λ h. 0 < h.row_span)) found v.spans))
              at)
