-- ===== src/Recovery/Rungs/Near.antt =====
-- packages/core/src/recovery-ladder.ts: the candidates of levels 1 and 3 and the first of them.
use seatfirst.Prelude.{
  ℕ, ◌≡◌, ◌⊎◌, refl, sym, subst, Bool, true, false, Option, none, some, List, [], ◌∷◌, inl, inr,
  All, Bool-cases, Option-cases, arith, length,
}
use seatfirst.Sorting.{
  sort, In, IsOrder, sort-First, ascending-IsOrder, descending-IsOrder, tied-IsOrder,
}
use seatfirst.Recovery.{
  build_placement, Placement, GroupHit, LadderInput, RecoveryOption, KeyOf, Candidate, by_quality,
  by_distance,
}
use seatfirst.Recovery.Rungs.{distance_to, plain_option, winner, offer, place, collect}

pub by_quality-IsOrder : IsOrder by_quality
by_quality-IsOrder =
    descending-IsOrder (λ c. c.hit.run_score)
      (descending-IsOrder (λ c. length c.hit.showtime_indices)
        (ascending-IsOrder (λ c. c.hit.start_col)
          (ascending-IsOrder (λ c. c.placement.placement_key) tied-IsOrder)))

pub by_distance-IsOrder : IsOrder by_distance
by_distance-IsOrder = ascending-IsOrder (λ c. c.distance) by_quality-IsOrder

pub place-seat :
    (key_of : KeyOf) (input : LadderInput) (h : GroupHit) (p : Placement)
    → place key_of input h ≡ some p
    → (p.row ≡ h.row) × (p.start_col ≡ h.start_col)
unfolding place build_placement
place-seat key_of input h p e = ground arith

module _ (key_of : KeyOf) (input : LadderInput) (test : GroupHit → Bool) where
  -- The candidate of a hit and its placement.
  abbrev pub candidate : GroupHit → Placement → Candidate
  candidate h p = record { hit = h; placement = p; distance = distance_to input h; eligible = [] }

  -- A candidate made of a hit that passes the test and has all its seat names.
  pub record IsCandidate (hits : List GroupHit) (c : Candidate) : Type 0 where
    pub hit : GroupHit
    pub among : In hit hits
    pub passes : test hit ≡ true
    pub placed : place key_of input hit ≡ some c.placement
    pub made_of : c ≡ candidate hit c.placement

  -- A hit whose candidate has a property.
  pub record Reached (P : Candidate → Type 0) (h : GroupHit) : Type 0 where
    pub placement : Placement
    pub placed : place key_of input h ≡ some placement
    pub holds : P (candidate h placement)

  -- A hit fails the test, lacks a seat name, or its candidate has the property.
  abbrev pub Accounted : (Candidate → Type 0) → GroupHit → Type 0
  Accounted P h = (test h ≡ false) ⊎ ((place key_of input h ≡ none) ⊎ Reached P h)

  later :
      (h : GroupHit) (hs : List GroupHit) (c : Candidate)
      → IsCandidate hs c
      → IsCandidate (h ∷ hs) c
  later h hs c k = record {
    hit = k.hit;
    among = inr k.among;
    passes = k.passes;
    placed = k.placed;
    made_of = k.made_of;
  }

  here :
      (h : GroupHit) (hs : List GroupHit) (p : Placement)
      → test h ≡ true
      → place key_of input h ≡ some p
      → IsCandidate (h ∷ hs) (candidate h p)
  here h hs p passed named = record {
    hit = h;
    among = inl refl;
    passes = passed;
    placed = named;
    made_of = refl;
  }

  collect-IsCandidate :
      (hits : List GroupHit) (c : Candidate)
      → In c (collect key_of input test hits)
      → IsCandidate hits c
  unfolding collect
  collect-IsCandidate [] c m = absurd m
  collect-IsCandidate (h ∷ hs) c m = elim (Bool-cases (test h)) [
    | inl passed ↦ elim (Option-cases (place key_of input h)) [
      | inl missing ↦ later h hs c (collect-IsCandidate hs c (rw (passed, missing) at m))
      | inr (p, named) ↦
          let m' : (c ≡ candidate h p) ⊎ In c (collect key_of input test hs) =
            rw (passed, named) at m in
          elim m' [
            | inl e ↦ subst (λ x. IsCandidate (h ∷ hs) x) (sym e) (here h hs p passed named)
            | inr t ↦ later h hs c (collect-IsCandidate hs c t)
          ]
    ]
    | inr failed ↦ later h hs c (collect-IsCandidate hs c (rw failed at m))
  ]

  collect-All :
      (P : Candidate → Type 0) (hits : List GroupHit)
      → All P (collect key_of input test hits)
      → All (Accounted P) hits
  unfolding collect
  collect-All P [] a = tt
  collect-All P (h ∷ hs) a = elim (Bool-cases (test h)) [
    | inl passed ↦ elim (Option-cases (place key_of input h)) [
      | inl missing ↦ (inr (inl missing), collect-All P hs (rw (passed, missing) at a))
      | inr (p, named) ↦
          let a' : All P (candidate h p ∷ collect key_of input test hs) = rw (passed, named) at a in
          (inr (inr record { placement = p; placed = named; holds = a'.0 }), collect-All P hs a'.1)
    ]
    | inr failed ↦ (inl failed, collect-All P hs (rw failed at a))
  ]

  module _ (before : Candidate → Candidate → Bool) (level : ℕ) (hits : List GroupHit) where
    -- The option is that of a candidate that none of the hits' candidates comes before.
    pub record BestOption (o : RecoveryOption) : Type 0 where
      pub best : Candidate
      pub candidate : IsCandidate hits best
      pub offered : o ≡ plain_option level best.placement input.gone_showtime_id
      pub none_before : All (Accounted (λ c. before c best ≡ false)) hits

    -- No option at all: no hit has a candidate.
    abbrev pub Best : Option RecoveryOption → Type 0
    Best none = All (Accounted (λ c. ⊥)) hits
    Best (some o) = BestOption o

    candidate_of :
        IsOrder before
        → (cs : List Candidate) → collect key_of input test hits ≡ cs
        → Best (offer level input.gone_showtime_id (winner (sort before cs)))
    unfolding sort
    candidate_of o [] e = collect-All (λ c. ⊥) hits (subst (λ cs. All (λ c. ⊥) cs) (sym e) tt)
    candidate_of o (x ∷ xs) e =
        let f = sort-First o x xs in
        rw f.sorted_as record {
          best = f.first;
          candidate =
              collect-IsCandidate hits f.first (subst (λ cs. In f.first cs) (sym e) f.member);
          offered = refl;
          none_before =
              collect-All (λ c. before c f.first ≡ false) hits
                (subst (λ cs. All (λ c. before c f.first ≡ false) cs) (sym e) f.none_before);
        }

    pub offer-Best :
        IsOrder before
        → Best (
            offer level input.gone_showtime_id
              (winner (sort before (collect key_of input test hits))))
    offer-Best o = candidate_of o (collect key_of input test hits) refl
