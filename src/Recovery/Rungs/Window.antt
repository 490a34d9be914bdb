-- ===== src/Recovery/Rungs/Window.antt =====
-- packages/core/src/recovery-ladder.ts: levels 1 and 3, inside and outside the window of rows.
use seatfirst.Prelude.{
  ℕ, ◌+◌, ◌-◌, ◌*◌, ◌≤◌, ◌<◌, ◌≡◌, ◌≢◌, ◌⊎◌, refl, sym, subst, Bool, true, false, Option, none,
  some, List, [], ◌∷◌, inl, inr, All, length, arith,
}
use seatfirst.Prelude.Outcome.{Yields}
use seatfirst.Sorting.{In}
use seatfirst.Recovery.{
  Placement, GroupHit, LadderInput, RecoveryOption, KeyOf, offered_at, Candidate, by_quality,
  by_distance, ground_at, common_ground, build_placement,
}
use seatfirst.Recovery.Schema.{parse_built}
use seatfirst.Recovery.Rungs.{
  near_test, far_test, plain_option, place, level_one_on, level_three_on,
  assemble_recovery_level_one, assemble_recovery_level_three,
}
use seatfirst.Recovery.Rungs.Valid.{
  AllHits, IsLadderInput, In-All, ground_of, place-valid, plain-parsed, valid-span,
}
use seatfirst.Recovery.Rungs.Seats.{cells_at, place-Unnamed, place-Named}
use seatfirst.Blocks.{Named, Unnamed}
use seatfirst.Recovery.Rungs.Near.{
  candidate, Best, Accounted, offer-Best, by_distance-IsOrder, by_quality-IsOrder,
}

offered_at-In : (is : List ℕ) (i : ℕ) → offered_at is i ≡ true → In i is
offered_at-In [] i e = ground arith
offered_at-In (j ∷ js) i e = ground (arith, e, offered_at-In js i)

In-offered_at : (is : List ℕ) (i : ℕ) → In i is → offered_at is i ≡ true
In-offered_at [] i m = absurd m
In-offered_at (j ∷ js) i (inl e) = ground (arith, e)
In-offered_at (j ∷ js) i (inr m) = ground (arith, In-offered_at js i m)

module _ (key_of : KeyOf) (input : LadderInput) (gone : ℕ) (hits : List GroupHit) where
  -- Offered at the gone showtime, within two rows of the gone seats, and not these seats.
  abbrev pub IsNear : GroupHit → Type 0
  IsNear h =
      In gone h.showtime_indices
      × ((h.row ≢ input.gone_placement.row) ⊎ (h.start_col ≢ input.gone_placement.start_col))
      × (h.row ≤ input.gone_placement.row + 2)
      × (input.gone_placement.row ≤ h.row + 2)

  -- Offered at the gone showtime, more than two rows away.
  abbrev pub IsFar : GroupHit → Type 0
  IsFar h =
      In gone h.showtime_indices
      × ((input.gone_placement.row + 2 < h.row) ⊎ (h.row + 2 < input.gone_placement.row))

  -- |Δrow| * W + |Δcol|
  abbrev pub steps : GroupHit → ℕ
  steps h =
      ((h.row - input.gone_placement.row) + (input.gone_placement.row - h.row)) * input.row_weight
      + ((h.start_col - input.gone_placement.start_col)
          + (input.gone_placement.start_col - h.start_col))

  -- A seat of the hit's block has no name.
  abbrev pub LacksName : GroupHit → Type 0
  LacksName h = Unnamed input.group.seat_names (cells_at key_of input h)

  -- An option at the gone showtime, unrelaxed, for as many seats as were lost, where the hit is.
  pub record IsSeat (level : ℕ) (h : GroupHit) (o : RecoveryOption) : Type 0 where
    pub level_is : o.level ≡ level
    pub layout_id : o.placement.layout_id ≡ input.group.layout_id
    pub row : o.placement.row ≡ h.row
    pub start_col : o.placement.start_col ≡ h.start_col
    pub row_span : o.placement.row_span ≡ h.row_span
    pub count : o.placement.count ≡ input.gone_placement.count
    pub seats : Named input.group.seat_names (cells_at key_of input h) o.placement.seat_names
    pub showtime_id : o.showtime_id ≡ input.gone_showtime_id
    pub relaxed : o.relaxed ≡ []
    pub consent : o.requires_consent ≡ false

  -- The hits that are eligible, and how one of them compares with another.
  module _ (level : ℕ) (Eligible : GroupHit → Type 0) (NoWorse : GroupHit → GroupHit → Type 0) where
    pub record Chosen (o : RecoveryOption) : Type 0 where
      pub hit : GroupHit
      pub among : In hit hits
      pub eligible : Eligible hit
      pub seat : IsSeat level hit o
      pub no_better : (h : GroupHit) → In h hits → Eligible h → (LacksName h → ⊥) → NoWorse hit h

    -- The chosen option, or none where no eligible hit has all its seat names.
    abbrev pub Choice : Option RecoveryOption → Type 0
    Choice none = (h : GroupHit) → In h hits → Eligible h → LacksName h
    Choice (some o) = Chosen o

    gone-span : IsLadderInput input → 0 < input.gone_placement.row_span
    gone-span v = valid-span input.gone_placement v.parsed.gone_placement

    placed_option :
        (span : 0 < input.gone_placement.row_span) (h : GroupHit) (p : Placement)
        → place key_of input h ≡ some p
        → IsSeat level h (plain_option level p input.gone_showtime_id)
    unfolding place build_placement
    placed_option span h p e = record {
      level_is = refl;
      layout_id = ground (arith, e);
      row = ground (arith, e);
      start_col = ground (arith, e);
      row_span = ground (arith, e);
      count = ground (arith, e);
      seats = place-Named key_of input span h p e;
      showtime_id = refl;
      relaxed = refl;
      consent = refl;
    }

    module _ (test : GroupHit → Bool) (before : Candidate → Candidate → Bool)
        (passes : (h : GroupHit) → test h ≡ true → Eligible h)
        (eligible : (h : GroupHit) → Eligible h → test h ≡ true)
        (compare : (h k : GroupHit) (p q : Placement)
          → before (candidate key_of input test k q) (candidate key_of input test h p) ≡ false
          → NoWorse h k) where
      accounted :
          (P : Candidate → Type 0) (h : GroupHit)
          → Accounted key_of input test P h
          → Eligible h
          → (place key_of input h ≡ none)
            ⊎ ((p : Placement) × (place key_of input h ≡ some p)
                × P (candidate key_of input test h p))
      accounted P h (inl failed) e = absurd (ground (arith, failed, eligible h e))
      accounted P h (inr (inl missing)) e = inl missing
      accounted P h (inr (inr reached)) e = inr (reached.placement, reached.placed, reached.holds)

      choice :
          IsLadderInput input
          → All (λ h. 0 < h.row_span) hits
          → 0 < level
          → level < 4
          → (r : Option RecoveryOption) → Best key_of input test before level hits r
          → Yields (parse_built r) Choice
      unfolding parse_built
      choice v spans low high none b = (
        none,
        refl,
        λ h m e. elim (accounted (λ c. ⊥) h (In-All _ hits h b m) e) [
          | inl missing ↦ place-Unnamed key_of input (gone-span v) h missing
          | inr (p, placed, impossible) ↦ absurd impossible
        ],
      )
      choice v spans low high (some o) b =
          let c = b.candidate in
          let p = b.best.placement in
          let span = gone-span v in
          let valid =
            place-valid key_of input v c.hit p (In-All _ hits c.hit spans c.among) c.placed in
          let parsed =
            plain-parsed level p input.gone_showtime_id low high valid v.parsed.gone_showtime_id in
          (
            some (plain_option level p input.gone_showtime_id),
            rw b.offered parsed,
            record {
              hit = c.hit;
              among = c.among;
              eligible = passes c.hit c.passes;
              seat = placed_option span c.hit p c.placed;
              no_better = λ h m e named. elim (accounted _ h (In-All _ hits h b.none_before m) e) [
                | inl missing ↦ absurd (named (place-Unnamed key_of input span h missing))
                | inr (q, placed, holds) ↦ compare c.hit h p q (
                    subst (λ x. before (candidate key_of input test h q) x ≡ false) c.made_of holds)
              ];
            },
          )

  spans_of :
      IsLadderInput input
      → common_ground input ≡ ground_at gone hits
      → All (λ h. 0 < h.row_span) hits
  spans_of v e = subst (AllHits (λ h. 0 < h.row_span)) (ground_of input gone hits e).1 v.spans

  near_test-IsNear : (h : GroupHit) → near_test input gone h ≡ true → IsNear h
  near_test-IsNear h e = (
    offered_at-In h.showtime_indices gone (ground (arith, e)),
    ground (arith, e),
    ground (arith, e),
    ground (arith, e),
  )

  near-eligible : (h : GroupHit) → IsNear h → near_test input gone h ≡ true
  near-eligible h n = ground (arith, n, In-offered_at h.showtime_indices gone n.0)

  far_test-IsFar : (h : GroupHit) → far_test input gone h ≡ true → IsFar h
  far_test-IsFar h e =
      (offered_at-In h.showtime_indices gone (ground (arith, e)), ground (arith, e))

  far-eligible : (h : GroupHit) → IsFar h → far_test input gone h ≡ true
  far-eligible h n = ground (arith, n, In-offered_at h.showtime_indices gone n.0)

  abbrev pub NoFarther : GroupHit → GroupHit → Type 0
  NoFarther h k = steps h ≤ steps k

  -- Scored at least as well and, at the same score, offered at no fewer showtimes.
  abbrev pub NoLowerScore : GroupHit → GroupHit → Type 0
  NoLowerScore h k =
      (k.run_score ≤ h.run_score)
      × (k.run_score ≡ h.run_score → length k.showtime_indices ≤ length h.showtime_indices)

  near-compare :
      (h k : GroupHit) (p q : Placement)
      → by_distance
          (candidate key_of input (near_test input gone) k q)
          (candidate key_of input (near_test input gone) h p)
        ≡ false
      → NoFarther h k
  near-compare h k p q e = ground (arith, e)

  far-compare :
      (h k : GroupHit) (p q : Placement)
      → by_quality
          (candidate key_of input (far_test input gone) k q)
          (candidate key_of input (far_test input gone) h p)
        ≡ false
      → NoLowerScore h k
  far-compare h k p q e = (ground (arith, e), λ same. ground (arith, e, same))

  -- For a ladder input that has passed the schemas, on the common ground of a gone showtime and
  -- hits, level 1 returns without crashing: an unrelaxed option at the gone showtime, for as many
  -- seats as were lost, with the names of the block's seats in row-major order, where a hit is that
  -- is offered at that showtime within two rows of the gone seats and is not these seats, such that
  -- no other such hit whose cells all have names has a smaller row distance times the row weight
  -- plus column distance; or nothing, and then the block of every such hit has a cell without a
  -- name.
  pub level_one_lem :
      IsLadderInput input
      → common_ground input ≡ ground_at gone hits
      → Yields (assemble_recovery_level_one key_of input) (Choice 1 IsNear NoFarther)
  unfolding assemble_recovery_level_one level_one_on
  level_one_lem v e =
      subst (λ g. Yields (level_one_on key_of input g) (Choice 1 IsNear NoFarther)) (sym e)
        (choice 1 IsNear NoFarther (near_test input gone) by_distance near_test-IsNear near-eligible
          near-compare v (spans_of v e) (omega arith) (omega arith) _
          (offer-Best key_of input (near_test input gone) by_distance 1 hits by_distance-IsOrder))

  -- For a ladder input that has passed the schemas, on the common ground of a gone showtime and
  -- hits, level 3 returns without crashing: an unrelaxed option at the gone showtime, for as many
  -- seats as were lost, with the names of the block's seats in row-major order, where a hit is that
  -- is offered at that showtime more than two rows from the gone seats, such that every other such
  -- hit whose cells all have names has at most its run score and, at the same score, no more
  -- showtimes; or nothing, and then the block of every such hit has a cell without a name.
  pub level_three_lem :
      IsLadderInput input
      → common_ground input ≡ ground_at gone hits
      → Yields (assemble_recovery_level_three key_of input) (Choice 3 IsFar NoLowerScore)
  unfolding assemble_recovery_level_three level_three_on
  level_three_lem v e =
      subst (λ g. Yields (level_three_on key_of input g) (Choice 3 IsFar NoLowerScore)) (sym e)
        (choice 3 IsFar NoLowerScore (far_test input gone) by_quality far_test-IsFar far-eligible
          far-compare v (spans_of v e) (omega arith) (omega arith) _
          (offer-Best key_of input (far_test input gone) by_quality 3 hits by_quality-IsOrder))
