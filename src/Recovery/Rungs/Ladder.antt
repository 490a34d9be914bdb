-- ===== src/Recovery/Rungs/Ladder.antt =====
-- packages/core/src/recovery-ladder.ts: the ladder of the four rungs.
use seatfirst.Prelude.{
  ℕ, suc, ◌+◌, ◌-◌, ◌≤◌, ◌≡◌, ◌⊎◌, refl, ap, subst, false, ◌&&◌, Option, none, some, List, [], ◌∷◌,
  inl, inr, String, get_elem?, ◌==◌, Bool-cases, arith,
}
use seatfirst.Prelude.Outcome.{Outcome, ok, Yields}
use text.Mathlib.Text.{◌==◌ as same_text}
use seatfirst.Recovery.{
  GroupHit, LadderInput, Showtime, RecoveryOption, Crash, KeyOf, Ground, no_ground, ground_at,
  common_ground, resolve_gone_showtime_index, index_from,
}
use seatfirst.Recovery.Rungs.{
  level_two_of, level_one_on, level_three_on, level_four_on, or_else, assemble_recovery_level_one,
  assemble_recovery_level_two, assemble_recovery_level_three, assemble_recovery_level_four,
  assemble_recovery_ladder,
}
use seatfirst.Recovery.Rungs.Valid.{IsLadderInput, GroundOf, common_ground-GroundOf}
use seatfirst.Recovery.Rungs.Window.{
  IsNear, IsFar, NoFarther, NoLowerScore, Choice, level_one_lem, level_three_lem,
}
use seatfirst.Recovery.Rungs.Elsewhere.{LeavesShowtime, SecondRung, level_two_lem}
use seatfirst.Recovery.Rungs.Anytime.{Consented, level_four_lem}

index_from_lem :
    (id : String) (i : ℕ) (ss : List Showtime) (k : ℕ)
    → index_from id i ss ≡ some k
    → (i ≤ k) × (s : Showtime) × (get_elem? ss (k - i) ≡ some s)
unfolding index_from
index_from_lem id i [] k e = ground arith
index_from_lem id i (s ∷ ss) k e = elim (Bool-cases (same_text s.showtime_id id)) [
  | inl same ↦
      let e' : some i ≡ some k = rw same at e in
      let n : k ≡ i = ground (arith, e') in
      let z : k - i ≡ 0 = omega (arith, n) in (omega (arith, n), s, rw z refl)
  | inr other ↦
      let (bound, t, found) = index_from_lem id (i + 1) ss k (rw other at e) in
      let z : k - i ≡ suc (k - (i + 1)) = omega (arith, bound) in
      (omega (arith, bound), t, rw z found)
]

module _ (key_of : KeyOf) (input : LadderInput) (gone : ℕ) (hits : List GroupHit) where
  -- An option: at the gone showtime with other seats and without consent, or at another showtime; consent
  -- is asked for at level 4 and only there.
  pub record IsOffer (o : RecoveryOption) : Type 0 where
    pub consent : o.requires_consent ≡ (o.level == 4)
    pub level_bound : (1 ≤ o.level) × (o.level ≤ 4)
    pub moves :
        ((o.placement.row == input.gone_placement.row
            && o.placement.start_col == input.gone_placement.start_col)
          ≡ false)
        ⊎ LeavesShowtime input gone o

  pub Offers : Option RecoveryOption → Type 0
  Offers none = Unit
  Offers (some o) = IsOffer o

  near_offer :
      (r : Option RecoveryOption)
      → Choice key_of input gone hits 1
          (IsNear key_of input gone hits)
          (NoFarther key_of input gone hits)
          r
      → Offers r
  unfolding Offers
  near_offer none c = tt
  near_offer (some o) c = record {
    consent = ground (arith, c.seat.consent, c.seat.level_is);
    level_bound = ground (arith, c.seat.level_is);
    moves = inl (ground (arith, c.seat.row, c.seat.start_col, c.eligible.1));
  }

  far_offer :
      (r : Option RecoveryOption)
      → Choice key_of input gone hits 3
          (IsFar key_of input gone hits)
          (NoLowerScore key_of input gone hits)
          r
      → Offers r
  unfolding Offers
  far_offer none c = tt
  far_offer (some o) c = record {
    consent = ground (arith, c.seat.consent, c.seat.level_is);
    level_bound = ground (arith, c.seat.level_is);
    moves = inl (ground (arith, c.seat.row, c.eligible.1));
  }

  level_two_offer : (r : Option RecoveryOption) → SecondRung input gone hits r → Offers r
  unfolding Offers
  level_two_offer none m = tt
  level_two_offer (some o) m = record {
    consent = ground (arith, m.option);
    level_bound = ground (arith, m.option);
    moves = inr record {
      index = m.index;
      other = m.other;
      showtime = m.showtime;
      found = m.found;
      named = ground (arith, m.option);
    };
  }

  level_four_offer :
      (v : IsLadderInput input) (r : Option RecoveryOption) → Consented input gone v r → Offers r
  unfolding Offers
  level_four_offer v none c = tt
  level_four_offer v (some o) (l, f) = record {
    consent = ground (arith, f);
    level_bound = ground (arith, f);
    moves = inr l;
  }

  Offers-by :
      {P : Option RecoveryOption → Type 0} (rung : Outcome Crash (Option RecoveryOption))
      → ((r : Option RecoveryOption) → P r → Offers r)
      → Yields rung P
      → Yields rung Offers
  Offers-by rung f (r, e, p) = (r, e, f r p)

  or_else_lem :
      (rung next : Outcome Crash (Option RecoveryOption))
      → Yields rung Offers
      → Yields next Offers
      → Yields (or_else rung next) Offers
  unfolding Offers
  or_else_lem rung next (none, e, o) n = rw e n
  or_else_lem rung next (some x, e, o) n = (some x, rw e refl, o)

  -- On the ground of a gone showtime that the group has.
  ladder_at :
      (s : Showtime)
      → IsLadderInput input
      → common_ground input ≡ ground_at gone hits
      → get_elem? input.group.showtimes gone ≡ some s
      → Yields (assemble_recovery_ladder key_of input) Offers
  unfolding assemble_recovery_ladder
  ladder_at s v e at_gone =
      or_else_lem _ _ (Offers-by _ near_offer (level_one_lem key_of input gone hits v e)) (
        or_else_lem _ _ (Offers-by _ level_two_offer (level_two_lem input gone v hits e)) (
          or_else_lem _ _ (Offers-by _ far_offer (level_three_lem key_of input gone hits v e)) (
            Offers-by _ (level_four_offer v)
              (level_four_lem input gone v key_of s hits at_gone e))))

-- What the ladder offers: nothing, or an option that is offered on the common ground.
abbrev pub LadderOffers : KeyOf → LadderInput → Option RecoveryOption → Type 0
LadderOffers key_of input none = Unit
LadderOffers key_of input (some o) =
    (gone : ℕ) × (hits : List GroupHit) × (common_ground input ≡ ground_at gone hits)
    × IsOffer key_of input gone hits o

module _ (key_of : KeyOf) (input : LadderInput) where
  ladder_on :
      (g : Ground)
      → common_ground input ≡ g
      → GroundOf input g
      → IsLadderInput input
      → Yields (assemble_recovery_ladder key_of input) (LadderOffers key_of input)
  unfolding GroundOf assemble_recovery_ladder assemble_recovery_level_one
      assemble_recovery_level_two assemble_recovery_level_three assemble_recovery_level_four
      level_one_on level_two_of level_three_on level_four_on resolve_gone_showtime_index Offers
  ladder_on no_ground e k v = (
    none,
    ap
        (λ g. or_else (level_one_on key_of input g) (
          or_else (level_two_of input g)
            (or_else (level_three_on key_of input g) (level_four_on key_of input g))))
        e,
    tt,
  )
  ladder_on (ground_at gone hits) e (resolved, has_hits) v =
      let (_, s, found) =
        index_from_lem input.gone_showtime_id 0 input.group.showtimes gone resolved in
      let at_gone : get_elem? input.group.showtimes gone ≡ some s =
        subst (λ i. get_elem? input.group.showtimes i ≡ some s) (omega arith) found in
      let r = ladder_at key_of input gone hits s v e at_gone in
      elim r.0
          as (λ o.
            (assemble_recovery_ladder key_of input ≡ ok o)
            → Offers key_of input gone hits o
            → Yields (assemble_recovery_ladder key_of input) (LadderOffers key_of input)) [
              | none ↦ λ f h. (none, f, tt)
              | some o ↦ λ f h. (some o, f, (gone, hits, e, h))
            ]
        r.1 r.2

  -- If the gone placement has passed PlacementSchema, the names and identifiers of the group are
  -- not empty, and its hits have rows and name showtimes of the group, the ladder returns without
  -- crashing, so the schema refuses no option that it builds, and an option it returns has a level
  -- from 1 to 4, asks for consent exactly at level 4, and either places the party away from the
  -- gone row and column or names a showtime of another index than the gone one.
  pub assemble_recovery_ladder_lem :
      IsLadderInput input
      → Yields (assemble_recovery_ladder key_of input) (LadderOffers key_of input)
  assemble_recovery_ladder_lem v =
      ladder_on (common_ground input) refl (common_ground-GroundOf input) v
