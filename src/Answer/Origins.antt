-- ===== src/Answer/Origins.antt =====
-- packages/core/src/answer-assembly.ts: the candidates of the hits of all groups.
use seatfirst.Prelude.{
  ℕ, ◌+◌, ◌*◌, ◌≡◌, ◌⊎◌, refl, sym, subst, String, Option, none, some, List, [], ◌∷◌, ◌++◌, map,
  length, inl, inr, All,
}
use seatfirst.Prelude.Outcome.{Yields}
use seatfirst.Sorting.{In}
use seatfirst.Recovery.{GroupHit, KeyOf}
use seatfirst.Answer.{
  Measure, AnswerGroup, GroupShowtime, Spec, Dimensions, Candidate, member_cells, candidate_of,
  candidate_when_named, build_candidate, build_hits, build_groups, hits_of_group,
}
use seatfirst.Answer.Ranked.{somes, all_candidates}
use seatfirst.Blocks.{block_cells, Named, Unnamed}
use seatfirst.Answer.Built.{MembersOf, member_cells_lem, OffersAt, Resolves, offers_of_lem}
use seatfirst.Answer.Conditions.{Meets, relaxed_for-Meets, Meets-relaxed_for}

abbrev pub HitResolves : List GroupShowtime → GroupHit → Type 0
HitResolves showtimes hit = All (Resolves showtimes) hit.showtime_indices

abbrev pub GroupResolves : {R : Type 0} → AnswerGroup R → Type 0
GroupResolves g = All (HitResolves g.showtimes) (hits_of_group g.group_hits)

In-split : {A : Type 0} (x : A) (xs ys : List A) → In x (xs ++ ys) → In x xs ⊎ In x ys
In-split x [] ys m = inr m
In-split x (y ∷ ys) zs (inl e) = inl (inl e)
In-split x (y ∷ ys) zs (inr m) = elim (In-split x ys zs m) [
  | inl here ↦ inl (inr here)
  | inr there ↦ inr there
]

module _ (M : Measure) (key_of : KeyOf) (spec : Spec M.Real) (d : Dimensions) where
  -- The cells that a hit takes.
  abbrev pub cells_at : AnswerGroup M.Real → GroupHit → List ℕ
  cells_at g hit =
      block_cells g.columns hit.row_span d.columns_of (hit.row * g.columns + hit.start_col)

  -- A recommendation of the hit's seats by their names, with the hit's showtimes; it has no
  -- relaxation exactly if the hit meets the specification.
  pub record CandidateOf (g : AnswerGroup M.Real) (hit : GroupHit) (c : Candidate M.Real)
      : Type 0 where
    pub score : c.score ≡ hit.run_score
    pub layout_id : c.recommendation.placement.layout_id ≡ g.layout_id
    pub row : c.recommendation.placement.row ≡ hit.row
    pub start_col : c.recommendation.placement.start_col ≡ hit.start_col
    pub row_span : c.recommendation.placement.row_span ≡ hit.row_span
    pub count : c.recommendation.placement.count ≡ d.count
    pub seats : Named g.seat_names (cells_at g hit) c.recommendation.placement.seat_names
    pub offers : OffersAt g.showtimes hit.showtime_indices c.recommendation.showtimes
    pub exact_meets :
        c.recommendation.relaxed ≡ []
        → Meets M key_of spec g (length hit.showtime_indices) (cells_at g hit)
    pub meets_exact :
        Meets M key_of spec g (length hit.showtime_indices) (cells_at g hit)
        → c.recommendation.relaxed ≡ []

  -- A hit has a candidate unless one of its cells has no name.
  abbrev pub BuiltFrom : AnswerGroup M.Real → GroupHit → Option (Candidate M.Real) → Type 0
  BuiltFrom g hit none = Unnamed g.seat_names (cells_at g hit)
  BuiltFrom g hit (some c) = CandidateOf g hit c

  abbrev pub BuiltHits :
      AnswerGroup M.Real → List GroupHit → List (Option (Candidate M.Real)) → Type 0
  BuiltHits g [] [] = Unit
  BuiltHits g [] (c ∷ cs) = ⊥
  BuiltHits g (h ∷ hs) [] = ⊥
  BuiltHits g (h ∷ hs) (c ∷ cs) = BuiltFrom g h c × BuiltHits g hs cs

  -- One list for each group, in it one entry for each hit.
  abbrev pub BuiltGroups :
      List (AnswerGroup M.Real) → List (List (Option (Candidate M.Real))) → Type 0
  BuiltGroups [] [] = Unit
  BuiltGroups [] (cs ∷ css) = ⊥
  BuiltGroups (g ∷ gs) [] = ⊥
  BuiltGroups (g ∷ gs) (cs ∷ css) = BuiltHits g (hits_of_group g.group_hits) cs × BuiltGroups gs css

  candidate_when_named_lem :
      (g : AnswerGroup M.Real) (hit : GroupHit) (members : Option (List (ℕ × String)))
      → MembersOf g.seat_names (cells_at g hit) members
      → HitResolves g.showtimes hit
      → Yields (candidate_when_named M key_of spec g d hit members) (BuiltFrom g hit)
  unfolding candidate_when_named candidate_of
  candidate_when_named_lem g hit none m a = (none, refl, m)
  candidate_when_named_lem g hit (some members) (same, named) a =
      let (offers, e, o) = offers_of_lem g.showtimes hit.showtime_indices a in
      let n = length hit.showtime_indices in
      (
        some (candidate_of M key_of spec g hit d members offers),
        rw e refl,
        record {
          score = refl;
          layout_id = refl;
          row = refl;
          start_col = refl;
          row_span = refl;
          count = refl;
          seats = named;
          offers = o;
          exact_meets = λ x.
              subst (Meets M key_of spec g n) same
                (relaxed_for-Meets M key_of spec g n (map (λ m. m.0) members) x);
          meets_exact = λ x.
              Meets-relaxed_for M key_of spec g n (map (λ m. m.0) members)
                (subst (Meets M key_of spec g n) (sym same) x);
        },
      )

  build_hits_lem :
      (g : AnswerGroup M.Real) (hits : List GroupHit)
      → All (HitResolves g.showtimes) hits
      → Yields (build_hits M key_of spec g d hits) (BuiltHits g hits)
  unfolding build_hits build_candidate
  build_hits_lem g [] a = ([], refl, tt)
  build_hits_lem g (hit ∷ hits) a =
      let (c, e, b) =
        candidate_when_named_lem g hit
          (member_cells g.seat_names g.columns hit.row_span d.columns_of
            (hit.row * g.columns + hit.start_col))
          (member_cells_lem g.seat_names g.columns hit.row_span d.columns_of
            (hit.row * g.columns + hit.start_col))
          a.0 in
      let (cs, e', bs) = build_hits_lem g hits a.1 in (c ∷ cs, rw (e, e') refl, (b, bs))

  pub build_groups_lem :
      (groups : List (AnswerGroup M.Real))
      → All GroupResolves groups
      → Yields (build_groups M key_of spec d groups) (BuiltGroups groups)
  unfolding build_groups
  build_groups_lem [] a = ([], refl, tt)
  build_groups_lem (g ∷ gs) a =
      let (cs, e, b) = build_hits_lem g (hits_of_group g.group_hits) a.0 in
      let (built, e', bs) = build_groups_lem gs a.1 in (cs ∷ built, rw (e, e') refl, (b, bs))

  -- The hit of a group that a candidate comes from.
  pub record Origin (groups : List (AnswerGroup M.Real)) (c : Candidate M.Real) : Type 0 where
    pub group : AnswerGroup M.Real
    pub among : In group groups
    pub hit : GroupHit
    pub hit_among : In hit (hits_of_group group.group_hits)
    pub made : CandidateOf group hit c

  somes-origin :
      (g : AnswerGroup M.Real) (hits : List GroupHit) (cs : List (Option (Candidate M.Real)))
      (c : Candidate M.Real)
      → BuiltHits g hits cs
      → In c (somes cs)
      → (hit : GroupHit) × In hit hits × CandidateOf g hit c
  unfolding somes
  somes-origin g [] [] c b m = absurd m
  somes-origin g [] (x ∷ xs) c b m = absurd b
  somes-origin g (h ∷ hs) [] c b m = absurd b
  somes-origin g (h ∷ hs) (none ∷ xs) c b m =
      let (hit, k, made) = somes-origin g hs xs c b.1 m in (hit, inr k, made)
  somes-origin g (h ∷ hs) (some x ∷ xs) c b (inl e) =
      (h, inl refl, subst (CandidateOf g h) (sym e) b.0)
  somes-origin g (h ∷ hs) (some x ∷ xs) c b (inr m) =
      let (hit, k, made) = somes-origin g hs xs c b.1 m in (hit, inr k, made)

  -- Every candidate is that of a hit of one of the groups.
  pub all_candidates-Origin :
      (groups : List (AnswerGroup M.Real)) (built : List (List (Option (Candidate M.Real))))
      (c : Candidate M.Real)
      → BuiltGroups groups built
      → In c (all_candidates built)
      → Origin groups c
  unfolding all_candidates
  all_candidates-Origin [] [] c b m = absurd m
  all_candidates-Origin [] (cs ∷ css) c b m = absurd b
  all_candidates-Origin (g ∷ gs) [] c b m = absurd b
  all_candidates-Origin (g ∷ gs) (cs ∷ css) c b m =
      elim (In-split c (somes cs) (all_candidates css) m) [
        | inl here ↦
            let (hit, k, made) = somes-origin g (hits_of_group g.group_hits) cs c b.0 here in
            record { group = g; among = inl refl; hit = hit; hit_among = k; made = made }
        | inr there ↦
            let o = all_candidates-Origin gs css c b.1 there in
            record {
              group = o.group;
              among = inr o.among;
              hit = o.hit;
              hit_among = o.hit_among;
              made = o.made;
            }
      ]
