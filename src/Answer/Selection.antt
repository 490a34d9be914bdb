-- ===== src/Answer/Selection.antt =====
-- packages/core/src/answer-assembly.ts: which candidates become the exact recommendation and the
-- hedged alternatives.
use seatfirst.Prelude.{
  ◌≡◌, refl, sym, subst, Bool, true, false, Option, none, some, List, [], ◌∷◌, map, length, All,
  inl, inr, Bool-cases, arith,
}
use seatfirst.Sorting.{
  sort, IsOrder, ascending-IsOrder, descending-IsOrder, tied-IsOrder, In, IsSorted, sort-IsSorted,
  In-sort, sort-In, length-sort,
}
use seatfirst.Recovery.{KeyOf, Placement}
use seatfirst.Answer.{Measure, Candidate, Evidence, Alternatives, candidate_order}
use seatfirst.Answer.Ranked.{
  is_exact, find_exact, alternatives_of, all_candidates, placement_of, evidence_of, select,
}

module _ (M : Measure) (key_of : KeyOf) where
  abbrev before : Candidate M.Real → Candidate M.Real → Bool
  before = candidate_order M key_of

  before-IsOrder : IsOrder before
  before-IsOrder =
      descending-IsOrder (λ c. M.score_position c.score)
        (descending-IsOrder (λ c. c.showtime_count)
          (ascending-IsOrder (λ c. M.position (M.from_sweet_spot c.mean_depth))
            (ascending-IsOrder (λ c. M.position c.mean_depth)
              (ascending-IsOrder (λ c. c.start_col)
                (ascending-IsOrder (λ c. c.placement_key) tied-IsOrder)))))

  -- The first exact candidate of a sorted list, if there is one.
  data FirstExact (ranked : List (Candidate M.Real)) : Option (Candidate M.Real) → Type 0 where
    no_exact : ((c : Candidate M.Real) → In c ranked → is_exact c ≡ false) → FirstExact ranked none
    first_exact :
        (c : Candidate M.Real)
        → In c ranked
        → is_exact c ≡ true
        → ((y : Candidate M.Real) → In y ranked → is_exact y ≡ true → before y c ≡ false)
        → FirstExact ranked (some c)

  before_self : (c : Candidate M.Real) → before c c ≡ false
  before_self c = ground (arith, before-IsOrder.asymmetric c c)

  All-In :
      (P : Candidate M.Real → Type 0) (xs : List (Candidate M.Real)) (y : Candidate M.Real)
      → All P xs
      → In y xs
      → P y
  All-In P [] y a m = absurd m
  All-In P (x ∷ xs) y a (inl e) = subst P (sym e) a.0
  All-In P (x ∷ xs) y a (inr m) = All-In P xs y a.1 m

  find_here :
      (x : Candidate M.Real) (xs : List (Candidate M.Real))
      → is_exact x ≡ true
      → find_exact (x ∷ xs) ≡ some x
  unfolding find_exact
  find_here x xs h = rw h refl

  find_later :
      (x : Candidate M.Real) (xs : List (Candidate M.Real))
      → is_exact x ≡ false
      → find_exact (x ∷ xs) ≡ find_exact xs
  unfolding find_exact
  find_later x xs h = rw h refl

  exact_or_not : (x y : Candidate M.Real) → is_exact x ≡ false → y ≡ x → is_exact y ≡ true → ⊥
  exact_or_not x y h same e =
      let e' : is_exact x ≡ true = subst (λ z. is_exact z ≡ true) same e in ground arith

  one_more :
      (x : Candidate M.Real) (xs : List (Candidate M.Real))
      → is_exact x ≡ false
      → (found : Option (Candidate M.Real)) → FirstExact xs found
      → FirstExact (x ∷ xs) found
  one_more x xs h none (no_exact f) = no_exact λ c m. elim m [
    | inl here ↦ subst (λ z. is_exact z ≡ false) (sym here) h
    | inr there ↦ f c there
  ]
  one_more x xs h (some c) (first_exact c' m exact f) =
      first_exact c' (inr m) exact
        λ y n e. elim n [ inl here ↦ absurd (exact_or_not x y h here e) | inr there ↦ f y there e ]

  find_exact_lem :
      (ranked : List (Candidate M.Real))
      → IsSorted before ranked
      → FirstExact ranked (find_exact ranked)
  unfolding find_exact
  find_exact_lem [] s = no_exact (λ c m. absurd m)
  find_exact_lem (x ∷ xs) s = elim (Bool-cases (is_exact x)) [
    | inl exact ↦ subst (FirstExact (x ∷ xs)) (sym (find_here x xs exact)) (
        first_exact x (inl refl) exact λ y m e. elim m [
          | inl here ↦ subst (λ z. before z x ≡ false) (sym here) (before_self x)
          | inr there ↦ All-In (λ z. before z x ≡ false) xs y s.0 there
        ])
    | inr relaxed ↦
        subst (FirstExact (x ∷ xs)) (sym (find_later x xs relaxed))
          (one_more x xs relaxed (find_exact xs) (find_exact_lem xs s.1))
  ]

  -- The choice among the candidates, of which `ranked` is the sorted list. An exact candidate that no
  -- exact candidate comes before is the only recommendation; without one the first candidates of the
  -- sorted list, two or three, are the alternatives, all of them relaxed.
  pub data Choice (candidates ranked : List (Candidate M.Real)) (e : Evidence) : Type 0 where
    best :
        (c : Candidate M.Real)
        → In c candidates
        → is_exact c ≡ true
        → ((y : Candidate M.Real) → In y candidates → is_exact y ≡ true → before y c ≡ false)
        → e.exact ≡ some c.recommendation
        → e.hedged ≡ none
        → Choice candidates ranked e
    relaxed_only :
        ((y : Candidate M.Real) → In y candidates → is_exact y ≡ false)
        → e.exact ≡ none
        → e.hedged ≡ alternatives_of ranked
        → Choice candidates ranked e

  pub record IsSelection (built : List (List (Option (Candidate M.Real)))) (e : Evidence)
      : Type 0 where
    pub ranked : List (Candidate M.Real)
    pub sorted : IsSorted before ranked
    pub members :
        (c : Candidate M.Real)
        → (In c ranked → In c (all_candidates built)) × (In c (all_candidates built) → In c ranked)
    pub size : length ranked ≡ length (all_candidates built)
    pub placements : e.hit_placements ≡ map (map placement_of) built
    pub choice : Choice (all_candidates built) ranked e

  evidence_of-Choice :
      (candidates : List (Candidate M.Real)) (placements : List (List (Option Placement)))
      (found : Option (Candidate M.Real))
      → FirstExact (sort before candidates) found
      → Choice candidates
          (sort before candidates)
          (evidence_of found (alternatives_of (sort before candidates)) placements)
  evidence_of-Choice candidates placements none (no_exact f) =
      relaxed_only (λ y m. f y (sort-In before y candidates m)) refl refl
  evidence_of-Choice candidates placements (some c) (first_exact c' m exact f) =
      best c' (In-sort before c' candidates m) exact
        (λ y n e. f y (sort-In before y candidates n) e) refl refl

  placements_of :
      (found : Option (Candidate M.Real)) (hedged : Option Alternatives)
      (placements : List (List (Option Placement)))
      → (evidence_of found hedged placements).hit_placements ≡ placements
  placements_of none hedged placements = refl
  placements_of (some c) hedged placements = refl

  -- What is selected, whatever the candidates are.
  pub select_lem :
      (built : List (List (Option (Candidate M.Real)))) → IsSelection built (select M key_of built)
  unfolding select
  select_lem built =
      let candidates = all_candidates built in
      record {
        ranked = sort before candidates;
        sorted = sort-IsSorted before-IsOrder candidates;
        members = λ c. (In-sort before c candidates, sort-In before c candidates);
        size = length-sort before candidates;
        placements = placements_of _ _ _;
        choice =
            evidence_of-Choice candidates (map (map placement_of) built)
              (find_exact (sort before candidates))
              (find_exact_lem (sort before candidates) (sort-IsSorted before-IsOrder candidates));
      }
