-- ===== src/Schedule/Canonical.antt =====
-- packages/core/src/search-spec.ts: the canonical runs are determined by the days that are selected.
use seatfirst.Prelude.{
  ℕ, ◌+◌, ◌<◌, ◌≤◌, ◌≡◌, refl, sym, subst, ◌∙◌, true, false, List, [], ◌∷◌, All, inl, inr, ltb,
  ltb→lt, ltb→le, Bool-cases, arith,
}
use seatfirst.Schedule.{DateRun, canonicalize_date_runs}
use seatfirst.Schedule.Runs.{covers, IsRun, Separated, canonicalize_date_runs_lem}

-- No run of a separated list covers a day below its bound.
covers-low :
    (rs : List DateRun) (low day : ℕ) → Separated low rs → day < low → covers rs day ≡ false
covers-low [] low day s h = refl
covers-low (r ∷ rs) low day s h =
    ground (arith, covers-low rs (r.to + 2) day s.2 (omega (arith, s.0, s.1)), s.0)

covers-first :
    (r : DateRun) (rs : List DateRun) (low : ℕ)
    → Separated low (r ∷ rs)
    → (covers (r ∷ rs) r.from ≡ true)
      × (covers (r ∷ rs) r.to ≡ true)
      × (covers (r ∷ rs) (r.to + 1) ≡ false)
covers-first r rs low s = (
  ground (arith, s.1),
  ground (arith, s.1),
  ground (arith, covers-low rs (r.to + 2) (r.to + 1) s.2 (omega arith)),
)

-- A covered day is not before the first run; it is in it or past the gap after it.
covered :
    (r : DateRun) (rs : List DateRun) (low day : ℕ)
    → Separated low (r ∷ rs)
    → covers (r ∷ rs) day ≡ true
    → (r.from ≤ day) × (day ≤ r.to + 1 → day ≤ r.to)
covered r rs low day s h = elim (Bool-cases (ltb day (r.to + 2))) [
  | inl near ↦
      let later = covers-low rs (r.to + 2) day s.2 (ltb→lt day (r.to + 2) near) in
      (ground (arith, later), λ p. ground (arith, later))
  | inr far ↦
      let past = ltb→le day (r.to + 2) far in
      (omega (arith, past, s.1), λ p. absurd (omega (arith, past, p)))
]

SameDays : List DateRun → List DateRun → Type 0
SameDays rs ss = (day : ℕ) → covers rs day ≡ covers ss day

-- The ends of the first run: nothing else starts before, and the day after is free.
same_from :
    (r s : DateRun) (rs ss : List DateRun) (low : ℕ)
    → Separated low (r ∷ rs)
    → Separated low (s ∷ ss)
    → SameDays (r ∷ rs) (s ∷ ss)
    → s.from ≤ r.from
unfolding SameDays
same_from r s rs ss low p q h =
    (covered s ss low r.from q (sym (h r.from) ∙ (covers-first r rs low p).0)).0

same_to :
    (r s : DateRun) (rs ss : List DateRun) (low : ℕ)
    → Separated low (r ∷ rs)
    → Separated low (s ∷ ss)
    → SameDays (r ∷ rs) (s ∷ ss)
    → s.from ≤ r.to
    → s.to ≤ r.to
unfolding SameDays
same_to r s rs ss low p q h starts = elim (Bool-cases (ltb r.to s.to)) [
  | inl longer ↦
      let beyond : r.to + 1 ≤ s.to = omega (arith, ltb→lt r.to s.to longer) in
      let held : covers (s ∷ ss) (r.to + 1) ≡ true = ground (arith, starts, beyond) in
      absurd (ground (arith, held, h (r.to + 1), (covers-first r rs low p).2))
  | inr within ↦ ltb→le r.to s.to within
]

same_rest :
    (r s : DateRun) (rs ss : List DateRun) (low : ℕ)
    → r.to ≡ s.to
    → Separated low (r ∷ rs)
    → Separated (r.to + 2) ss
    → SameDays (r ∷ rs) (s ∷ ss)
    → SameDays rs ss
unfolding SameDays
same_rest r s rs ss low to p q h day = elim (Bool-cases (ltb day (r.to + 2))) [
  | inl near ↦
      let lt = ltb→lt day (r.to + 2) near in
      covers-low rs (r.to + 2) day p.2 lt ∙ sym (covers-low ss (r.to + 2) day q lt)
  | inr far ↦ ground (arith, h day, to)
]

same_list :
    (r s : DateRun) (rs ss : List DateRun)
    → r.from ≡ s.from
    → r.to ≡ s.to
    → rs ≡ ss
    → r ∷ rs ≡ s ∷ ss
same_list r s rs ss from to rest = cc

-- Two separated lists that cover the same days are the same list.
Separated-unique :
    (rs ss : List DateRun) (low : ℕ)
    → Separated low rs
    → Separated low ss
    → SameDays rs ss
    → rs ≡ ss
unfolding SameDays
Separated-unique [] [] low p q h = refl
Separated-unique [] (s ∷ ss) low p q h =
    absurd (ground (arith, h s.from, (covers-first s ss low q).0))
Separated-unique (r ∷ rs) [] low p q h =
    absurd (ground (arith, h r.from, (covers-first r rs low p).0))
Separated-unique (r ∷ rs) (s ∷ ss) low p q h =
    let back : SameDays (s ∷ ss) (r ∷ rs) = λ day. sym (h day) in
    let above = same_from r s rs ss low p q h in
    let below = same_from s r ss rs low q p back in
    let from : r.from ≡ s.from = omega (arith, above, below) in
    let to : r.to ≡ s.to = omega (
      arith,
      same_to r s rs ss low p q h (omega (arith, above, p.1)),
      same_to s r ss rs low q p back (omega (arith, below, q.1)),
    ) in
    let later : Separated (r.to + 2) ss = subst (λ t. Separated (t + 2) ss) (sym to) q.2 in
    let rest = Separated-unique rs ss (r.to + 2) p.2 later (same_rest r s rs ss low to p later h) in
    same_list r s rs ss from to rest

-- Two lists of runs, none of which ends before it starts, that select the same days have the same
-- canonical runs.
pub canonicalize_date_runs_unique :
    (runs runs' : List DateRun)
    → All IsRun runs
    → All IsRun runs'
    → ((day : ℕ) → covers runs day ≡ covers runs' day)
    → canonicalize_date_runs runs ≡ canonicalize_date_runs runs'
unfolding SameDays
canonicalize_date_runs_unique runs runs' p q h =
    let (s, c) = canonicalize_date_runs_lem runs p in
    let (s', c') = canonicalize_date_runs_lem runs' q in
    Separated-unique _ _ 0 s s' λ day. c day ∙ h day ∙ sym (c' day)
