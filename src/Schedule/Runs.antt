-- ===== src/Schedule/Runs.antt =====
-- packages/core/src/search-spec.ts: `canonicalizeDateRuns` and the days that runs cover.
use seatfirst.Prelude.{
  ℕ, ◌+◌, ◌≤◌, ◌≡◌, refl, sym, ap, subst, ◌∙◌, Bool, true, false, ◌&&◌, ◌||◌, List, [], ◌∷◌, All,
  inl, inr, leb, ◌==◌, Bool-cases, arith,
}
use seatfirst.Sorting.{insert, sort, All-sort}
use seatfirst.Schedule.{
  DateRun, run_order, drop_repeats, dedupe, touches, joined, merge_from, merge,
  canonicalize_date_runs,
}

-- A day lies in one of the runs.
abbrev pub covers : List DateRun → ℕ → Bool
covers [] day = false
covers (r ∷ rs) day = (leb r.from day && leb day r.to) || covers rs day

abbrev pub IsRun : DateRun → Type 0
IsRun r = r.from ≤ r.to

-- No run starts before the one in front of it.
abbrev Ordered : ℕ → List DateRun → Type 0
Ordered low [] = Unit
Ordered low (r ∷ rs) = (low ≤ r.from) × Ordered r.from rs

-- Runs in order, with at least one free day between two of them; the first starts from `low` on.
abbrev pub Separated : ℕ → List DateRun → Type 0
Separated low [] = Unit
Separated low (r ∷ rs) = (low ≤ r.from) × (r.from ≤ r.to) × Separated (r.to + 2) rs

covers-insert :
    (r : DateRun) (rs : List DateRun) (day : ℕ)
    → covers (insert run_order r rs) day ≡ covers (r ∷ rs) day
unfolding insert
covers-insert r [] day = refl
covers-insert r (s ∷ rs) day = elim (Bool-cases (run_order s r)) [
  | inl later ↦ rw later (ground (arith, covers-insert r rs day))
  | inr here ↦ rw here refl
]

covers-sort : (rs : List DateRun) (day : ℕ) → covers (sort run_order rs) day ≡ covers rs day
unfolding sort
covers-sort [] day = refl
covers-sort (r ∷ rs) day =
    covers-insert r (sort run_order rs) day ∙ ground (arith, covers-sort rs day)

Ordered-insert :
    (r : DateRun) (rs : List DateRun) (low : ℕ)
    → low ≤ r.from
    → Ordered low rs
    → Ordered low (insert run_order r rs)
unfolding insert
Ordered-insert r [] low p q = (p, tt)
Ordered-insert r (s ∷ rs) low p q = elim (Bool-cases (run_order s r)) [
  | inl later ↦
      let above : s.from ≤ r.from = ground arith in
      rw later (q.0, Ordered-insert r rs s.from above q.1)
  | inr here ↦ let above : r.from ≤ s.from = ground arith in rw here (p, (above, q.1))
]

Ordered-sort : (rs : List DateRun) → Ordered 0 (sort run_order rs)
unfolding sort
Ordered-sort [] = tt
Ordered-sort (r ∷ rs) = Ordered-insert r (sort run_order rs) 0 (omega arith) (Ordered-sort rs)

same_run :
    (a b : DateRun) → (a.from == b.from && a.to == b.to) ≡ true → (a.from ≡ b.from) × (a.to ≡ b.to)
same_run a b h = (ground arith, ground arith)

covers-drop_repeats :
    (last : DateRun) (rs : List DateRun) (day : ℕ)
    → covers (last ∷ drop_repeats last rs) day ≡ covers (last ∷ rs) day
unfolding drop_repeats
covers-drop_repeats last [] day = refl
covers-drop_repeats last (r ∷ rs) day = elim (Bool-cases (last.from == r.from && last.to == r.to)) [
  | inl same ↦
      let (f, t) = same_run last r same in
      rw same (ground (arith, f, t, covers-drop_repeats last rs day))
  | inr other ↦ rw other (ground (arith, covers-drop_repeats r rs day))
]

Ordered-drop_repeats :
    (last : DateRun) (rs : List DateRun)
    → Ordered last.from rs
    → Ordered last.from (drop_repeats last rs)
unfolding drop_repeats
Ordered-drop_repeats last [] h = tt
Ordered-drop_repeats last (r ∷ rs) h = elim (Bool-cases (last.from == r.from && last.to == r.to)) [
  | inl same ↦
      let (f, t) = same_run last r same in
      rw (same, Ordered) (Ordered-drop_repeats last rs (subst (λ low. Ordered low rs) (sym f) h.1))
  | inr other ↦ rw (other, Ordered) (h.0, Ordered-drop_repeats r rs h.1)
]

All-drop_repeats :
    (last : DateRun) (rs : List DateRun) → All IsRun rs → All IsRun (drop_repeats last rs)
unfolding drop_repeats
All-drop_repeats last [] h = tt
All-drop_repeats last (r ∷ rs) h = elim (Bool-cases (last.from == r.from && last.to == r.to)) [
  | inl same ↦ rw (same, All) (All-drop_repeats last rs h.1)
  | inr other ↦ rw (other, All) (h.0, All-drop_repeats r rs h.1)
]

covers-joined :
    (last r : DateRun) (day : ℕ)
    → IsRun last
    → IsRun r
    → last.from ≤ r.from
    → touches last r ≡ true
    → (leb last.from day && leb day (joined last r).to)
      ≡ ((leb last.from day && leb day last.to) || (leb r.from day && leb day r.to))
covers-joined last r day p q above h = ground arith

merge_near :
    (last r : DateRun) (rs : List DateRun)
    → touches last r ≡ true
    → merge_from last (r ∷ rs) ≡ merge_from (joined last r) rs
unfolding merge_from
merge_near last r rs near = rw (near, merge_from) refl

merge_far :
    (last r : DateRun) (rs : List DateRun)
    → touches last r ≡ false
    → merge_from last (r ∷ rs) ≡ last ∷ merge_from r rs
unfolding merge_from
merge_far last r rs far = rw (far, merge_from) refl

-- Merging from a run on.
merge_from_lem :
    (last : DateRun) (rs : List DateRun) (low : ℕ)
    → low ≤ last.from
    → IsRun last
    → Ordered last.from rs
    → All IsRun rs
    → Separated low (merge_from last rs)
      × ((day : ℕ) → covers (merge_from last rs) day ≡ covers (last ∷ rs) day)
unfolding merge_from
merge_from_lem last [] low p q o a = ((p, q, tt), λ day. refl)
merge_from_lem last (r ∷ rs) low p q o a = elim (Bool-cases (touches last r)) [
  | inl near ↦
      let longer : last.from ≤ (joined last r).to = ground arith in
      let order : Ordered last.from rs = Ordered-lower rs r.from last.from o.0 o.1 in
      let (s, c) = merge_from_lem (joined last r) rs low p longer order a.1 in
      let e = merge_near last r rs near in
      (
        subst (Separated low) (sym e) s,
        λ day.
            ap (λ runs. covers runs day) e
            ∙ c day
            ∙ ground (arith, covers-joined last r day q a.0 o.0 near),
      )
  | inr far ↦
      let gap : last.to + 2 ≤ r.from = ground arith in
      let (s, c) = merge_from_lem r rs (last.to + 2) gap a.0 o.1 a.1 in
      let e = merge_far last r rs far in
      (
        subst (Separated low) (sym e) (p, q, s),
        λ day. ap (λ runs. covers runs day) e ∙ ground (arith, c day),
      )
]
  where
    Ordered-lower :
        (rs : List DateRun) (high low : ℕ) → low ≤ high → Ordered high rs → Ordered low rs
    Ordered-lower [] high low p h = tt
    Ordered-lower (r ∷ rs) high low p h = (omega (arith, h.0), h.1)

merge_dedupe_lem :
    (rs : List DateRun)
    → Ordered 0 rs
    → All IsRun rs
    → Separated 0 (merge (dedupe rs)) × ((day : ℕ) → covers (merge (dedupe rs)) day ≡ covers rs day)
unfolding merge dedupe
merge_dedupe_lem [] o a = (tt, λ day. refl)
merge_dedupe_lem (r ∷ rs) o a =
    let (s, c) =
      merge_from_lem r (drop_repeats r rs) 0 o.0 a.0 (Ordered-drop_repeats r rs o.1)
        (All-drop_repeats r rs a.1) in
    (s, λ day. c day ∙ covers-drop_repeats r rs day)

-- For runs none of which ends before it starts, the canonical runs are in order, with at least one
-- free day between two of them, and cover exactly the same days.
pub canonicalize_date_runs_lem :
    (runs : List DateRun)
    → All IsRun runs
    → Separated 0 (canonicalize_date_runs runs)
      × ((day : ℕ) → covers (canonicalize_date_runs runs) day ≡ covers runs day)
unfolding canonicalize_date_runs
canonicalize_date_runs_lem runs a =
    let (s, c) =
      merge_dedupe_lem (sort run_order runs) (Ordered-sort runs)
        (All-sort IsRun run_order runs a) in
    (s, λ day. c day ∙ covers-sort runs day)
