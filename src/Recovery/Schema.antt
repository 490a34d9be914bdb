-- ===== src/Recovery/Schema.antt =====
-- packages/core/src/result-contracts.ts: the schema that every option passes before it is returned.
-- A number is natural by its type; the placement key has 16 digits, so it is never empty.
use seatfirst.Prelude.{
  String, Bool, true, false, not, ◌&&◌, ◌||◌, Option, none, some, List, [], ◌∷◌, length, ltb, ◌==◌,
  if◌then◌else◌,
}
use seatfirst.Prelude.Outcome.{Outcome, ok, throw}
use text.Mathlib.Text.{◌==◌ as same_text}
use seatfirst.Recovery.{Placement, Relaxation, RecoveryOption, Crash, invalid_option}

-- z.string().min(1)
abbrev pub is_nonempty : String → Bool
is_nonempty s = not (same_text s "")

unfoldable pub all_nonempty : List String → Bool
all_nonempty [] = true
all_nonempty (s ∷ ss) = is_nonempty s && all_nonempty ss

-- PlacementSchema
unfoldable pub is_valid_placement : Placement → Bool
unfolding all_nonempty
is_valid_placement p =
    is_nonempty p.layout_id
    && ltb 0 p.row_span
    && ltb 0 p.count
    && ltb 0 (length p.seat_names)
    && all_nonempty p.seat_names

abbrev known_relaxation_kinds : List String
known_relaxation_kinds =
    "OUTSIDE_REGION" ∷ "EARLIER_THAN_PREFERRED" ∷ "LATER_THAN_PREFERRED" ∷ "DIFFERENT_FORMAT"
    ∷ "FEWER_SHOWTIMES" ∷ "UNRESOLVED_SHOWTIMES" ∷ []

unfoldable pub has_kind : List String → String → Bool
has_kind [] kind = false
has_kind (k ∷ ks) kind = same_text k kind || has_kind ks kind

-- RelaxationSchema of a kind with a label: the known kinds have no label.
unfoldable pub is_valid_relaxation : Relaxation → Bool
unfolding has_kind
is_valid_relaxation r = is_nonempty r.kind && not (has_kind known_relaxation_kinds r.kind)

unfoldable pub all_valid_relaxations : List Relaxation → Bool
unfolding is_valid_relaxation
all_valid_relaxations [] = true
all_valid_relaxations (r ∷ rs) = is_valid_relaxation r && all_valid_relaxations rs

-- RecoveryOptionSchema: the levels 1 to 3, and level 4, which is relaxed and asks for consent.
unfoldable pub is_valid_option : RecoveryOption → Bool
unfolding is_valid_placement all_valid_relaxations
is_valid_option o =
    is_valid_placement o.placement
    && is_nonempty o.showtime_id
    && all_valid_relaxations o.relaxed
    && (o.level == 1
        || o.level == 2
        || o.level == 3
        || o.level == 4 && ltb 0 (length o.relaxed) && o.requires_consent)

-- RecoveryOptionSchema.parse
unfoldable pub parse_option : RecoveryOption → Outcome Crash (Option RecoveryOption)
unfolding is_valid_option
parse_option o = if is_valid_option o then ok (some o) else throw invalid_option

-- A rung returns null, or the option that it built, parsed.
unfoldable pub parse_built : Option RecoveryOption → Outcome Crash (Option RecoveryOption)
unfolding parse_option
parse_built none = ok none
parse_built (some o) = parse_option o
