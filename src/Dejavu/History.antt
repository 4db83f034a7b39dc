-- ===== src/Dejavu/History.antt =====
-- plugins/dejavu/logic.go: the rows of the encounter query and what is counted of them. Integers are
-- taken without a bound; Counts shows that no counter passes the number of rows.
pub mod Counts
use oof_rl.Prelude.{
  ℕ, ℤ, pos, zero, suc, ◌+◌, ltb_ℤ, Text, codes, Bool, true, false, not, ◌&&◌, ◌||◌, Option, none,
  some, List, [], ◌∷◌, ◌==◌, int_comparable, text_comparable, is_empty, parse_int, to_lower, lookup,
  insert, ltb, nat_beq, if◌then◌else◌,
}
use oof_rl.Wire.{Float64}
use oof_rl.Dejavu.Roster.{normalize_primary_id, is_usable_stable_id, valid_team, member}

-- The dynamic types that the accessors of a row tell apart; int and int64 are one.
pub data Value : Type 0 where
  value_nil : Value
  value_string value_bytes value_number : Text → Value
  value_int value_int32 : ℤ → Value
  value_float64 value_float32 : Float64 → Value
  value_bool : Bool → Value

abbrev pub Row : Type 0
Row = List (Text × Value)

-- Code of the runtime: fmt.Sprint, the conversion of a float to an int64, the test of a float against
-- zero, and sdk.ParseTime as the time since the zero time, which it is for a string it cannot read.
pub record Runtime : Type 0 where
  pub sprint : Value → Text
  pub int_of_float : Float64 → ℤ
  pub is_float_zero : Float64 → Bool
  pub parse_time : Text → ℕ

abbrev value_or_nil : Option Value → Value
value_or_nil none = value_nil
value_or_nil (some v) = v

-- row[key]
abbrev field_of : Row → Text → Value
field_of row key = value_or_nil (lookup key row)

abbrev string_of : Runtime → Value → Text
string_of rt (value_string v) = v
string_of rt (value_bytes v) = v
string_of rt value_nil = []
string_of rt v = rt.sprint v

abbrev int_of : Runtime → Value → ℤ
int_of rt (value_int v) = v
int_of rt (value_int32 v) = v
int_of rt (value_float64 v) = rt.int_of_float v
int_of rt (value_float32 v) = rt.int_of_float v
int_of rt (value_number v) = parse_int v
int_of rt (value_string v) = parse_int v
int_of rt _ = pos 0

abbrev bool_of : Runtime → Value → Bool
bool_of rt (value_bool v) = v
bool_of rt (value_int v) = not (v == pos 0)
bool_of rt (value_float64 v) = not (rt.is_float_zero v)
bool_of rt (value_string v) = v == codes "1" || to_lower v == codes "true"
bool_of rt _ = false

unfoldable pub row_str : Runtime → Row → Text → Text
row_str rt row key = string_of rt (field_of row key)

unfoldable pub row_int : Runtime → Row → Text → ℤ
row_int rt row key = int_of rt (field_of row key)

unfoldable pub row_bool : Runtime → Row → Text → Bool
row_bool rt row key = bool_of rt (field_of row key)

-- What the loop reads of a row.
pub record Encounter : Type 0 where
  pub target_id : Text
  pub match_guid : Text
  pub target_team : ℤ
  pub anchor_team : ℤ
  pub match_id : ℤ
  pub winner_team : ℤ
  pub incomplete : Bool
  pub started_at : Text

unfoldable pub read_row : Runtime → Row → Encounter
read_row rt row = record {
  target_id = normalize_primary_id (row_str rt row (codes "target_id"));
  match_guid = row_str rt row (codes "match_guid");
  target_team = row_int rt row (codes "target_team_num");
  anchor_team = row_int rt row (codes "anchor_team_num");
  match_id = row_int rt row (codes "match_id");
  winner_team = row_int rt row (codes "winner_team_num");
  incomplete = row_bool rt row (codes "incomplete");
  started_at = row_str rt row (codes "started_at");
}

-- The keys of seenMatchIDs are `seen_match_ids`; a nil map is the empty one.
pub record HistoryAgg : Type 0 where
  pub prior_count : ℕ
  pub with_count : ℕ
  pub against_count : ℕ
  pub with_wins : ℕ
  pub with_losses : ℕ
  pub against_wins : ℕ
  pub against_losses : ℕ
  pub with_no_result : ℕ
  pub against_no_result : ℕ
  pub last_seen : Text
  pub last_seen_time : ℕ
  pub seen_match_ids : List ℤ

abbrev pub Aggs : Type 0
Aggs = List (Text × HistoryAgg)

unfoldable pub zero_agg : HistoryAgg
zero_agg = record {
  prior_count = 0;
  with_count = 0;
  against_count = 0;
  with_wins = 0;
  with_losses = 0;
  against_wins = 0;
  against_losses = 0;
  with_no_result = 0;
  against_no_result = 0;
  last_seen = [];
  last_seen_time = 0;
  seen_match_ids = [];
}

abbrev pub agg_or_zero : Option HistoryAgg → HistoryAgg
agg_or_zero none = zero_agg
agg_or_zero (some agg) = agg

unfoldable pub seen : ℤ → List ℤ → Bool
seen id [] = false
seen id (other ∷ ids) = other == id || seen id ids

-- The tests of the loop before the aggregate is touched.
unfoldable pub is_relevant : Text → List Text → Encounter → Bool
is_relevant match_guid target_ids e =
    member e.target_id target_ids
    && is_usable_stable_id e.target_id
    && not (e.match_guid == match_guid)
    && (valid_team e.target_team && valid_team e.anchor_team)
    && ltb_ℤ (pos 0) e.match_id

abbrev pub is_with : Encounter → Bool
is_with e = e.target_team == e.anchor_team

abbrev pub is_decided : Encounter → Bool
is_decided e = not e.incomplete && valid_team e.winner_team

abbrev pub is_win : Encounter → Bool
is_win e = e.anchor_team == e.winner_team

abbrev count_side : Encounter → HistoryAgg → HistoryAgg
count_side e agg =
    let with_count = if is_with e then agg.with_count + 1 else agg.with_count in
    let against_count = if is_with e then agg.against_count else agg.against_count + 1 in
    record agg {
      seen_match_ids = e.match_id ∷ agg.seen_match_ids;
      with_count = with_count;
      against_count = against_count;
      prior_count = with_count + against_count;
    }

abbrev count_result : Encounter → HistoryAgg → HistoryAgg
count_result e agg =
    if is_decided e
    then if is_with e && is_win e
      then record agg { with_wins = agg.with_wins + 1 }
      else if is_with e
      then record agg { with_losses = agg.with_losses + 1 }
      else if is_win e
      then record agg { against_wins = agg.against_wins + 1 }
      else record agg { against_losses = agg.against_losses + 1 }
    else if is_with e
    then record agg { with_no_result = agg.with_no_result + 1 }
    else record agg { against_no_result = agg.against_no_result + 1 }

abbrev note_time : Runtime → Encounter → HistoryAgg → HistoryAgg
note_time rt e agg =
    let t = rt.parse_time e.started_at in
    if not (is_empty e.started_at) && not (nat_beq t 0) && ltb agg.last_seen_time t
    then record agg { last_seen_time = t; last_seen = e.started_at }
    else agg

unfoldable pub count_encounter : Runtime → Encounter → HistoryAgg → HistoryAgg
count_encounter rt e agg = note_time rt e (count_result e (count_side e agg))

unfoldable pub add_encounter : Runtime → Text → List Text → Encounter → Aggs → Aggs
unfolding is_relevant count_encounter
add_encounter rt match_guid target_ids e aggs =
    let agg = agg_or_zero (lookup e.target_id aggs) in
    if not (is_relevant match_guid target_ids e)
    then aggs
    else insert e.target_id
        (if seen e.match_id agg.seen_match_ids then agg else count_encounter rt e agg) aggs

-- The loop of aggregateEncounterRows.
unfoldable pub aggregate_from : Runtime → Text → List Text → List Row → Aggs → Aggs
unfolding add_encounter read_row
aggregate_from rt match_guid target_ids [] aggs = aggs
aggregate_from rt match_guid target_ids (row ∷ rows) aggs =
    aggregate_from rt match_guid target_ids rows
      (add_encounter rt match_guid target_ids (read_row rt row) aggs)

unfoldable pub aggregate_encounter_rows : Runtime → List Row → Text → List Text → Aggs
unfolding aggregate_from
aggregate_encounter_rows rt rows match_guid target_ids =
    aggregate_from rt match_guid target_ids rows []
