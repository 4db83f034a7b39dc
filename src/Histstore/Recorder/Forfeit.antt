-- ===== src/Histstore/Recorder/Forfeit.antt =====
-- When the recorder takes the end of a match for a forfeit.
use oof_rl.Prelude.{
  ℤ, pos, negsuc, ltb_ℤ, is_neg, ◌≡◌, refl, Bool, true, false, not, ◌&&◌, ◌||◌, Option, none, some,
  List, [], ◌∷◌, arith, ap, ◌∙◌, ◌==◌, int_comparable, if◌then◌else◌,
}
use oof_rl.Oofevents.Types.{TeamSnapshot}
use oof_rl.Histstore.Recorder.{Recorder, Lead, score_lead, team_score_lead, is_likely_forfeit}

-- The scores of the other teams.
abbrev pub opponents : ℤ → List TeamSnapshot → List ℤ
opponents winner [] = []
opponents winner (t ∷ ts) =
    let rest = opponents winner ts in if t.team_num == winner then rest else t.score ∷ rest

-- The score of the winner's team, the last one where it stands more than once.
abbrev pub last_score : ℤ → Option ℤ → List TeamSnapshot → Option ℤ
last_score winner found [] = found
last_score winner found (t ∷ ts) =
    last_score winner (if t.team_num == winner then some t.score else found) ts

abbrev pub all_below : ℤ → List ℤ → Bool
all_below s [] = true
all_below s (o ∷ os) = ltb_ℤ o s && all_below s os

abbrev pub some_opponent : List ℤ → Bool
some_opponent [] = false
some_opponent (_ ∷ _) = true

abbrev pub winner_leads : Option ℤ → List ℤ → Bool
winner_leads none os = false
winner_leads (some s) os = some_opponent os && all_below s os

abbrev below : ℤ → Lead → Bool
below s lead = not lead.opponent_found || ltb_ℤ lead.opponent_score s

below_max : (s t o : ℤ) → (ltb_ℤ o s && ltb_ℤ t s) ≡ (if ltb_ℤ o t then ltb_ℤ t s else ltb_ℤ o s)
below_max (pos s) (pos t) (pos o) = ground arith
below_max (pos s) (pos t) (negsuc o) = ground arith
below_max (pos s) (negsuc t) (pos o) = ground arith
below_max (pos s) (negsuc t) (negsuc o) = ground arith
below_max (negsuc s) (pos t) (pos o) = ground arith
below_max (negsuc s) (pos t) (negsuc o) = ground arith
below_max (negsuc s) (negsuc t) (pos o) = ground arith
below_max (negsuc s) (negsuc t) (negsuc o) = ground arith

abbrev step_lead : ℤ → TeamSnapshot → Lead → Lead
step_lead winner t lead =
    if t.team_num == winner
    then record lead { winner_score = t.score; winner_found = true }
    else if not lead.opponent_found || ltb_ℤ lead.opponent_score t.score
    then record lead { opponent_score = t.score; opponent_found = true }
    else lead

-- The loop keeps the greatest score of an opponent.
score_lead-below :
    (s winner : ℤ) (ts : List TeamSnapshot) (lead : Lead)
    → below s (score_lead winner ts lead) ≡ (below s lead && all_below s (opponents winner ts))
unfolding score_lead
score_lead-below s winner [] lead = ground arith
score_lead-below s winner (t ∷ ts) lead =
    score_lead-below s winner ts (step_lead winner t lead)
    ∙ ground (arith, below_max s t.score lead.opponent_score)

score_lead-found :
    (winner : ℤ) (ts : List TeamSnapshot) (lead : Lead)
    → (score_lead winner ts lead).opponent_found
      ≡ (lead.opponent_found || some_opponent (opponents winner ts))
unfolding score_lead
score_lead-found winner [] lead = ground arith
score_lead-found winner (t ∷ ts) lead =
    score_lead-found winner ts (step_lead winner t lead) ∙ ground arith

abbrev winner_of : Lead → Option ℤ
winner_of lead = if lead.winner_found then some lead.winner_score else none

score_lead-winner :
    (winner : ℤ) (ts : List TeamSnapshot) (lead : Lead)
    → winner_of (score_lead winner ts lead) ≡ last_score winner (winner_of lead) ts
unfolding score_lead
score_lead-winner winner [] lead = refl
score_lead-winner winner (t ∷ ts) lead =
    score_lead-winner winner ts (step_lead winner t lead)
    ∙ ap (λ (o : Option ℤ). last_score winner o ts) (ground arith)

lead_decides :
    (lead : Lead) (found : Option ℤ) (os : List ℤ)
    → winner_of lead ≡ found
    → lead.opponent_found ≡ some_opponent os
    → ((s : ℤ) → below s lead ≡ all_below s os)
    → ((lead.winner_found && lead.opponent_found) && ltb_ℤ lead.opponent_score lead.winner_score)
      ≡ winner_leads found os
lead_decides lead none os w o b = ground arith
lead_decides lead (some s) os w o b = ground (arith, b s)

abbrev no_lead : Lead
no_lead = record {
  winner_score = pos 0;
  opponent_score = pos 0;
  winner_found = false;
  opponent_found = false;
}

team_score_lead_lem :
    (winner : ℤ) (ts : List TeamSnapshot)
    → ((team_score_lead winner ts).winner_found
        && (team_score_lead winner ts).opponent_found
        && ltb_ℤ
            (team_score_lead winner ts).opponent_score
            (team_score_lead winner ts).winner_score)
      ≡ winner_leads (last_score winner none ts) (opponents winner ts)
unfolding team_score_lead
team_score_lead_lem winner ts =
    lead_decides (score_lead winner ts no_lead) (last_score winner none ts) (opponents winner ts)
      (score_lead-winner winner ts no_lead) (score_lead-found winner ts no_lead)
      (λ s. score_lead-below s winner ts no_lead)

-- The end of a match counts as a forfeit exactly if it is no overtime, the winner's number is not
-- negative, more than five seconds are left on the clock, both the winner's team and another one
-- were seen, and the winner's score is above the score of every other team.
pub is_likely_forfeit_lem :
    (winner : ℤ) (r : Recorder)
    → is_likely_forfeit winner r ≡ (
        not r.overtime
        && not (is_neg winner)
        && ltb_ℤ (pos 5) r.last_time_seconds
        && winner_leads (last_score winner none r.last_teams) (opponents winner r.last_teams))
unfolding is_likely_forfeit
is_likely_forfeit_lem winner r = ground (arith, team_score_lead_lem winner r.last_teams)
