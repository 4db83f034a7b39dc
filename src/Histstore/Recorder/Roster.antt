-- ===== src/Histstore/Recorder/Roster.antt =====
-- How the recorder's map of players follows the states of a match.
use oof_rl.Prelude.{Option, none, some, text_comparable}
use oof_rl.Oofevents.Types.{PlayerSnapshot}
use oof_rl.Histstore.Players.{Players, with_touches}
use oof_rl.Histstore.Recorder.{Recorder}

abbrev map_touches : Option PlayerSnapshot → Option PlayerSnapshot → Option PlayerSnapshot
map_touches previous none = none
map_touches previous (some pl) = some (with_touches previous pl)
