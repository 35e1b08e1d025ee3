-- ===== src/Legacy/Player/Stopped.antt =====
-- What asking the player of the first version to stop does.
use netdj.Prelude.{true}
use netdj.Legacy.Program.{Program}
use netdj.Legacy.Player.Thread.{Played}

-- What was played, and then the player was stopped.
abbrev pub and_stopped : Played → Played
and_stopped q = record q { program = record q.program { stop_player = true } }
