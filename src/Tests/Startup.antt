-- ===== src/Tests/Startup.antt =====
-- The log and the start of the program at concrete inputs.
use ft_irc_duck.Base.{true, none, some, List, [], ◌∷◌, ◌++◌, ◌≡◌, refl, arith}
use ft_irc_duck.Text.{Text, codes}
use ft_irc_duck.Text.Decimal.{decimal}
use ft_irc_duck.Server.{new_server}
use ft_irc_duck.Logger.{
  Log, basic_type, error_type, error_lvl, major_lvl, minor_lvl, all_lvl, log_entry,
}
use ft_irc_duck.Logger.Entries.{
  Plain, plain_entries, error_entries, log_entry_lem, plain_entries_marked,
}
use ft_irc_duck.Startup.{Os, main, serving}
use ft_irc_duck.Startup.Port.{main_port}

abbrev now : Text
now = codes "Mon May  6 12:00:00 2024\n"

abbrev open_log : Log
open_log = record {
  is_open = true;
  path = codes "server.log";
  output = codes "x\n";
  accepted_importance = all_lvl;
  kind = basic_type;
  importance = major_lvl;
}

log_entry_lem_example :
    log_entry none (some minor_lvl) now (codes "a" ∷ codes "b" ∷ []) open_log ≡ record open_log {
      importance = minor_lvl;
      output = codes "x\n[Mon May  6 12:00:00 2024] ab\n";
    }
log_entry_lem_example =
    log_entry_lem none (some minor_lvl) now (codes "a" ∷ codes "b" ∷ []) open_log refl

-- A failed accept() is followed by a client that leaves.
abbrev later : List Plain
later = (major_lvl, now, codes "Client disconnected on socket 4" ∷ []) ∷ []

plain_entries_marked_example :
    (plain_entries later (log_entry (some error_type) (some error_lvl) now [] open_log)).output
    ≡ (log_entry (some error_type) (some error_lvl) now [] open_log).output
      ++ error_entries all_lvl later
plain_entries_marked_example = plain_entries_marked (some error_lvl) now [] later open_log refl refl

marked_line :
    error_entries all_lvl later
    ≡ codes "[Mon May  6 12:00:00 2024] {ERROR} Client disconnected on socket 4\n"
marked_line = refl

abbrev os : Os
os = record {
  socket = some 3;
  binds = λ port. true;
  listens = true;
  now = now;
  opens_log = true;
  failed_port = 0;
}

-- The server that was to listen on 72203 listens on 6667.
main_port_example :
    (l : Log) × (main os (codes "./ircserv" ∷ decimal 72203 ∷ codes "secret" ∷ [])
      ≡ serving 6667 (new_server 3 (codes "secret")) l)
main_port_example =
    main_port os (codes "./ircserv") (codes "secret") 3 72203 (omega arith) refl refl refl
