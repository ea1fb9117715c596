-- ===== src/Logger.antt =====
-- srcs/logger/Logger.hpp and Logger.cpp: entries of a log file, by kind and importance. The static
-- members are a state, the file is the text that has been written to it, and ctime() is a parameter.
pub mod Entries
use ft_irc_duck.Base.{
  ℕ, ◌+◌, ◌-◌, Bool, true, false, not, ◌&&◌, ◌||◌, Option, none, some, List, [], ◌∷◌, ◌++◌,
  if◌then◌else◌, length, take,
}
use ft_irc_duck.Text.{Text, codes}

pub data LogType : Type 0 where
  basic_type error_type : LogType

-- log_importance_level: an int whose bits are the levels. `~` also sets the bits above these five,
-- which no value but its own results has; the program uses it under `&` alone.
pub record LogImportanceLevel : Type 0 where
  pub error : Bool
  pub major : Bool
  pub minor : Bool
  pub debug : Bool
  pub time : Bool

abbrev pub none_lvl : LogImportanceLevel
none_lvl = record { error = false; major = false; minor = false; debug = false; time = false }

abbrev pub error_lvl : LogImportanceLevel
error_lvl = record none_lvl { error = true }

abbrev pub major_lvl : LogImportanceLevel
major_lvl = record none_lvl { major = true }

abbrev pub minor_lvl : LogImportanceLevel
minor_lvl = record none_lvl { minor = true }

abbrev pub debug_lvl : LogImportanceLevel
debug_lvl = record none_lvl { debug = true }

abbrev pub time_lvl : LogImportanceLevel
time_lvl = record none_lvl { time = true }

-- The int that a value stands for.
unfoldable pub level_bits : LogImportanceLevel → ℕ
level_bits a =
    (if a.error then 1 else 0)
    + (if a.major then 2 else 0)
    + (if a.minor then 4 else 0)
    + (if a.debug then 8 else 0)
    + (if a.time then 16 else 0)

-- operator|
unfoldable pub or_level : LogImportanceLevel → LogImportanceLevel → LogImportanceLevel
or_level a b = record {
  error = a.error || b.error;
  major = a.major || b.major;
  minor = a.minor || b.minor;
  debug = a.debug || b.debug;
  time = a.time || b.time;
}

xor_bit : Bool → Bool → Bool
xor_bit a b = if a then not b else b

-- operator^
unfoldable pub xor_level : LogImportanceLevel → LogImportanceLevel → LogImportanceLevel
unfolding xor_bit
xor_level a b = record {
  error = xor_bit a.error b.error;
  major = xor_bit a.major b.major;
  minor = xor_bit a.minor b.minor;
  debug = xor_bit a.debug b.debug;
  time = xor_bit a.time b.time;
}

-- operator&
unfoldable pub and_level : LogImportanceLevel → LogImportanceLevel → LogImportanceLevel
and_level a b = record {
  error = a.error && b.error;
  major = a.major && b.major;
  minor = a.minor && b.minor;
  debug = a.debug && b.debug;
  time = a.time && b.time;
}

-- operator~
unfoldable pub not_level : LogImportanceLevel → LogImportanceLevel
not_level a = record {
  error = not a.error;
  major = not a.major;
  minor = not a.minor;
  debug = not a.debug;
  time = not a.time;
}

abbrev pub all_lvl : LogImportanceLevel
all_lvl = record { error = true; major = true; minor = true; debug = true; time = true }

-- `(a & b) != 0`
abbrev pub has_common : LogImportanceLevel → LogImportanceLevel → Bool
has_common a b =
    (a.error && b.error)
    || (a.major && b.major)
    || (a.minor && b.minor)
    || (a.debug && b.debug)
    || (a.time && b.time)

-- The static members. `output` is what the file holds that was opened last, under `path`.
pub record Log : Type 0 where
  pub is_open : Bool
  pub path : Text
  pub output : Text
  pub accepted_importance : LogImportanceLevel
  pub kind : LogType
  pub importance : LogImportanceLevel

-- The static initialisation.
unfoldable pub initial_log : Log
initial_log = record {
  is_open = false;
  path = [];
  output = [];
  accepted_importance = record {
    error = true;
    major = true;
    minor = false;
    debug = false;
    time = true;
  };
  kind = basic_type;
  importance = major_lvl;
}

-- `_file << t`: a stream without a file takes nothing.
abbrev pub put : Text → Log → Log
put t l = record l { output = if l.is_open then l.output ++ t else l.output }

abbrev pub is_important_enough : Log → Bool
is_important_enough l = has_common l.accepted_importance l.importance

-- What put_timestamp writes; the last character of ctime()'s text is a newline, and goes.
abbrev pub stamp : Text → LogType → Text
stamp now kind =
    codes "["
    ++ (take (length now - 1) now
        ++ (codes "] " ++ elim kind [ basic_type ↦ [] | error_type ↦ codes "{ERROR} " ]))

unfoldable pub put_timestamp : Text → Log → Log
put_timestamp now l = put (stamp now l.kind) l

abbrev pub set_default_type : LogType → Log → Log
set_default_type kind l = record l { kind = kind }

abbrev pub set_default_importance : LogImportanceLevel → Log → Log
set_default_importance importance l = record l { importance = importance }

unfoldable pub accept_importance : LogImportanceLevel → Log → Log
accept_importance accepted l = record l { accepted_importance = accepted }

-- open_log_file, with whether the file can be opened. Opening a file empties it.
unfoldable pub open_log_file : Bool → Text → Log → Log
open_log_file can_open path l =
    if l.is_open
    then l
    else if can_open
    then record l { is_open = true; path = path; output = [] }
    else l

unfoldable pub close_log_file : Log → Log
close_log_file l = record l { is_open = false }

unfoldable pub enable_time : Bool → Log → Log
enable_time enable l =
    if enable && not (has_common l.accepted_importance time_lvl)
    then record l { accepted_importance = or_level l.accepted_importance time_lvl }
    else if not enable && has_common l.accepted_importance time_lvl
    then record l { accepted_importance = and_level l.accepted_importance (not_level time_lvl) }
    else l

-- Logger::quit
unfoldable pub quit_log : Log → Log
quit_log l = put (codes "End of logs\n") l

-- What the four constructors do to the defaults.
abbrev pub or_default {ℓ} : {A : Type ℓ} → Option A → A → A
or_default none a = a
or_default (some b) a = b

-- The constructors: the one given no type, or no importance, takes the one that was set last.
unfoldable pub start_entry : Option LogType → Option LogImportanceLevel → Text → Log → Log
unfolding put_timestamp
start_entry kind importance now l =
    let l' = record l {
      kind = or_default kind l.kind;
      importance = or_default importance l.importance;
    } in
    if is_important_enough l' && has_common l'.accepted_importance time_lvl
    then put_timestamp now l'
    else l'

-- operator<<
unfoldable pub add_text : Text → Log → Log
add_text t l = if is_important_enough l then put t l else l

unfoldable pub add_texts : List Text → Log → Log
unfolding add_text
add_texts [] l = l
add_texts (t ∷ ts) l = add_texts ts (add_text t l)

-- The destructor.
unfoldable pub end_entry : Log → Log
end_entry l = if is_important_enough l then put (codes "\n") l else l

-- `Logger(kind, importance) << t << ...`
unfoldable pub log_entry : Option LogType → Option LogImportanceLevel → Text → List Text → Log → Log
log_entry kind importance now ts l = end_entry (add_texts ts (start_entry kind importance now l))
