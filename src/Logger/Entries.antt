-- ===== src/Logger/Entries.antt =====
-- What an entry of srcs/logger/Logger.cpp writes.
use ft_irc_duck.Base.{
  Bool, true, false, Option, none, some, List, [], ◌∷◌, ◌++◌, ◌≡◌, refl, arith, append_assoc,
  append-nil, ◌∙◌, ap, Bool-cases, if◌then◌else◌, inl, inr, length, take, ◌-◌,
}
use ft_irc_duck.Text.{concat, Text, codes}
use ft_irc_duck.Logger.{
  LogType, basic_type, error_type, LogImportanceLevel, has_common, Log, is_important_enough, stamp,
  or_default, start_entry, add_text, add_texts, end_entry, log_entry,
}

abbrev type_mark : LogType → Text
type_mark kind = elim kind [ basic_type ↦ [] | error_type ↦ codes "{ERROR} " ]

-- The text of an entry: the time in brackets and the mark of an error where times are written, the
-- texts, and a newline.
abbrev pub entry_text : Text → LogType → Bool → List Text → Text
entry_text now kind timed ts =
    (if timed
      then codes "[" ++ (take (length now - 1) now ++ (codes "] " ++ type_mark kind))
      else [])
    ++ (concat ts ++ codes "\n")

add_texts_accepted :
    (ts : List Text) (l : Log)
    → l.is_open ≡ true
    → is_important_enough l ≡ true
    → add_texts ts l ≡ record l { output = l.output ++ concat ts }
unfolding add_texts add_text
add_texts_accepted [] l o e = ground (arith, append-nil {0} l.output)
add_texts_accepted (t ∷ ts) l o e = ground (
  arith,
  o,
  e,
  append_assoc {0} l.output t (concat ts),
  add_texts_accepted ts (record l { output = l.output ++ t }) o e,
)

add_texts_refused : (ts : List Text) (l : Log) → is_important_enough l ≡ false → add_texts ts l ≡ l
unfolding add_texts add_text
add_texts_refused [] l e = refl
add_texts_refused (t ∷ ts) l e = ground (arith, e, add_texts_refused ts l e)

add_texts_lem :
    (ts : List Text) (l : Log)
    → l.is_open ≡ true
    → add_texts ts l
      ≡ record l { output = if is_important_enough l then l.output ++ concat ts else l.output }
add_texts_lem ts l o = elim (Bool-cases (is_important_enough l)) [
  | inl e ↦ rw e (add_texts_accepted ts l o e)
  | inr e ↦ rw e (add_texts_refused ts l e)
]

start_entry_lem :
    (kind : Option LogType) (importance : Option LogImportanceLevel) (now : Text) (l : Log)
    → l.is_open ≡ true
    → start_entry kind importance now l ≡ record l {
      kind = or_default kind l.kind;
      importance = or_default importance l.importance;
      output =
          if has_common l.accepted_importance (or_default importance l.importance)
          then l.output
            ++ (if l.accepted_importance.time then stamp now (or_default kind l.kind) else [])
          else l.output;
    }
unfolding start_entry
start_entry_lem kind importance now l o = ground (arith, o, append-nil {0} l.output)

-- An entry is written to the open file where its importance, or the one set before, is accepted: the
-- time in brackets and the mark of an error, where times are accepted, then the texts and a newline.
-- It is not written at all where its importance is not accepted. Its type and importance become those of the entries
-- that are given none.
pub log_entry_lem :
    (kind : Option LogType) (importance : Option LogImportanceLevel) (now : Text) (ts : List Text)
    (l : Log)
    → l.is_open ≡ true
    → log_entry kind importance now ts l ≡ record l {
      kind = or_default kind l.kind;
      importance = or_default importance l.importance;
      output =
          if has_common l.accepted_importance (or_default importance l.importance)
          then l.output ++ entry_text now (or_default kind l.kind) l.accepted_importance.time ts
          else l.output;
    }
unfolding log_entry end_entry
log_entry_lem kind importance now ts l o =
    rw (start_entry_lem kind importance now l o, add_texts_lem ts begun o)
      (ground (
        arith,
        o,
        append_assoc {0} l.output mark (concat ts ++ codes "\n"),
        append_assoc {0} (l.output ++ mark) (concat ts) (codes "\n"),
      ))
  where
    mark : Text
    mark = if l.accepted_importance.time then stamp now (or_default kind l.kind) else []

    begun : Log
    begun = record l {
      kind = or_default kind l.kind;
      importance = or_default importance l.importance;
      output =
          if has_common l.accepted_importance (or_default importance l.importance)
          then l.output ++ mark
          else l.output;
    }

-- Entries that name their importance alone, with the time and the texts of each.
abbrev pub Plain : Type 0
Plain = LogImportanceLevel × Text × List Text

abbrev pub plain_entries : List Plain → Log → Log
plain_entries [] l = l
plain_entries ((importance, now, ts) ∷ es) l =
    plain_entries es (log_entry none (some importance) now ts l)

abbrev pub lines_of : LogType → LogImportanceLevel → List Plain → Text
lines_of kind accepted [] = []
lines_of kind accepted ((importance, now, ts) ∷ es) =
    (if has_common accepted importance then entry_text now kind accepted.time ts else [])
    ++ lines_of kind accepted es

plain_entries_lines :
    (es : List Plain) (l : Log)
    → l.is_open ≡ true
    → (plain_entries es l).output ≡ l.output ++ lines_of l.kind l.accepted_importance es
plain_entries_lines [] l o = ground (arith, append-nil {0} l.output)
plain_entries_lines ((importance, now, ts) ∷ es) l o =
    ap (λ (m : Log). (plain_entries es m).output) (log_entry_lem none (some importance) now ts l o)
    ∙ (plain_entries_lines es _ o
        ∙ elim (Bool-cases (has_common l.accepted_importance importance)) [
          | inl e ↦ rw e (
              append_assoc {0} l.output (entry_text now l.kind l.accepted_importance.time ts)
                (lines_of l.kind l.accepted_importance es))
          | inr e ↦ rw e refl
        ])

-- What marked entries are written as.
abbrev pub error_entries : LogImportanceLevel → List Plain → Text
error_entries accepted [] = []
error_entries accepted ((importance, now, ts) ∷ es) =
    (if has_common accepted importance
      then codes "["
        ++ (take (length now - 1) now ++ (codes "] {ERROR} " ++ (concat ts ++ codes "\n")))
      else [])
    ++ error_entries accepted es

lines_of-error :
    (accepted : LogImportanceLevel) (es : List Plain)
    → accepted.time ≡ true
    → lines_of error_type accepted es ≡ error_entries accepted es
lines_of-error accepted [] h = refl
lines_of-error accepted ((importance, now, ts) ∷ es) h =
    rw
      (
        h,
        lines_of-error accepted es h,
        append_assoc {0} (take (length now - 1) now) (codes "] {ERROR} ") (concat ts ++ codes "\n"),
      )
      refl

-- Of the entries directly behind one of the type error_type that name only their importance, each
-- that is accepted is written with the mark {ERROR} behind its time, where times are accepted.
pub plain_entries_marked :
    (importance : Option LogImportanceLevel) (now : Text) (ts : List Text) (es : List Plain)
    (l : Log)
    → l.is_open ≡ true
    → l.accepted_importance.time ≡ true
    → (plain_entries es (log_entry (some error_type) importance now ts l)).output
      ≡ (log_entry (some error_type) importance now ts l).output
        ++ error_entries l.accepted_importance es
plain_entries_marked importance now ts es l o timed =
    rw
      (
        log_entry_lem (some error_type) importance now ts l o,
        ← lines_of-error l.accepted_importance es timed,
      )
      (plain_entries_lines es _ o)
