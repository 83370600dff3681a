-- ===== src/Log/Line.antt =====
-- vplog of pmf_log.c: how a line is put together in its buffer, and where it is written.
use pmf.Common.{
  Bool, List, [], eqb_ℤ, false, if◌then◌else◌, leb, leb_ℤ, length, ltb, ltb_ℤ, negsuc, none, not,
  pos, replicate, some, take, true, ℕ, ℤ, ◌%◌, ◌&&◌, ◌++◌, ◌+◌, ◌-◌, ◌/◌, ◌==◌, ◌∷◌,
}
use pmf.Text.Chars.{Text, text}
use pmf.Text.Decimal.{show_int, show_nat}
use pmf.Conf.Values.{plog_debug, plog_notice}
use pmf.Log.Level.{LogState, level_name}

abbrev pub max_line_length : ℕ
max_line_length = 1024

-- What the calls of the C library and of the system give to one call of vplog: the time as strftime
-- prints it up to the seconds, the microseconds, the process, the formatted message, and the text
-- of the error.
pub record Source : Type 0 where
  pub time : Text
  pub usec : ℕ
  pub pid : ℤ
  pub is_child : Bool
  pub function : Text
  pub line : ℤ
  pub message : Text
  pub error_text : Text
  pub saved_errno : ℤ

-- `flags & PLOG_LEVEL_MASK` and `flags & PLOG_HAVE_ERRNO`.
abbrev pub level_of : ℕ → ℤ
level_of flags = pos (flags % 8)

abbrev pub have_errno : ℕ → Bool
have_errno flags = flags / 256 % 2 == 1

-- The buffer: the bytes before the NUL, and `len`, which counts also what did not fit.
pub record Buffer : Type 0 where
  pub bytes : Text
  pub len : ℕ

-- `len += snprintf(buf + len, buf_size - len, …)`.
abbrev pub append : Text → Buffer → Buffer
append s b = record {
  bytes = b.bytes ++ take (max_line_length - 1 - b.len) s;
  len = b.len + length s;
}

-- `%06d`.
abbrev pub six_digits : ℕ → Text
six_digits n = let s : Text = show_nat n in replicate (6 - length s) b'0' ++ s

-- plog_print_time, whose first part strftime has written.
abbrev pub print_time : Source → LogState → Buffer
print_time src s =
    let date : Buffer = record { bytes = src.time; len = length src.time } in
    append (text "] ")
      (if eqb_ℤ s.plog_level plog_debug then append (b'.' ∷ six_digits src.usec) date else date)

-- A level of 6 or 7 is past the end of the table of names; no caller passes one.
abbrev pub name_of : ℕ → Text
name_of flags = elim (level_name (level_of flags)) [ some name ↦ name | none ↦ text "(null)" ]

-- The level, and in debug mode where the line comes from.
abbrev pub heading : ℕ → Source → LogState → Text
heading flags src s =
    if eqb_ℤ s.plog_level plog_debug
    then if not src.is_child
      then name_of flags
        ++ (text ": pid "
            ++ (show_int src.pid
                ++ (text ", "
                    ++ (src.function ++ (text "(), line " ++ (show_int src.line ++ text ": "))))))
      else name_of flags
        ++ (text ": " ++ (src.function ++ (text "(), line " ++ (show_int src.line ++ text ": "))))
    else name_of flags ++ text ": "

abbrev pub error_part : Source → Text
error_part src =
    text ": " ++ (src.error_text ++ (text " (" ++ (show_int src.saved_errno ++ text ")")))

-- The buffer with the flag `truncated`.
abbrev pub add_heading : Text → Buffer → Buffer × Bool
add_heading s b = let b' : Buffer = append s b in (b', ltb (max_line_length - 1) b'.len)

abbrev pub add_part : Text → Buffer × Bool → Buffer × Bool
add_part s (b, true) = (b, true)
add_part s (b, false) = let b' : Buffer = append s b in (b', leb max_line_length b'.len)

-- The last three bytes are overwritten by dots if something did not fit; then the newline.
abbrev pub finish : Buffer × Bool → Text
finish (b, truncated) =
    (if truncated then take (max_line_length - 4) b.bytes ++ text "..." else b.bytes) ++ b'\n' ∷ []

abbrev pub start_buffer : Source → LogState → Buffer
start_buffer src s = if not src.is_child then print_time src s else record { bytes = []; len = 0 }

unfoldable pub format_line : ℕ → Source → LogState → Text
format_line flags src s =
    let headed : Buffer × Bool = add_heading (heading flags src s) (start_buffer src s) in
    let told : Buffer × Bool = add_part src.message headed in
    finish (if have_errno flags then add_part (error_part src) told else told)

-- The writes of one call, each with its file.
unfoldable pub vplog : ℕ → Source → LogState → List (ℤ × Text)
vplog flags src s =
    if ltb_ℤ (level_of flags) s.plog_level
    then []
    else let line : Text = format_line flags src s in
      let first : ℤ × Text = (if ltb_ℤ (negsuc 0) s.plog_fd then s.plog_fd else pos 2, line) in
      if not (eqb_ℤ s.plog_fd (pos 2))
        && not (eqb_ℤ s.plog_fd (negsuc 0))
        && leb_ℤ plog_notice (level_of flags)
      then first ∷ (pos 2, line) ∷ []
      else first ∷ []
