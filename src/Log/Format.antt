-- ===== src/Log/Format.antt =====
-- The line that vplog writes, against a description of it as one text.
use pmf.Common.{
  All, Bool, List, [], ap, append-nil, append_assoc, arith, dec_lt, eqb_ℤ, false, if◌then◌else◌,
  leb, length, length-append, length-take, ltb, ltb_ℤ, lt→ltb, not, pos, refl, subst, sym, take,
  take-all, take-append, take-take, true, ℕ, ℤ, ◌++◌, ◌+◌, ◌-◌, ◌<◌, ◌∙◌, ◌∷◌, ◌≡◌, ◌≤◌,
}
use pmf.Text.Chars.{Text, text}
use pmf.Conf.Values.{plog_debug}
use pmf.Log.Level.{LogState}
use pmf.Log.Line.{
  Buffer, Source, add_heading, add_part, append, error_part, finish, format_line, have_errno,
  heading, level_of, max_line_length, print_time, six_digits, start_buffer, vplog,
}

-- A line that fits in the buffer with its newline is written whole; of any other the first 1020
-- bytes are, and three dots.
unfoldable pub cut : Text → Text
cut s =
    if ltb (length s) max_line_length
    then s ++ b'\n' ∷ []
    else take (max_line_length - 4) s ++ text "...\n"

-- The parts of a line in their order.
abbrev pub time_part : Source → LogState → Text
time_part src s =
    if src.is_child
    then []
    else src.time
      ++ ((if eqb_ℤ s.plog_level plog_debug then b'.' ∷ six_digits src.usec else []) ++ text "] ")

abbrev pub whole : ℕ → Source → LogState → Text
whole flags src s =
    time_part src s
    ++ (heading flags src s ++ (src.message ++ (if have_errno flags then error_part src else [])))

-- What the buffer holds once `s` has been appended to it.
record Holds (b : Buffer) (s : Text) : Type 0 where
  held : b.bytes ≡ take (max_line_length - 1) s
  counted : b.len ≡ length s

-- The same with the flag, which says that a part did not fit; what came after that part is lost.
record Lost (b : Buffer) (s : Text) : Type 0 where
  kept : Text
  rest : Text
  joined : s ≡ kept ++ rest
  full : Holds b kept
  over : max_line_length ≤ length kept

Stage : Buffer × Bool → Text → Type 0
Stage (b, false) s = Holds b s × (length s < max_line_length)
Stage (b, true) s = Lost b s

append-Holds : (t : Text) {b : Buffer} {s : Text} → Holds b s → Holds (append t b) (s ++ t)
append-Holds t {b} {s} h = record {
  held =
      ap (λ x. x ++ take (1023 - b.len) t) h.held
      ∙ ap (λ n. take 1023 s ++ take (1023 - n) t) h.counted
      ∙ take-append 1023 s t;
  counted = omega (arith, h.counted, length-append s t);
}

not_leb : (a b : ℕ) → false ≡ leb a b → b < a
not_leb a b h = ground arith

is_leb : (a b : ℕ) → true ≡ leb a b → a ≤ b
is_leb a b h = ground arith

ltb-leb : (a b : ℕ) → ltb a b ≡ leb (a + 1) b
ltb-leb a b = ground arith

not_ltb : (a b : ℕ) → b ≤ a → ltb a b ≡ false
not_ltb a b h = ground arith

-- The flag set from the length, for a buffer that holds the text.
flag-Stage :
    (b : Buffer) (s : Text) (f : Bool)
    → Holds b s
    → (f ≡ leb max_line_length (length s))
    → Stage (b, f) s
unfolding Stage
flag-Stage b s false h e = (h, not_leb _ _ e)
flag-Stage b s true h e = record {
  kept = s;
  rest = [];
  joined = sym (append-nil s);
  full = h;
  over = is_leb _ _ e;
}

add_heading-Stage :
    (t : Text) {b : Buffer} {s : Text} → Holds b s → Stage (add_heading t b) (s ++ t)
add_heading-Stage t {b} {s} h =
    let g : Holds (append t b) (s ++ t) = append-Holds t h in
    flag-Stage _ _ _ g (ltb-leb 1023 (b.len + length t) ∙ ap (leb 1024) g.counted)

add_part-Stage :
    (t : Text) (p : Buffer × Bool) (s : Text) → Stage p s → Stage (add_part t p) (s ++ t)
unfolding Stage
add_part-Stage t (b, false) s h =
    let g : Holds (append t b) (s ++ t) = append-Holds t h.0 in
    flag-Stage _ _ _ g (ap (leb 1024) g.counted)
add_part-Stage t (b, true) s h = record {
  kept = h.kept;
  rest = h.rest ++ t;
  joined = ap (λ x. x ++ t) h.joined ∙ append_assoc h.kept h.rest t;
  full = h.full;
  over = h.over;
}

cut-short : (s : Text) → length s < max_line_length → cut s ≡ s ++ b'\n' ∷ []
unfolding cut
cut-short s h = rw (lt→ltb _ _ h)

cut-long :
    (s : Text) → max_line_length ≤ length s → cut s ≡ take (max_line_length - 4) s ++ text "...\n"
unfolding cut
cut-long s h = rw (not_ltb _ _ h)

Lost-long : {b : Buffer} {s : Text} → Lost b s → max_line_length ≤ length s
Lost-long {b} {s} h = omega (arith, ap length h.joined, length-append h.kept h.rest, h.over)

Lost-bytes : {b : Buffer} {s : Text} → Lost b s → take 1020 b.bytes ≡ take 1020 s
Lost-bytes {b} {s} h =
    ap (take 1020) h.full.held
    ∙ take-take 1020 1023 h.kept h.rest (omega arith) (omega (arith, h.over))
    ∙ ap (take 1020) (sym h.joined)

finish-cut : (p : Buffer × Bool) (s : Text) → Stage p s → finish p ≡ cut s
unfolding Stage
finish-cut (b, false) s (h, small) =
    ap (λ x. x ++ b'\n' ∷ []) (h.held ∙ take-all 1023 s (omega arith)) ∙ sym (cut-short s small)
finish-cut (b, true) s h =
    append_assoc (take 1020 b.bytes) (text "...") (b'\n' ∷ [])
    ∙ ap (λ x. x ++ text "...\n") (Lost-bytes h)
    ∙ sym (cut-long s (Lost-long h))

fresh-Holds :
    (time : Text) → length time ≤ 1000 → Holds (record { bytes = time; len = length time }) time
fresh-Holds time h = record { held = sym (take-all 1023 time (omega arith)); counted = refl }

time-Holds :
    (time usec : Text) (debug : Bool)
    → length time ≤ 1000
    → let date : Buffer = record { bytes = time; len = length time } in
      Holds
        (append (text "] ") (if debug then append usec date else date))
        (time ++ ((if debug then usec else []) ++ text "] "))
time-Holds time usec true h =
    subst (Holds _) (append_assoc time usec (text "] "))
      (append-Holds (text "] ") (append-Holds usec (fresh-Holds time h)))
time-Holds time usec false h = append-Holds (text "] ") (fresh-Holds time h)

start-Holds :
    (src : Source) (s : LogState)
    → length src.time ≤ 1000
    → Holds (start_buffer src s) (time_part src s)
start-Holds src s h = start src.is_child
  where
    start :
        (child : Bool)
        → Holds (if not child then print_time src s else record { bytes = []; len = 0 }) (
            if child
            then []
            else src.time
              ++ ((if eqb_ℤ s.plog_level plog_debug then b'.' ∷ six_digits src.usec else [])
                  ++ text "] "))
    start true = record { held = refl; counted = refl }
    start false = time-Holds src.time (b'.' ∷ six_digits src.usec) (eqb_ℤ s.plog_level plog_debug) h

error-Stage :
    (t : Text) (e : Bool) (p : Buffer × Bool) (s : Text)
    → Stage p s
    → Stage (if e then add_part t p else p) (s ++ (if e then t else []))
error-Stage t true p s h = add_part-Stage t p s h
error-Stage t false p s h = subst (Stage p) (sym (append-nil s)) h

-- The line that one call writes is the whole text, its time, heading, message and error one after
-- the other, with a newline, if that fits in the buffer; otherwise it is the first 1020 bytes of
-- that text with three dots and a newline. The time is at most 1000 bytes long.
pub format_line-cut :
    (flags : ℕ) (src : Source) (s : LogState)
    → length src.time ≤ 1000
    → format_line flags src s ≡ cut (whole flags src s)
unfolding format_line
format_line-cut flags src s h =
    let time : Text = time_part src s in
    let head : Text = heading flags src s in
    let told_error : Text = if have_errno flags then error_part src else [] in
    let headed : Stage (add_heading head (start_buffer src s)) (time ++ head) =
      add_heading-Stage head (start-Holds src s h) in
    let told = add_part-Stage src.message _ _ headed in
    let ended = error-Stage (error_part src) (have_errno flags) _ _ told in
    finish-cut _ _ ended
    ∙ ap cut (
        append_assoc (time ++ head) src.message told_error
        ∙ append_assoc time head (src.message ++ told_error))

length-cut : (s : Text) → length (cut s) ≤ max_line_length
length-cut s = elim (dec_lt (length s) max_line_length) [
  | yes small ↦ omega (arith, ap length (cut-short s small), length-append s (b'\n' ∷ []))
  | no long ↦ omega (
    arith,
    ap length (cut-long s (omega arith)),
    length-append (take 1020 s) (text "...\n"),
    length-take 1020 s,
  )
]

small-writes :
    (low twice : Bool) (fd : ℤ) (line : Text)
    → length line ≤ max_line_length
    → let writes : List (ℤ × Text) =
        if low then [] else if twice then (fd, line) ∷ (pos 2, line) ∷ [] else (fd, line) ∷ [] in
      All (λ w. length w.1 ≤ max_line_length) writes × (length writes ≤ 2)
small-writes true twice fd line h = (tt, omega arith)
small-writes false true fd line h = ((h, (h, tt)), omega arith)
small-writes false false fd line h = ((h, tt), omega arith)

-- No write is longer than the buffer, and a call makes at most two.
pub vplog-bounded :
    (flags : ℕ) (src : Source) (s : LogState)
    → length src.time ≤ 1000
    → All (λ w. length w.1 ≤ max_line_length) (vplog flags src s) × (length (vplog flags src s) ≤ 2)
unfolding vplog
vplog-bounded flags src s h =
    let small : length (format_line flags src s) ≤ max_line_length =
      subst (λ l. length l ≤ 1024) (sym (format_line-cut flags src s h)) (length-cut _) in
    small-writes (ltb_ℤ (level_of flags) s.plog_level) _ _ _ small
