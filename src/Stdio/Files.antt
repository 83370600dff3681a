-- ===== src/Stdio/Files.antt =====
-- What the descriptors stand for after the calls of pmf_stdio.c.
use pmf.Common.{
  Bool, Bool-cases, List, Option, [], ap, arith, eqb_ℤ, eqb_ℤ_eq, eqb_ℤ_ne, eqb_ℤ_refl, false,
  if◌then◌else◌, inl, inr, ltb_ℤ, negsuc, none, not, pos, refl, some, sym, true, ℤ, ◌&&◌, ◌++◌,
  ◌||◌, ◌∙◌, ◌∷◌, ◌≡◌, ◌≢◌, ◌≤ℤ◌,
}
use pmf.Text.Chars.{Text}
use pmf.Log.Level.{set_fd}
use pmf.Master.{Master}
use pmf.Stdio.{
  FdCall, StdioAnswers, closed, dev_null, dup2_call, duplicated, first_error_log, open_error_log,
  opened, reopen_error_log, stderr_fileno, stdin_fileno, stdio_init_main, stdout_fileno,
  use_error_log,
}

-- The path that each descriptor was opened for; `none` for one that is not open.
abbrev pub Descriptors : Type 0
Descriptors = ℤ → Option (Option Text)

abbrev pub set_file : ℤ → Option (Option Text) → Descriptors → Descriptors
set_file fd file files n = if eqb_ℤ n fd then file else files n

abbrev pub files_after : List FdCall → Descriptors → Descriptors
files_after [] files = files
files_after (opened path fd ∷ calls) files = files_after calls (set_file fd (some path) files)
files_after (duplicated old_fd new_fd ∷ calls) files =
    files_after calls (set_file new_fd (files old_fd) files)
files_after (closed fd ∷ calls) files = files_after calls (set_file fd none files)

-- The `dup2` of the set-up that succeeded: to standard input, and then to standard output.
abbrev pub input_moved : StdioAnswers → Bool
input_moved answers =
    not (ltb_ℤ answers.fd (pos 0)) && not (ltb_ℤ (answers.dup2 stdin_fileno) (pos 0))

abbrev pub output_moved : StdioAnswers → Bool
output_moved answers = input_moved answers && not (ltb_ℤ (answers.dup2 stdout_fileno) (pos 0))

-- The set-up of the standard descriptors succeeds exactly if /dev/null was opened and took the
-- place of both input and output. On every path the descriptor that was opened is closed again,
-- also where it was itself input or output; these stand for /dev/null as far as the calls came, and
-- every other descriptor is as before.
pub stdio_init_main-files :
    (answers : StdioAnswers) (files : Descriptors) (n : ℤ)
    → files answers.fd ≡ none
    → let (code, calls) = stdio_init_main answers in
      (code ≡ (if output_moved answers then pos 0 else negsuc 0))
      × (files_after calls files n ≡ (
          if eqb_ℤ n answers.fd
          then none
          else if eqb_ℤ n stdin_fileno && input_moved answers
              || eqb_ℤ n stdout_fileno && output_moved answers
          then some (some dev_null)
          else files n))
unfolding stdio_init_main
stdio_init_main-files answers files n free = elim (Bool-cases (eqb_ℤ n answers.fd)) [
  | inl e ↦
      let same : files n ≡ none = ap files (eqb_ℤ_eq n answers.fd e) ∙ free in
      (ground arith, ground arith)
  | inr e ↦ (ground arith, ground arith)
]

dup2_call-moves :
    (answers : StdioAnswers) (old_fd new_fd : ℤ)
    → pos 0 ≤ℤ answers.dup2 new_fd
    → dup2_call answers old_fd new_fd ≡ duplicated old_fd new_fd ∷ []
dup2_call-moves answers old_fd new_fd h =
    let e : ltb_ℤ (answers.dup2 new_fd) (pos 0) ≡ false = ground arith in rw e refl

moved-files :
    (used : Bool) (fd log_fd n : ℤ) (path : Option Text) (files : Descriptors)
    → files fd ≡ none
    → fd ≢ log_fd
    → fd ≢ stderr_fileno
    → files_after
        (opened path fd ∷ (if used then duplicated fd stderr_fileno ∷ [] else [])
          ++ (duplicated fd log_fd ∷ [])
          ++ closed fd ∷ [])
        files
        n
      ≡ (if eqb_ℤ n log_fd || eqb_ℤ n stderr_fileno && used then some path else files n)
moved-files true fd log_fd n path files free log_apart err_apart = moved-both
  where
    moved-both :
        files_after
          (opened path fd ∷ duplicated fd stderr_fileno ∷ duplicated fd log_fd ∷ closed fd ∷ [])
          files
          n
        ≡ (if eqb_ℤ n log_fd || eqb_ℤ n stderr_fileno && true then some path else files n)
    moved-both = elim (Bool-cases (eqb_ℤ n fd)) [
      | inl e ↦
          let here = eqb_ℤ_eq n fd e in
          let a = eqb_ℤ_ne fd log_fd log_apart in
          let b = eqb_ℤ_ne fd stderr_fileno err_apart in
          rw here (rw (eqb_ℤ_refl fd, a, b) (sym free))
      | inr e ↦
          let b = eqb_ℤ_ne fd stderr_fileno err_apart in rw (e, b, eqb_ℤ_refl fd) (ground arith)
    ]
moved-files false fd log_fd n path files free log_apart err_apart = elim (Bool-cases (eqb_ℤ n fd)) [
  | inl e ↦
      let here = eqb_ℤ_eq n fd e in
      let a = eqb_ℤ_ne fd log_fd log_apart in
      let b = eqb_ℤ_ne fd stderr_fileno err_apart in rw here (rw (eqb_ℤ_refl fd, a, b) (sym free))
  | inr e ↦ rw (e, eqb_ℤ_refl fd) (ground arith)
]

-- Opening the log again, where every `dup2` succeeds, replaces the file of the log's descriptor,
-- and of standard error where the log is used for it. It leaves the program's state alone, keeps no
-- descriptor open that was not open before, and leaves all others as they were.
pub open_error_log-reopens :
    (answers : StdioAnswers) (s : Master) (files : Descriptors) (n : ℤ)
    → pos 0 ≤ℤ answers.fd
    → ((new_fd : ℤ) → pos 0 ≤ℤ answers.dup2 new_fd)
    → files answers.fd ≡ none
    → files s.globals.error_log_fd ≢ none
    → files stderr_fileno ≢ none
    → let (code, s', calls) = open_error_log answers true s in
      (code ≡ pos 0)
      × (s' ≡ s)
      × (files_after calls files n ≡ (
          if eqb_ℤ n s.globals.error_log_fd
            || eqb_ℤ n stderr_fileno && use_error_log answers s.config
          then some s.config.error_log
          else files n))
unfolding open_error_log reopen_error_log
open_error_log-reopens answers s files n opened_fd moves free log_open stderr_open = (
  ground arith,
  ground arith,
  rw
      (
        lemma_a,
        dup2_call-moves answers answers.fd stderr_fileno (moves stderr_fileno),
        dup2_call-moves answers answers.fd s.globals.error_log_fd (moves s.globals.error_log_fd),
      )
      (moved-files (use_error_log answers s.config) answers.fd s.globals.error_log_fd n
        s.config.error_log files free (λ e. log_open (ap files (sym e) ∙ free))
        (λ e. stderr_open (ap files (sym e) ∙ free))),
)
  where
    lemma_a : ltb_ℤ answers.fd (pos 0) ≡ false
    lemma_a = ground arith

-- The first opening of the log puts its descriptor into the globals, and into the log's state where
-- the log is used; what the other parts of the state hold stays, and where the file cannot be
-- opened everything does.
pub open_error_log-first :
    (answers : StdioAnswers) (s : Master)
    → let (code, s', calls) = open_error_log answers false s in
      (code ≡ (if ltb_ℤ answers.fd (pos 0) then negsuc 0 else pos 0))
      × (s'.globals.error_log_fd
          ≡ (if ltb_ℤ answers.fd (pos 0) then s.globals.error_log_fd else answers.fd))
      × (s'.log.plog_fd ≡ (
          if not (ltb_ℤ answers.fd (pos 0)) && use_error_log answers s.config
          then answers.fd
          else s.log.plog_fd))
      × (s'.config ≡ s.config)
      × (s'.pools ≡ s.pools)
      × (s'.globals.log_level ≡ s.globals.log_level)
      × (s'.log.plog_level ≡ s.log.plog_level)
unfolding open_error_log first_error_log set_fd
open_error_log-first answers s = ground arith
