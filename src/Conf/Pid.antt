-- ===== src/Conf/Pid.antt =====
-- pmf_conf_write_pid and pmf_conf_unlink_pid of pmf_conf.c, as the calls that change a file. What
-- the system answers is an argument.
use pmf.Common.{
  Bool-cases, IsInt, List, Option, [], ap, arith, eqb_ℤ, eqb_ℤ_refl, false, if◌then◌else◌, inl, inr,
  length, ltb_ℤ, negsuc, none, not, pos, pos_part, refl, some, sym, take, take-all, ℤ, ◌++◌, ◌∙◌,
  ◌∷◌, ◌≡◌, ◌≢◌,
}
use pmf.Text.Chars.{Text, str_eq, str_eq_ne, str_eq_refl, text}
use pmf.Text.Number.{atoi}
use pmf.Text.Decimal.{atoi-show_int, show_int}
use pmf.Master.{Master}

-- What `unlink`, `creat` and `write` return.
pub record PidAnswers : Type 0 where
  pub unlink : ℤ
  pub creat : ℤ
  pub write : ℤ

-- A call that succeeded; `wrote` has the bytes that were written.
pub data PidCall : Type 0 where
  unlinked : Text → PidCall
  created : Text → ℤ → PidCall
  wrote : ℤ → Text → PidCall
  closed : ℤ → PidCall

abbrev unlink_call : PidAnswers → Text → List PidCall
unlink_call answers path = if ltb_ℤ answers.unlink (pos 0) then [] else unlinked path ∷ []

-- After `creat`: the pid in decimal is written, and the file closed.
abbrev pub put_pid : PidAnswers → ℤ → ℤ × List PidCall
put_pid answers pid =
    let buf : Text = show_int pid in
    (
      if not (eqb_ℤ (pos (length buf)) answers.write) then negsuc 0 else pos 0,
      wrote answers.creat (take (pos_part answers.write) buf) ∷ closed answers.creat ∷ [],
    )

abbrev pub with_pid_file : PidAnswers → ℤ → Option Text → ℤ × List PidCall
with_pid_file answers pid none = (pos 0, [])
with_pid_file answers pid (some path) =
    if ltb_ℤ answers.creat (pos 0)
    then (negsuc 0, unlink_call answers path)
    else let (code, calls) = put_pid answers pid in
      (code, unlink_call answers path ++ created path answers.creat ∷ calls)

-- pmf_conf_write_pid: its result and its calls.
unfoldable pub write_pid : PidAnswers → Master → ℤ × List PidCall
write_pid answers s = with_pid_file answers s.globals.parent_pid s.config.pid_file

abbrev pub without_pid_file : PidAnswers → Option Text → ℤ × List PidCall
without_pid_file answers none = (pos 0, [])
without_pid_file answers (some path) =
    if ltb_ℤ answers.unlink (pos 0) then (negsuc 0, []) else (pos 0, unlinked path ∷ [])

-- pmf_conf_unlink_pid.
unfoldable pub unlink_pid : PidAnswers → Master → ℤ × List PidCall
unlink_pid answers s = without_pid_file answers s.config.pid_file

-- The content of each file, and the path of each descriptor that is open.
pub record Disk : Type 0 where
  pub content : Text → Option Text
  pub path_of : ℤ → Option Text

abbrev pub set_content : Text → Option Text → Disk → Disk
set_content path text disk = record disk {
  content = λ p. if str_eq p path then text else disk.content p;
}

abbrev pub set_path : ℤ → Option Text → Disk → Disk
set_path fd path disk = record disk { path_of = λ n. if eqb_ℤ n fd then path else disk.path_of n }

-- Bytes go to the end of the file of a descriptor.
abbrev pub add_bytes : Option Text → Text → Disk → Disk
add_bytes none bytes disk = disk
add_bytes (some path) bytes disk = elim (disk.content path) [
  | none ↦ disk
  | some old ↦ set_content path (some (old ++ bytes)) disk
]

abbrev pub disk_after : List PidCall → Disk → Disk
disk_after [] disk = disk
disk_after (unlinked path ∷ calls) disk = disk_after calls (set_content path none disk)
disk_after (created path fd ∷ calls) disk =
    disk_after calls (set_path fd (some path) (set_content path (some []) disk))
disk_after (wrote fd bytes ∷ calls) disk = disk_after calls (add_bytes (disk.path_of fd) bytes disk)
disk_after (closed fd ∷ calls) disk = disk_after calls (set_path fd none disk)

put-content :
    (path bytes : Text) (fd : ℤ) (disk : Disk)
    → (disk_after (created path fd ∷ wrote fd bytes ∷ closed fd ∷ []) disk).content path
      ≡ some bytes
put-content path bytes fd disk = let a = eqb_ℤ_refl fd in let b = str_eq_refl path in ground arith

put-path :
    (path bytes : Text) (fd : ℤ) (disk : Disk)
    → (disk_after (created path fd ∷ wrote fd bytes ∷ closed fd ∷ []) disk).path_of fd ≡ none
put-path path bytes fd disk = let a = eqb_ℤ_refl fd in let b = str_eq_refl path in ground arith

put-other :
    (path bytes other : Text) (fd : ℤ) (disk : Disk)
    → str_eq other path ≡ false
    → (disk_after (created path fd ∷ wrote fd bytes ∷ closed fd ∷ []) disk).content other
      ≡ disk.content other
put-other path bytes other fd disk h =
    let a = eqb_ℤ_refl fd in let b = str_eq_refl path in ground arith

-- The disk that `creat` finds.
abbrev found : PidAnswers → Text → Disk → Disk
found answers path disk = if ltb_ℤ answers.unlink (pos 0) then disk else set_content path none disk

unlink_call-found :
    (answers : PidAnswers) (path : Text) (calls : List PidCall) (disk : Disk)
    → disk_after (unlink_call answers path ++ calls) disk
      ≡ disk_after calls (found answers path disk)
unlink_call-found answers path calls disk = elim (Bool-cases (ltb_ℤ answers.unlink (pos 0))) [
  | inl e ↦ rw e refl
  | inr e ↦ rw e refl
]

found-other :
    (answers : PidAnswers) (path other : Text) (disk : Disk)
    → str_eq other path ≡ false
    → (found answers path disk).content other ≡ disk.content other
found-other answers path other disk h = ground arith

with_pid_file-calls :
    (answers : PidAnswers) (pid : ℤ) (path : Text)
    → (with_pid_file answers pid (some path)).0 ≡ pos 0
    → (with_pid_file answers pid (some path)).1
      ≡ unlink_call answers path
        ++ created path answers.creat
          ∷ wrote answers.creat (show_int pid)
          ∷ closed answers.creat
          ∷ []
with_pid_file-calls answers pid path h = elim (Bool-cases (ltb_ℤ answers.creat (pos 0))) [
  | inl e ↦ absurd (ground arith)
  | inr e ↦
      let len : pos (length (show_int pid)) ≡ answers.write = ground arith in
      let all : take (pos_part answers.write) (show_int pid) ≡ show_int pid =
        ap (λ n. take (pos_part n) (show_int pid)) (sym len)
        ∙ take-all (length (show_int pid)) (show_int pid) (omega arith) in
      rw (e, all) refl
]

without_pid_file-calls :
    (answers : PidAnswers) (path : Text)
    → (without_pid_file answers (some path)).0 ≡ pos 0
    → (without_pid_file answers (some path)).1 ≡ unlinked path ∷ []
without_pid_file-calls answers path h = ground arith

-- Where the pid file is written it holds the whole pid of the master, which is read back from it,
-- and its descriptor is closed; other files are as before. Unlinking it then removes it.
pub write_pid-unlink_pid :
    (answers answers' : PidAnswers) (s : Master) (disk : Disk) (path : Text)
    → IsInt s.globals.parent_pid
    → s.config.pid_file ≡ some path
    → (write_pid answers s).0 ≡ pos 0
    → (unlink_pid answers' s).0 ≡ pos 0
    → let written : Disk = disk_after (write_pid answers s).1 disk in
      let removed : Disk = disk_after (unlink_pid answers' s).1 written in
      ((text : Text) × (written.content path ≡ some text) × (atoi text ≡ s.globals.parent_pid))
      × (written.path_of answers.creat ≡ none)
      × ((other : Text) → other ≢ path → written.content other ≡ disk.content other)
      × (removed.content path ≡ none)
unfolding write_pid unlink_pid
write_pid-unlink_pid answers answers' s disk path fits is_path ok ok' =
    let pid = s.globals.parent_pid in
    let calls =
      ap (λ f. (with_pid_file answers pid f).1) is_path
      ∙ with_pid_file-calls answers pid path
          (ap (λ f. (with_pid_file answers pid f).0) (sym is_path) ∙ ok) in
    let calls' =
      ap (λ f. (without_pid_file answers' f).1) is_path
      ∙ without_pid_file-calls answers' path
          (ap (λ f. (without_pid_file answers' f).0) (sym is_path) ∙ ok') in
    let start : Disk = found answers path disk in
    let written : disk_after (with_pid_file answers pid s.config.pid_file).1 disk
        ≡ disk_after
            (created path answers.creat
              ∷ wrote answers.creat (show_int pid)
              ∷ closed answers.creat
              ∷ [])
            start =
      ap (λ c. disk_after c disk) calls ∙ unlink_call-found answers path _ disk in
    rw (written, calls')
      (
        (show_int pid, put-content path (show_int pid) answers.creat start, atoi-show_int pid fits),
        put-path path (show_int pid) answers.creat start,
        λ other ne.
            put-other path (show_int pid) other answers.creat start (str_eq_ne other path ne)
            ∙ found-other answers path other disk (str_eq_ne other path ne),
        rw (str_eq_refl path) refl,
      )
