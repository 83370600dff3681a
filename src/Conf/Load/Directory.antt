-- ===== src/Conf/Load/Directory.antt =====
-- What the loop over the include directory reads.
use pmf.Common.{
  All, Bool-cases, List, Option, [], arith, false, if◌then◌else◌, inl, inr, length, none, pos,
  pos_part, refl, some, subst, true, ℕ, ◌+◌, ◌∷◌, ◌≡◌, ◌≢◌, ◌≤ℤ◌, ◌⊎◌,
}
use pmf.Outcome.{>>=-done, done, done-inj, of_call-done}
use pmf.Text.Chars.{Text}
use pmf.Conf.Records.{WorkerPool}
use pmf.Conf.Parse.{Ini}
use pmf.Conf.Parse.Names.{Distinct, parse_pool_ini-names}
use pmf.Conf.Load.{
  ConfAnswers, conf_path, file_round, files_loop, is_hidden, skips, with_dictionary,
}

module _ {D : Type 0} (ini : Ini D) (answers : ConfAnswers) (include_dir : Text) where
  -- The sections of the files of a directory, together; a hidden file has none that count.
  unfoldable pub sections_in : List Text → ℕ
  sections_in [] = 0
  sections_in (name ∷ names) =
      (if is_hidden name then 0 else elim (ini.load (conf_path include_dir name)) [
        | none ↦ 0
        | some dict ↦ pos_part (ini.getnsec dict)
      ])
      + sections_in names

  -- A file that is not hidden could be read.
  abbrev pub WasRead : Text → Type 0
  WasRead name = (is_hidden name ≡ true) ⊎ (ini.load (conf_path include_dir name) ≢ none)

  abbrev Adds : ℕ → List WorkerPool → List WorkerPool → Type 0
  Adds n pools pools' = Distinct pools' × (length pools' ≡ length pools + n)

  with_dictionary-done :
      (path : Text) (m : Option D) (pools : List WorkerPool) {pools' : List WorkerPool}
      → Distinct pools
      → with_dictionary ini answers path m pools ≡ done pools'
      → (dict : D) × (m ≡ some dict) × Adds (pos_part (ini.getnsec dict)) pools pools'
  with_dictionary-done path none pools d h = cc
  with_dictionary-done path (some dict) pools {pools'} d h =
      let (code, read, k) = of_call-done _ h in
      let (apart, len, same) =
        parse_pool_ini-names ini answers.strdup_ok dict answers.malloc_ok (answers.left_over path)
          code pools pools' d read in
      (dict, refl, (apart, len))

  skips-never : (path : Text) → (answers.stat path).0 ≤ℤ pos 0 → skips answers path ≡ false
  skips-never path h = ground arith

  file_round-done :
      (name : Text) (pools : List WorkerPool) {pools' : List WorkerPool}
      → (answers.stat (conf_path include_dir name)).0 ≤ℤ pos 0
      → Distinct pools
      → file_round ini answers include_dir name pools ≡ done pools'
      → WasRead name × Adds (sections_in (name ∷ [])) pools pools'
  unfolding file_round sections_in
  file_round-done name pools {pools'} h d e = elim (Bool-cases (is_hidden name)) [
    | inl hid ↦
        let same : pools ≡ pools' = done-inj pools pools' (ground arith) in
        rw hid (inl refl, subst (Adds (0 + 0) pools) same (d, omega arith))
    | inr shown ↦
        let tested = skips-never (conf_path include_dir name) h in
        let read : with_dictionary ini answers (conf_path include_dir name)
              (ini.load (conf_path include_dir name)) pools
            ≡ done pools' =
          ground arith in
        let (dict, loaded, added) = with_dictionary-done _ _ pools d read in
        rw (shown, loaded) (inr (λ z. cc), (added.0, omega (arith, added.1)))
  ]

  -- Where no `stat` returns more than 0, which it never does, a directory that is read to its end
  -- adds one pool for each section of each of its files that are not hidden, keeps the names of all
  -- pools apart, across the files too, and passed over no such file: each one could be read.
  pub files_loop-reads :
      (names : List Text) (pools pools' : List WorkerPool)
      → ((path : Text) → (answers.stat path).0 ≤ℤ pos 0)
      → Distinct pools
      → files_loop ini answers include_dir names pools ≡ done pools'
      → Distinct pools' × (length pools' ≡ length pools + sections_in names) × All WasRead names
  unfolding files_loop sections_in
  files_loop-reads [] pools pools' h d e =
      let same : pools ≡ pools' = done-inj pools pools' e in
      subst (λ p. Distinct p × (length p ≡ length pools + 0) × Unit) same (d, omega arith, tt)
  files_loop-reads (name ∷ names) pools pools' h d e =
      let (next, here, later) = >>=-done (file_round ini answers include_dir name pools) _ e in
      let (was_read, (apart, one)) = file_round-done name pools (h _) d here in
      let (apart', more, all) = files_loop-reads names next pools' h apart later in
      (apart', omega (arith, one, more), (was_read, all))
