-- ===== src/Tests/Files.antt =====
-- Configuration files read through a dictionary that is a function of the key.
use pmf.Common.{
  All, List, Option, [], arith, false, get_elem?, if◌then◌else◌, length, negsuc, none, pos,
  pos_part, refl, some, suc, true, zero, ℕ, ◌++◌, ◌+◌, ◌<◌, ◌∷◌, ◌≡◌, ◌≢◌,
}
use pmf.Text.Chars.{Text, str_case_eq, str_eq, text}
use pmf.Outcome.{done, fault}
use pmf.Conf.Records.{WorkerPool, global_config_initial}
use pmf.Conf.Options.{global_options, write_global}
use pmf.Conf.Parse.{
  Ini, name_taken, named, new_pool, options_loop, other_section, parse_global_ini, parse_pool_ini,
  section_round, sections_loop,
}
use pmf.Conf.Parse.Typed.{global_options-safe, parse_pool_ini-safe}
use pmf.Conf.Parse.Owner.{KeepsSocketOwner, Ownerless, parse_pool_ini-owner}
use pmf.Unix.{Accounts}
use pmf.Sockets.Opening.{Answers}
use pmf.Conf.Parse.Names.{Distinct, parse_pool_ini-names}
use pmf.Conf.Parse.Sections.{is_global, other_section-fault, parse_global_ini-other}

-- The sections of a file with the value of each key.
record Contents : Type 0 where
  names : List Text
  value : Text → Option Text

abbrev contents : Ini Contents
contents = record {
  load = λ path. none;
  getnsec = λ d. pos (length d.names);
  getsecname = λ d n. get_elem? d.names n;
  getstring = λ d key. d.value key;
}

abbrev two_pools : Contents
two_pools = record { names = text "web" ∷ text "mail" ∷ []; value = λ key. none }

abbrev one_key : Text → Text → Text → Option Text
one_key wanted value key = if str_eq key wanted then some value else none

abbrev stray_pid : Contents
stray_pid = record {
  names = text "web" ∷ [];
  value = one_key (text "web:pid_file") (text "/run/x");
}

global_options-safe_test :
    options_loop contents true stray_pid write_global
      (text "global")
      global_options
      global_options
      global_config_initial
    ≢ fault
global_options-safe_test = global_options-safe contents true stray_pid global_config_initial

two_pools-named :
    (i : ℕ) → i < pos_part (contents.getnsec two_pools) → contents.getsecname two_pools i ≢ none
two_pools-named zero h e = cc
two_pools-named (suc zero) h e = cc
two_pools-named (suc (suc i)) h e = absurd (omega arith)

parse_pool_ini-safe_example : parse_pool_ini contents true two_pools true (negsuc 4) [] ≢ fault
parse_pool_ini-safe_example =
    parse_pool_ini-safe contents true two_pools true (negsuc 4) [] two_pools-named

abbrev read_pools : List WorkerPool
read_pools = new_pool (named (text "mail")) ∷ new_pool (named (text "web")) ∷ []

two_pools-read :
    parse_pool_ini contents true two_pools true (negsuc 4) [] ≡ done (negsuc 4, read_pools)
unfolding parse_pool_ini sections_loop section_round name_taken options_loop str_eq str_case_eq
two_pools-read = refl

parse_pool_ini-names_example :
    Distinct read_pools
    × (length read_pools ≡ length (◌++◌ {A = WorkerPool} [] []) + 2)
    × (negsuc 4 ≡ negsuc 4)
parse_pool_ini-names_example =
    parse_pool_ini-names contents true two_pools true (negsuc 4) (negsuc 4) [] read_pools tt
      two_pools-read

other_section-fault_test :
    other_section contents true stray_pid (some (text "web")) global_config_initial ≡ fault
other_section-fault_test =
    other_section-fault contents true stray_pid (some (text "web")) global_config_initial stray
  where
    stray : is_global (some (text "web")) ≡ false
    stray = (unfold str_eq in refl)

parse_global_ini-other_example :
    parse_global_ini contents true stray_pid global_config_initial ≡ fault
unfolding str_eq options_loop
parse_global_ini-other_example =
    parse_global_ini-other contents true stray_pid global_config_initial global_config_initial 1 0
      refl refl (omega arith) refl

abbrev nobody : Accounts
nobody = record { is_root = true; getpwnam = λ n. none; getgrnam = λ n. none; own = none }

abbrev opening : Answers
opening = record {
  sock = pos 5;
  test_sock = pos 6;
  connect = negsuc 0;
  umask = 18;
  bind = pos 0;
  chown = pos 0;
  listen = pos 0;
}

parse_pool_ini-owner_example :
    Ownerless read_pools × All (KeepsSocketOwner nobody opening (text "/run/web")) read_pools
parse_pool_ini-owner_example =
    parse_pool_ini-owner contents true two_pools true (negsuc 4) (negsuc 4) [] read_pools nobody
      opening (text "/run/web") tt two_pools-read
