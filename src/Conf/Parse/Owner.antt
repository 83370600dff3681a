-- ===== src/Conf/Parse/Owner.antt =====
-- The owner, the group and the mode of a pool's socket: no row of the pool table reads them, so a
-- pool that comes from a file has none.
use pmf.Common.{
  All, All-map, Bool, List, Option, [], ap, arith, eqb_ℤ, negsuc, none, not, pos, pos_part, refl,
  some, subst, suc, true, zero, ℕ, ℤ, ◌&&◌, ◌==◌, ◌∙◌, ◌≡◌,
}
use pmf.Outcome.{>>=-done, done, done-inj, if-done}
use pmf.Text.Chars.{Text}
use pmf.Conf.Records.{PoolConfig, WorkerPool}
use pmf.Conf.Options.{Value, int, pool_options, str, write_pool}
use pmf.Conf.Parse.{
  Ini, named, new_pool, options_loop, parse_pool_ini, section_round, sections_loop,
}
use pmf.Conf.Parse.Typed.{all_rows}
use pmf.Conf.Parse.Keeps.{Keeps, options_loop-Keeps}
use pmf.Conf.Parse.Names.{All-snoc, section_round-inv, with_code-inv, with_pool-inv}
use pmf.Unix.{Accounts, given, resolve_socket_premissions, socket_mode_of}
use pmf.Unix.Identity.{set_socket_premissions-unset}
use pmf.Sockets.Opening.{Answers, set_socket_premissions}

abbrev pub NoOwner : PoolConfig → Type 0
NoOwner c = (c.listen_owner ≡ none) × (c.listen_group ≡ none) × (c.listen_mode ≡ none)

-- The offsets of other fields.
abbrev elsewhere : ℕ → Bool
elsewhere o = not (o == 32) && not (o == 40) && not (o == 48)

write_pool-NoOwner :
    (o : ℕ) (v : Value) (c c' : PoolConfig)
    → elsewhere o ≡ true
    → write_pool o v c ≡ some c'
    → NoOwner c
    → NoOwner c'
unfolding write_pool
write_pool-NoOwner o (str s) c c' h e (owner, group, mode) =
    (ground arith, ground arith, ground arith)
write_pool-NoOwner o (int a) c c' h e (owner, group, mode) =
    (ground arith, ground arith, ground arith)

abbrev pub Ownerless : List WorkerPool → Type 0
Ownerless pools = All (λ wp. NoOwner wp.config) pools

-- The socket of the pool is left to the process, with mode 0660.
abbrev pub KeepsSocketOwner : Accounts → Answers → Text → WorkerPool → Type 0
KeepsSocketOwner accounts answers path wp =
    let (code, wp') = resolve_socket_premissions accounts wp in
    (code ≡ pos 0)
    × (wp'.socket_mode ≡ pos 432)
    × (set_socket_premissions answers wp' path ≡ (pos 0, []))

NoOwner-KeepsSocketOwner :
    (accounts : Accounts) (answers : Answers) (path : Text) (wp : WorkerPool)
    → NoOwner wp.config
    → KeepsSocketOwner accounts answers path wp
NoOwner-KeepsSocketOwner accounts answers path wp (owner, group, mode) =
    let (code, octal, kept) =
      set_socket_premissions-unset accounts answers wp path (ap given owner) (ap given group) in
    (code, octal ∙ ap (λ m. socket_mode_of (given m)) mode, kept)

module _ {D : Type 0} (ini : Ini D) (strdup_ok : Bool) (dict : D) where
  new-NoOwner :
      (section : Text) {c : PoolConfig}
      → options_loop ini strdup_ok dict write_pool section pool_options pool_options (named section)
        ≡ done c
      → NoOwner c
  unfolding all_rows
  new-NoOwner section e = subst (Keeps NoOwner) e (
      options_loop-Keeps NoOwner elsewhere write_pool-NoOwner ini strdup_ok dict section
        pool_options pool_options (named section) refl (refl, refl, refl))

  section_round-Ownerless :
      (malloc_ok : Bool) (section : Option Text) (pools : List WorkerPool)
      {pools' : List WorkerPool}
      → Ownerless pools
      → section_round ini strdup_ok dict malloc_ok section pools ≡ done pools'
      → Ownerless pools'
  section_round-Ownerless malloc_ok none pools all h = absurd (null_name h)
    where
      null_name :
          {pools' : List WorkerPool}
          → section_round ini strdup_ok dict malloc_ok none pools ≡ done pools'
          → ⊥
      null_name e = unfold section_round in cc
  section_round-Ownerless malloc_ok (some section) pools all h =
      let (free, added) = section_round-inv ini strdup_ok dict malloc_ok section pools h in
      let (c, e, is_added) = with_pool-inv ini strdup_ok dict pools _ added in
      subst Ownerless is_added
        (All-snoc (λ wp. NoOwner wp.config) pools (new_pool c) all (new-NoOwner section e))

  sections_loop-Ownerless :
      (malloc_ok : Bool) (section_count : ℕ) (pools : List WorkerPool) {pools' : List WorkerPool}
      → Ownerless pools
      → sections_loop ini strdup_ok dict malloc_ok section_count pools ≡ done pools'
      → Ownerless pools'
  unfolding sections_loop
  sections_loop-Ownerless malloc_ok zero pools {pools'} all h =
      subst Ownerless (done-inj pools pools' h) all
  sections_loop-Ownerless malloc_ok (suc n) pools all h =
      let (next, here, later) =
        >>=-done (section_round ini strdup_ok dict malloc_ok (ini.getsecname dict n) pools) _ h in
      sections_loop-Ownerless malloc_ok n next
        (section_round-Ownerless malloc_ok (ini.getsecname dict n) pools all here) later

  -- Where a pool file is read to its end, and the pools before it have no owner, group or mode for
  -- their sockets, neither has any pool after it, whatever the file says: with any accounts the
  -- socket of each pool gets mode 0660 and its owner is not changed.
  pub parse_pool_ini-owner :
      (malloc_ok : Bool) (left_over code : ℤ) (pools pools' : List WorkerPool) (accounts : Accounts)
      (answers : Answers) (path : Text)
      → Ownerless pools
      → parse_pool_ini ini strdup_ok dict malloc_ok left_over pools ≡ done (code, pools')
      → Ownerless pools' × All (KeepsSocketOwner accounts answers path) pools'
  unfolding parse_pool_ini
  parse_pool_ini-owner malloc_ok left_over code pools pools' accounts answers path all h =
      let (counted, read) = if-done (eqb_ℤ (ini.getnsec dict) (negsuc 0)) (negsuc 0, pools) _ h in
      let (same, looped) = with_code-inv ini strdup_ok dict left_over _ read in
      let left = sections_loop-Ownerless malloc_ok (pos_part (ini.getnsec dict)) pools all looped in
      (
        left,
        All-map (λ wp. NoOwner wp.config) (KeepsSocketOwner accounts answers path) pools'
            (NoOwner-KeepsSocketOwner accounts answers path) left,
      )
