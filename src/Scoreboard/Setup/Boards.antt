-- ===== src/Scoreboard/Setup/Boards.antt =====
-- The pools after pmf_scoreboard_init_main.
use pmf.Common.{List, Option, Pairwise, [], ltb_ℤ, none, pos, refl, some, subst, ℕ, ℤ, ◌∷◌, ◌≡◌}
use pmf.Text.Chars.{Text}
use pmf.Outcome.{done, done-inj, if-done}
use pmf.Conf.Records.{WorkerPool}
use pmf.Conf.Load.Passed.{SameSetting}
use pmf.Shm.{Mapped, block, map_failed, null}
use pmf.Scoreboard.Update.{Scoreboard}
use pmf.Scoreboard.Setup.{
  Board, Sizes, fill_block, init_loop, init_main, init_pool, scoreboard_zeroed, with_block,
  without_scoreboard,
}
use pmf.Scoreboard.Setup.Layout.{
  HasScoreboard, before_rest-done, scoreboard_zeroed-IsValid, with_code-done,
}

-- The second pool is the first with a scoreboard of zeros.
abbrev pub Boarded : WorkerPool → WorkerPool → Type 0
Boarded wp w = record wp { scoreboard = some scoreboard_zeroed } ≡ w

pub Boarded-SameSetting : (wp w : WorkerPool) → Boarded wp w → SameSetting wp w
Boarded-SameSetting wp w e = subst (SameSetting wp) e (refl, refl)

pub Boarded-HasScoreboard : (wp w : WorkerPool) → Boarded wp w → HasScoreboard w
Boarded-HasScoreboard wp w e =
    subst HasScoreboard e (scoreboard_zeroed, refl, scoreboard_zeroed-IsValid)

fill_block-Boarded :
    (sizes : Sizes) (now : ℤ) (wp : WorkerPool) (p : ℕ) (name : Option Text) {w : WorkerPool}
    {board : Option Board}
    → fill_block sizes now wp p name ≡ done (w, board)
    → Boarded wp w
fill_block-Boarded sizes now wp p none h = absurd (cc)
fill_block-Boarded sizes now wp p (some name) h = cc

with_block-Boarded :
    (sizes : Sizes) (now : ℤ) (wp : WorkerPool) (mem : Mapped) {w : WorkerPool}
    {board : Option Board}
    → with_block sizes now wp mem ≡ done (w, board)
    → Boarded wp w
with_block-Boarded sizes now wp null h = absurd (cc)
with_block-Boarded sizes now wp map_failed h = absurd (cc)
with_block-Boarded sizes now wp (block p) h = fill_block-Boarded sizes now wp p wp.config.name h

without_scoreboard-Boarded :
    (o : Option Scoreboard) (sizes : Sizes) (now : ℤ) (wp : WorkerPool) (mem : Mapped)
    {w : WorkerPool} {board : Option Board}
    → without_scoreboard o sizes now wp mem ≡ done (w, board)
    → Boarded wp w
without_scoreboard-Boarded none sizes now wp mem h = with_block-Boarded sizes now wp mem h
without_scoreboard-Boarded (some s) sizes now wp mem h = absurd (cc)

init_pool-Boarded :
    (sizes : Sizes) (now : ℤ) (wp : WorkerPool) (mem : Mapped) {w : WorkerPool}
    {board : Option Board}
    → init_pool sizes now wp mem ≡ done (w, board)
    → Boarded wp w
unfolding init_pool
init_pool-Boarded sizes now wp mem h =
    let (enough, made) = if-done (ltb_ℤ wp.config.pm_max_children (pos 1)) _ _ h in
    without_scoreboard-Boarded wp.scoreboard sizes now wp mem made

init_loop-Boarded :
    (sizes : Sizes) (now : WorkerPool → ℤ) (mem : WorkerPool → Mapped) (pools : List WorkerPool)
    {pools' : List WorkerPool}
    → init_loop sizes now mem pools ≡ done pools'
    → Pairwise Boarded pools pools'
unfolding init_loop
init_loop-Boarded sizes now mem [] {pools'} h =
    subst (Pairwise Boarded []) (done-inj [] pools' h) tt
init_loop-Boarded sizes now mem (wp ∷ pools) h =
    let (w, board, left, first, later, e) = before_rest-done pools _ _ h in
    subst (Pairwise Boarded (wp ∷ pools)) e (
      init_pool-Boarded sizes (now wp) wp (mem wp) first,
      init_loop-Boarded sizes now mem pools later,
    )

-- A set-up that comes to its end gives each pool a scoreboard of zeros and changes nothing else.
pub init_main-Boarded :
    (sizes : Sizes) (now : WorkerPool → ℤ) (mem : WorkerPool → Mapped) (left_over code : ℤ)
    (pools pools' : List WorkerPool)
    → init_main sizes now mem left_over pools ≡ done (code, pools')
    → Pairwise Boarded pools pools'
unfolding init_main
init_main-Boarded sizes now mem left_over code pools pools' h =
    init_loop-Boarded sizes now mem pools
      (with_code-done left_over (init_loop sizes now mem pools) h).1
