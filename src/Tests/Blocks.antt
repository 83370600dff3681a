-- ===== src/Tests/Blocks.antt =====
-- The set-up of the scoreboard of a pool with four children.
use pmf.Common.{
  All, [], arith, get_elem?, length, negsuc, pos, refl, some, take, ◌*◌, ◌+◌, ◌∷◌, ◌≡◌, ◌≤◌,
}
use pmf.Text.Chars.{text}
use pmf.Outcome.{done}
use pmf.Conf.Records.{WorkerPool, pool_config_initial, pool_initial}
use pmf.Shm.{Mapped, block}
use pmf.Scoreboard.Setup.{
  Board, Sizes, block_size, init_loop, init_main, init_pool, scoreboard_zeroed,
}
use pmf.Scoreboard.Setup.Layout.{HasScoreboard, init_main-IsValid, init_pool-slots}

abbrev four : WorkerPool
four = record pool_initial {
  config = record pool_config_initial { name = some (text "www"); pm_max_children = pos 4 };
}

abbrev sizes : Sizes
sizes = record { scoreboard = 120; pointer = 8; proc = 64 }

init_pool-slots_example :
    (wp' : WorkerPool) × (board : Board) × (init_pool sizes (pos 1000) four (block 4096)
      ≡ done (wp', some board))
    × (board.nprocs ≡ 4)
    × (board.pm ≡ four.config.pm_type)
    × (board.start_epoch ≡ pos 1000)
    × (board.pool ≡ take 32 (text "www"))
    × (get_elem? board.procs 3 ≡ some (4096 + (120 + 4 * 8) + 3 * 64))
    × (4096 + (120 + 4 * 8) + 3 * 64 + 64 ≤ 4096 + block_size sizes 4)
init_pool-slots_example =
    init_pool-slots sizes (pos 1000) four 4096 4 3 (text "www") refl refl refl (omega arith)
      (omega arith)

abbrev one_block : WorkerPool → Mapped
one_block wp = block 4096

set_up :
    init_main sizes (λ wp. pos 1000) one_block (negsuc 7) (four ∷ [])
    ≡ done (negsuc 7, record four { scoreboard = some scoreboard_zeroed } ∷ [])
unfolding init_main init_loop init_pool
set_up = refl

init_main-IsValid_test :
    All HasScoreboard (record four { scoreboard = some scoreboard_zeroed } ∷ [])
    × (length (record four { scoreboard = some scoreboard_zeroed } ∷ []) ≡ length (four ∷ []))
    × (negsuc 7 ≡ negsuc 7)
init_main-IsValid_test =
    init_main-IsValid sizes (λ wp. pos 1000) one_block (negsuc 7) (negsuc 7) (four ∷ [])
      (record four { scoreboard = some scoreboard_zeroed } ∷ []) set_up
