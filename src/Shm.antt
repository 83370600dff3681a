-- ===== src/Shm.antt =====
-- pmf_shm.c: shared memory, and the size of what is allocated. What mmap and munmap answer is an
-- argument.
use pmf.Common.{
  arith, eqb_ℤ, if◌then◌else◌, ltb, negsuc, pos, u64_mod, ℕ, ℤ, ◌%◌, ◌+◌, ◌-◌, ◌<◌, ◌≡◌,
}
use pmf.Array.{sub_size}

-- A result of mmap: NULL, which mmap gives for no failure; MAP_FAILED; or a block.
pub data Mapped : Type 0 where
  null : Mapped
  map_failed : Mapped
  block : ℕ → Mapped

-- `pmf_shm_size`, of 64 bits.
abbrev pub shm_initial : ℕ
shm_initial = 0

-- pmf_shm_alloc: the pointer, and the size after the call.
unfoldable pub alloc : Mapped → ℕ → ℕ → Mapped × ℕ
alloc null size shm_size = (null, shm_size)
alloc map_failed size shm_size = (map_failed, (shm_size + size) % u64_mod)
alloc (block p) size shm_size = (block p, (shm_size + size) % u64_mod)

-- The size after a `munmap` that succeeded; the difference is unsigned.
abbrev pub less : ℕ → ℕ → ℕ
less shm_size size = let rest : ℕ = sub_size shm_size size in if ltb 0 rest then rest else 0

-- pmf_shm_free: its result, and the size after the call.
unfoldable pub free : ℤ → Mapped → ℕ → ℕ → ℤ × ℕ
free munmap null size shm_size = (pos 0, shm_size)
free munmap map_failed size shm_size =
    if eqb_ℤ munmap (negsuc 0) then (pos 0, shm_size) else (pos 1, less shm_size size)
free munmap (block p) size shm_size =
    if eqb_ℤ munmap (negsuc 0) then (pos 0, shm_size) else (pos 1, less shm_size size)

-- Freeing the block that was allocated last sets the size back to what it was, where the size did
-- not overflow; a free that fails changes nothing.
pub free-alloc :
    (p size shm_size : ℕ)
    → shm_size + size < u64_mod
    → let (mem, shm_size') = alloc (block p) size shm_size in
      (free (pos 0) mem size shm_size' ≡ (pos 1, shm_size))
      × (free (negsuc 0) mem size shm_size' ≡ (pos 0, shm_size'))
unfolding alloc free
free-alloc p size shm_size h = ground arith

-- A mapping that failed is taken for memory: the call returns MAP_FAILED, which is not NULL, and
-- the size grows. Freeing more than is allocated leaves a size near the top of `size_t`, where 0 is
-- meant.
pub alloc-map_failed :
    (p size shm_size : ℕ)
    → shm_size < size
    → size < u64_mod
    → (alloc map_failed size 0 ≡ (map_failed, size))
      × (free (pos 0) (block p) size shm_size ≡ (pos 1, u64_mod - (size - shm_size)))
unfolding alloc free
alloc-map_failed p size shm_size h k = (ground arith, ground arith)
