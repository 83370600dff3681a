-- ===== src/Sockets/Opening/Effects.antt =====
-- What a sequence of calls leaves: the open descriptors and the file mask.
use pmf.Common.{
  List, [], eqb_ℤ, eqb_ℤ_refl, if◌then◌else◌, leb_ℤ, pos, refl, subst, sym, ℕ, ℤ, ◌++◌, ◌∙◌, ◌∷◌,
  ◌≡◌,
}
use pmf.Sockets.Opening.{Call, Run, after, bound, closed, listened, masked, opened, owned, unlinked}

-- The descriptor that a `close` closes is the latest one of its number.
abbrev pub without : ℤ → List ℤ → List ℤ
without fd [] = []
without fd (x ∷ xs) = if eqb_ℤ fd x then xs else x ∷ without fd xs

-- The descriptors that are open after some calls, given those that were open before.
abbrev pub open_after : List Call → List ℤ → List ℤ
open_after [] fds = fds
open_after (opened fd ∷ calls) fds = open_after calls (fd ∷ fds)
open_after (closed fd ∷ calls) fds = open_after calls (without fd fds)
open_after (unlinked path ∷ calls) fds = open_after calls fds
open_after (masked mask ∷ calls) fds = open_after calls fds
open_after (bound fd ∷ calls) fds = open_after calls fds
open_after (owned path uid gid ∷ calls) fds = open_after calls fds
open_after (listened fd backlog ∷ calls) fds = open_after calls fds

-- The process's file mask after some calls.
abbrev pub mask_after : List Call → ℕ → ℕ
mask_after [] mask = mask
mask_after (masked new_mask ∷ calls) mask = mask_after calls new_mask
mask_after (opened fd ∷ calls) mask = mask_after calls mask
mask_after (closed fd ∷ calls) mask = mask_after calls mask
mask_after (unlinked path ∷ calls) mask = mask_after calls mask
mask_after (bound fd ∷ calls) mask = mask_after calls mask
mask_after (owned path uid gid ∷ calls) mask = mask_after calls mask
mask_after (listened fd backlog ∷ calls) mask = mask_after calls mask

open_after-append :
    (a b : List Call) (fds : List ℤ) → open_after (a ++ b) fds ≡ open_after b (open_after a fds)
open_after-append [] b fds = refl
open_after-append (opened fd ∷ a) b fds = open_after-append a b (fd ∷ fds)
open_after-append (closed fd ∷ a) b fds = open_after-append a b (without fd fds)
open_after-append (unlinked path ∷ a) b fds = open_after-append a b fds
open_after-append (masked mask ∷ a) b fds = open_after-append a b fds
open_after-append (bound fd ∷ a) b fds = open_after-append a b fds
open_after-append (owned path uid gid ∷ a) b fds = open_after-append a b fds
open_after-append (listened fd backlog ∷ a) b fds = open_after-append a b fds

mask_after-append :
    (a b : List Call) (mask : ℕ) → mask_after (a ++ b) mask ≡ mask_after b (mask_after a mask)
mask_after-append [] b mask = refl
mask_after-append (opened fd ∷ a) b mask = mask_after-append a b mask
mask_after-append (closed fd ∷ a) b mask = mask_after-append a b mask
mask_after-append (unlinked path ∷ a) b mask = mask_after-append a b mask
mask_after-append (masked new_mask ∷ a) b mask = mask_after-append a b new_mask
mask_after-append (bound fd ∷ a) b mask = mask_after-append a b mask
mask_after-append (owned path uid gid ∷ a) b mask = mask_after-append a b mask
mask_after-append (listened fd backlog ∷ a) b mask = mask_after-append a b mask

pub without-head : (fd : ℤ) (fds : List ℤ) → without fd (fd ∷ fds) ≡ fds
without-head fd fds = rw (eqb_ℤ_refl fd)

-- What a run ends with that starts with some descriptors open and some mask: what is open is
-- `kept`, and the result as well if it is a descriptor.
pub record Ends (run : Run) (fds kept : List ℤ) (mask umask : ℕ) : Type 0 where
  pub descriptors : open_after run.1 fds ≡ (if leb_ℤ (pos 0) run.0 then run.0 ∷ kept else kept)
  pub restored : mask_after run.1 mask ≡ umask

pub after-Ends :
    (calls : List Call) (run : Run) (fds kept : List ℤ) (mask umask : ℕ)
    → Ends run (open_after calls fds) kept (mask_after calls mask) umask
    → Ends (after calls run) fds kept mask umask
after-Ends calls run fds kept mask umask e = record {
  descriptors = open_after-append calls run.1 fds ∙ e.descriptors;
  restored = mask_after-append calls run.1 mask ∙ e.restored;
}

-- The same where the calls before the run change nothing.
pub quiet-Ends :
    (calls : List Call) (run : Run) {fds : List ℤ} (kept : List ℤ) (mask umask : ℕ)
    → open_after calls fds ≡ fds
    → mask_after calls mask ≡ mask
    → Ends run fds kept mask umask
    → Ends (after calls run) fds kept mask umask
quiet-Ends calls run {fds} kept mask umask same still e = after-Ends calls run fds kept mask umask (
    subst (λ o. Ends run o kept (mask_after calls mask) umask) (sym same)
      (subst (λ k. Ends run fds kept k umask) (sym still) e))
