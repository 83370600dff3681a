-- ===== src/Sockets/Address.antt =====
-- pmf_worker_pool.h: `PMF_ADDRESS_DOMAIN_E`; pmf_sockets.c: which domain a listen address names.
use pmf.Common.{if◌then◌else◌, ℕ, ◌||◌}
use pmf.Text.Chars.{Text}
use pmf.Text.Search.{all_digits, has_char}

-- A pool's domain is 0 before it is set.
abbrev pub pmf_af_unix : ℕ
pmf_af_unix = 1

abbrev pub pmf_af_inet : ℕ
pmf_af_inet = 2

unfoldable pub domain_from_address : Text → ℕ
domain_from_address address =
    if has_char b':' address || all_digits address then pmf_af_inet else pmf_af_unix
