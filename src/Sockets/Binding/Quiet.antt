-- ===== src/Sockets/Binding/Quiet.antt =====
-- What binding a pool's socket does to the log.
use pmf.Common.{Bool, Option, none, some, ℤ, ◌∙◌, ◌≡◌}
use pmf.Text.Chars.{Text}
use pmf.Conf.Values.{plog_alert}
use pmf.Log.Level.{IsLevel, LogState, set_level-restores}
use pmf.Sockets.Table.{Table}
use pmf.Sockets.Binding.{
  Resolver, Target, af_inet_listening_socket, any_address, bind_target, host, invalid_port, target,
  with_log,
}

with_log-inv :
    (s : LogState) (m : Option (ℤ × Table)) {sock : ℤ} {t : Table} {s' : LogState}
    → with_log s m ≡ some (sock, t, s')
    → s' ≡ s
with_log-inv s none h = cc
with_log-inv s (some (sock, t)) h = cc

-- pmf_socket_af_inet_listening_socket leaves the log as it was, whatever it finds, though it
-- silences the log for its first attempt at a port on any address.
pub af_inet_listening_socket-level :
    (realloc_ok : Bool) (resolver : Resolver) (address : Text) (t : Table) (s : LogState) {sock : ℤ}
    {t' : Table} {s' : LogState}
    → IsLevel s.plog_level
    → af_inet_listening_socket realloc_ok resolver address t s ≡ some (sock, t', s')
    → s' ≡ s
unfolding af_inet_listening_socket
af_inet_listening_socket-level realloc_ok resolver address t s {sock} {t'} {s'} v h =
    by_target (target address) h
  where
    by_target :
        (to : Target) → bind_target realloc_ok resolver to t s ≡ some (sock, t', s') → s' ≡ s
    by_target invalid_port e = cc
    by_target (host addr port) e = with_log-inv s _ e
    by_target (any_address port) e = with_log-inv _ _ e ∙ (set_level-restores plog_alert s v).1
