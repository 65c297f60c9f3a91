-- ===== src/Daemon/Sockets.antt =====
-- Socket checks of src/daemon.rs: what the C functions are asked, and what their answer means.
use rust_systemd.Base.{ℕ, suc, ◌≡◌, ◌↔◌, arith}
use rust_systemd.Base.Int.{ℤ, pos}
use rust_systemd.Ffi.{returns, Machine}
use rust_systemd.Daemon.Library.{SdDaemon}
use rust_systemd.Daemon.{TcpListener, tcp_listener}

module _ {W : Type 0} (lib : SdDaemon W) (fd : ℤ) (s : Machine W) where
  -- The answer of `sd_is_socket_inet` to the question that `tcp_listener` asks: any family, a stream,
  -- listening, any port.
  abbrev pub answer : ℤ
  answer = (lib.sd_is_socket_inet fd (pos 0) lib.sock_stream (pos 1) 0 s.world).0

  -- `tcp_listener` hands out the descriptor exactly if systemd answers yes for a listening stream
  -- socket of any family on any port.
  pub tcp_listener_iff :
      (l : TcpListener)
      → ((tcp_listener lib fd s).0 ≡ returns l)
        ↔ ((l ≡ record { fd = fd }) × ((n : ℕ) × (answer ≡ pos (suc n))))
  unfolding tcp_listener
  tcp_listener_iff l = (λ h. ground arith, λ (e, (n, h)). ground arith)
