-- ===== src/Daemon/Answers.antt =====
-- What the functions of src/daemon.rs that take no string ask of sd-daemon(3), and what they give.
use rust_systemd.Base.{ℕ, suc, ◌≡◌, ◌↔◌, Bool, Option, none, some, refl}
use rust_systemd.Base.Int.{ℤ, pos, negsuc, bool_c_int, is_nonzero, wrap_c_int}
use rust_systemd.Ffi.{Machine, returns}
use rust_systemd.Ffi.Answers.{Answers, sd_try-Answers, tried-Answers, wrote-Answers}
use rust_systemd.Daemon.Library.{SdDaemon}
use rust_systemd.Daemon.Sockets.{answer, tcp_listener_iff}
use rust_systemd.Daemon.{
  SocketType, stream, datagram, raw, Listening, is_listening, is_not_listening, no_listening_check,
  TcpListener, get_c_socktype, get_c_listening, unwrap_or_zero, listen_fds, is_socket,
  is_socket_inet, tcp_listener, booted, watchdog_enabled,
}

-- sd_is_socket(3): a family, a type or a port of 0 is not checked, and neither is the mode for a
-- negative number; 1 asks for a listening socket and 0 for one that is not.
pub type_asked : {W : Type 0} → SdDaemon W → Option SocketType → ℤ
type_asked lib none = pos 0
type_asked lib (some stream) = lib.sock_stream
type_asked lib (some datagram) = lib.sock_dgram
type_asked lib (some raw) = lib.sock_raw

pub mode_asked : Listening → ℤ
mode_asked is_listening = pos 1
mode_asked is_not_listening = pos 0
mode_asked no_listening_check = negsuc 0

pub number_asked : Option ℕ → ℕ
number_asked none = 0
number_asked (some n) = n

type_asked-get_c_socktype :
    {W : Type 0} (lib : SdDaemon W) (t : Option SocketType)
    → type_asked lib t ≡ get_c_socktype lib t
unfolding type_asked get_c_socktype
type_asked-get_c_socktype lib none = refl
type_asked-get_c_socktype lib (some stream) = refl
type_asked-get_c_socktype lib (some datagram) = refl
type_asked-get_c_socktype lib (some raw) = refl

mode_asked-get_c_listening : (l : Listening) → mode_asked l ≡ get_c_listening l
unfolding mode_asked get_c_listening
mode_asked-get_c_listening is_listening = refl
mode_asked-get_c_listening is_not_listening = refl
mode_asked-get_c_listening no_listening_check = refl

number_asked-unwrap_or_zero : (n : Option ℕ) → number_asked n ≡ unwrap_or_zero n
unfolding number_asked
number_asked-unwrap_or_zero none = refl
number_asked-unwrap_or_zero (some n) = refl

module _ {W : Type 0} (lib : SdDaemon W) (s : Machine W) where
  -- What C answers about a socket, and about one of a network.
  unfoldable pub socket_answer : ℤ → Option ℕ → Option SocketType → Listening → ℤ × W
  socket_answer fd family socktype check =
      lib.sd_is_socket fd (wrap_c_int (number_asked family)) (type_asked lib socktype)
        (mode_asked check) s.world

  unfoldable pub inet_answer : ℤ → Option ℕ → Option SocketType → Listening → Option ℕ → ℤ × W
  inet_answer fd family socktype check port =
      lib.sd_is_socket_inet fd (wrap_c_int (number_asked family)) (type_asked lib socktype)
        (mode_asked check) (number_asked port) s.world

  socket_answer_lem :
      (fd : ℤ) (family : Option ℕ) (socktype : Option SocketType) (check : Listening)
      → socket_answer fd family socktype check
        ≡ lib.sd_is_socket fd
            (wrap_c_int (unwrap_or_zero family))
            (get_c_socktype lib socktype)
            (get_c_listening check)
            s.world
  unfolding socket_answer number_asked type_asked mode_asked get_c_socktype get_c_listening
  socket_answer_lem fd family socktype check =
      rw
        (
          number_asked-unwrap_or_zero family,
          type_asked-get_c_socktype lib socktype,
          mode_asked-get_c_listening check,
        )
        refl

  inet_answer_lem :
      (fd : ℤ) (family : Option ℕ) (socktype : Option SocketType) (check : Listening)
      (port : Option ℕ)
      → inet_answer fd family socktype check port
        ≡ lib.sd_is_socket_inet fd
            (wrap_c_int (unwrap_or_zero family))
            (get_c_socktype lib socktype)
            (get_c_listening check)
            (unwrap_or_zero port)
            s.world
  unfolding inet_answer number_asked type_asked mode_asked get_c_socktype get_c_listening
  inet_answer_lem fd family socktype check port =
      rw
        (
          number_asked-unwrap_or_zero family,
          number_asked-unwrap_or_zero port,
          type_asked-get_c_socktype lib socktype,
          mode_asked-get_c_listening check,
        )
        refl

  is_socket-Answers :
      (fd : ℤ) (family : Option ℕ) (socktype : Option SocketType) (check : Listening)
      → Answers s
          (socket_answer fd family socktype check).0
          (socket_answer fd family socktype check).1
          (is_nonzero (socket_answer fd family socktype check).0)
          (is_socket lib fd family socktype check s)
  unfolding is_socket
  is_socket-Answers fd family socktype check = rw socket_answer_lem (
      tried-Answers s
        (lib.sd_is_socket fd (wrap_c_int (unwrap_or_zero family)) (get_c_socktype lib socktype)
          (get_c_listening check))
        is_nonzero)

  is_socket_inet-Answers :
      (fd : ℤ) (family : Option ℕ) (socktype : Option SocketType) (check : Listening)
      (port : Option ℕ)
      → Answers s
          (inet_answer fd family socktype check port).0
          (inet_answer fd family socktype check port).1
          (is_nonzero (inet_answer fd family socktype check port).0)
          (is_socket_inet lib fd family socktype check port s)
  unfolding is_socket_inet
  is_socket_inet-Answers fd family socktype check port = rw inet_answer_lem (
      tried-Answers s
        (lib.sd_is_socket_inet fd (wrap_c_int (unwrap_or_zero family)) (get_c_socktype lib socktype)
          (get_c_listening check) (unwrap_or_zero port))
        is_nonzero)

  -- Each function makes one call, of the C function of its name, and gives what that answered or its
  -- errno: a number of descriptors, a truth value for a number that is not 0, or the timeout. The type is
  -- asked for by the constant of C of its name and the mode as sd_is_socket(3) has it; no family, type or
  -- port is asked for as 0. `tcp_listener` hands out the descriptor exactly if C answers yes for a
  -- listening stream socket of any family on any port.
  pub daemon-Answers :
      (unset_environment : Bool) (fd : ℤ) (family : Option ℕ) (socktype : Option SocketType)
      (check : Listening) (port : Option ℕ) (l : TcpListener)
      → Answers s
          (lib.sd_listen_fds (bool_c_int unset_environment) s.world).0
          (lib.sd_listen_fds (bool_c_int unset_environment) s.world).1
          (lib.sd_listen_fds (bool_c_int unset_environment) s.world).0
          (listen_fds lib unset_environment s)
        × Answers s
            (socket_answer fd family socktype check).0
            (socket_answer fd family socktype check).1
            (is_nonzero (socket_answer fd family socktype check).0)
            (is_socket lib fd family socktype check s)
        × Answers s
            (inet_answer fd family socktype check port).0
            (inet_answer fd family socktype check port).1
            (is_nonzero (inet_answer fd family socktype check port).0)
            (is_socket_inet lib fd family socktype check port s)
        × Answers s
            (lib.sd_booted s.world).0
            (lib.sd_booted s.world).1
            (is_nonzero (lib.sd_booted s.world).0)
            (booted lib s)
        × Answers s
            (lib.sd_watchdog_enabled (bool_c_int unset_environment) 0 s.world).0.0
            (lib.sd_watchdog_enabled (bool_c_int unset_environment) 0 s.world).1
            (lib.sd_watchdog_enabled (bool_c_int unset_environment) 0 s.world).0.1
            (watchdog_enabled lib unset_environment s)
        × (((tcp_listener lib fd s).0 ≡ returns l)
            ↔ ((l ≡ record { fd = fd }) × ((n : ℕ) × (answer lib fd s ≡ pos (suc n)))))
  unfolding listen_fds booted watchdog_enabled
  daemon-Answers unset_environment fd family socktype check port l = (
    sd_try-Answers s (lib.sd_listen_fds (bool_c_int unset_environment)),
    is_socket-Answers fd family socktype check,
    is_socket_inet-Answers fd family socktype check port,
    tried-Answers s lib.sd_booted is_nonzero,
    wrote-Answers s (lib.sd_watchdog_enabled (bool_c_int unset_environment) 0) (λ x. x),
    tcp_listener_iff lib fd s l,
  )
