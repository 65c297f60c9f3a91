-- ===== src/Daemon.antt =====
-- src/daemon.rs: socket activation, checks of descriptors, and notification, over sd-daemon(3).
pub mod Library
pub mod State
pub mod Pointers
pub mod Notify
pub mod Unordered
pub mod Strings
pub mod Sockets
pub mod Answers
mod Tests
use rust_systemd.Base.{
  ℕ, zero, suc, ◌+◌, ◌≤◌, ◌<◌, ◌≡◌, ◌≢◌, ◌⊎◌, inl, inr, ◌↔◌, Bool, true, false, not, ◌&&◌, ◌||◌,
  Option, none, some, List, [], ◌∷◌, ◌++◌, arith, Bytes, ◌==◌, ltb, if◌then◌else◌, All, length,
  length-append, Result, ok, err, refl, c_codes, codes, ap, sym, subst, ◌∙◌, append_assoc, map,
}
use rust_systemd.Base.Int.{ℤ, pos, negsuc, bool_c_int, is_nonzero, wrap_c_int}
use rust_systemd.Ffi.{
  IoError, invalid_input, custom, Eff, fails, pure, lift, owning, call, call_with, ffi_result,
  sd_try, new_c_string, char_or_null, ◌>>=◌, ◌>>◌,
}
use Library.{SdDaemon}
use State.{StateMap, state_text}

pub data SocketType : Type 0 where
  stream datagram raw : SocketType

pub data Listening : Type 0 where
  is_listening is_not_listening no_listening_check : Listening

-- `LISTEN_FDS_START`
abbrev pub listen_fds_start : ℤ
listen_fds_start = pos 3

-- The keys that systemd knows for `notify`.
abbrev pub state_ready : Bytes
state_ready = codes "READY"

abbrev pub state_status : Bytes
state_status = codes "STATUS"

abbrev pub state_errno : Bytes
state_errno = codes "ERRNO"

abbrev pub state_buserror : Bytes
state_buserror = codes "BUSERROR"

abbrev pub state_mainpid : Bytes
state_mainpid = codes "MAINPID"

abbrev pub state_watchdog : Bytes
state_watchdog = codes "WATCHDOG"

-- `std::net::TcpListener::from_raw_fd`
pub record TcpListener : Type 0 where
  pub fd : ℤ

unfoldable pub get_c_listening : Listening → ℤ
get_c_listening is_listening = pos 1
get_c_listening is_not_listening = pos 0
get_c_listening no_listening_check = negsuc 0

-- `port.unwrap_or(0)`
abbrev unwrap_or_zero : Option ℕ → ℕ
unwrap_or_zero none = 0
unwrap_or_zero (some n) = n

module _ {W : Type 0} where
  unfoldable pub get_c_socktype : SdDaemon W → Option SocketType → ℤ
  get_c_socktype lib (some stream) = lib.sock_stream
  get_c_socktype lib (some datagram) = lib.sock_dgram
  get_c_socktype lib (some raw) = lib.sock_raw
  get_c_socktype lib none = pos 0

  -- The `match path` of `is_socket_unix`: `path_cstr` is dropped at the end of its arm.
  socket_path : Option Bytes → Eff W (ℕ × ℕ)
  unfolding new_c_string owning ◌>>=◌
  socket_path none = pure (0, 0)
  socket_path (some p) = do
    path_cstr ← new_c_string p
    owning path_cstr (pure (path_cstr, length p))

  -- `state_to_c_string`
  state_to_c_string : StateMap → Eff W ℕ
  unfolding new_c_string
  state_to_c_string state = new_c_string (state_text state)

  abbrev not_expected : {A : Type 0} → Eff W A
  not_expected = lift (fails (custom invalid_input (codes "Socket type was not as expected")))

module _ {W : Type 0} (lib : SdDaemon W) where
  unfoldable pub listen_fds : Bool → Eff W ℤ
  unfolding sd_try call
  listen_fds unset_environment = sd_try (call (lib.sd_listen_fds (bool_c_int unset_environment)))

  unfoldable pub is_fifo : ℤ → Option Bytes → Eff W Bool
  unfolding char_or_null sd_try call_with
  is_fifo fd path = do
    c_path ← char_or_null path
    result ← sd_try (call_with (lib.sd_is_fifo fd) c_path)
    pure (is_nonzero result)

  unfoldable pub is_special : ℤ → Option Bytes → Eff W Bool
  unfolding char_or_null sd_try call_with
  is_special fd path = do
    c_path ← char_or_null path
    result ← sd_try (call_with (lib.sd_is_special fd) c_path)
    pure (is_nonzero result)

  unfoldable pub is_socket : ℤ → Option ℕ → Option SocketType → Listening → Eff W Bool
  unfolding sd_try call get_c_socktype get_c_listening
  is_socket fd family socktype listening = do
    let c_family = wrap_c_int (unwrap_or_zero family)
    let c_socktype = get_c_socktype lib socktype
    let c_listening = get_c_listening listening
    result ← sd_try (call (lib.sd_is_socket fd c_family c_socktype c_listening))
    pure (is_nonzero result)

  unfoldable pub is_socket_inet :
      ℤ → Option ℕ → Option SocketType → Listening → Option ℕ → Eff W Bool
  unfolding sd_try call get_c_socktype get_c_listening
  is_socket_inet fd family socktype listening port = do
    let c_family = wrap_c_int (unwrap_or_zero family)
    let c_socktype = get_c_socktype lib socktype
    let c_listening = get_c_listening listening
    let c_port = unwrap_or_zero port
    result ← sd_try (call (lib.sd_is_socket_inet fd c_family c_socktype c_listening c_port))
    pure (is_nonzero result)

  unfoldable pub tcp_listener : ℤ → Eff W TcpListener
  unfolding is_socket_inet
  tcp_listener fd = do
    expected ← is_socket_inet fd none (some stream) is_listening none
    if not expected then not_expected else pure (record { fd = fd })

  unfoldable pub is_socket_unix : ℤ → Option SocketType → Listening → Option Bytes → Eff W Bool
  unfolding sd_try call_with get_c_socktype get_c_listening socket_path
  is_socket_unix fd socktype listening path = do
    let c_socktype = get_c_socktype lib socktype
    let c_listening = get_c_listening listening
    (c_path, c_length) ← socket_path path
    result ←
        sd_try (call_with (λ p. lib.sd_is_socket_unix fd c_socktype c_listening p c_length) c_path)
    pure (is_nonzero result)

  unfoldable pub is_mq : ℤ → Option Bytes → Eff W Bool
  unfolding char_or_null sd_try call_with
  is_mq fd path = do
    c_path ← char_or_null path
    result ← sd_try (call_with (lib.sd_is_mq fd) c_path)
    pure (is_nonzero result)

  -- `c_state` lives to the end of the function, on either way out.
  unfoldable pub notify : Bool → StateMap → Eff W Bool
  unfolding state_to_c_string owning sd_try call_with
  notify unset_environment state = do
    c_state ← state_to_c_string state
    owning c_state (do
      result ← sd_try (call_with (lib.sd_notify (bool_c_int unset_environment)) c_state)
      pure (is_nonzero result))

  unfoldable pub pid_notify : ℤ → Bool → StateMap → Eff W Bool
  unfolding state_to_c_string owning sd_try call_with
  pid_notify pid unset_environment state = do
    c_state ← state_to_c_string state
    owning c_state (do
      result ← sd_try (call_with (lib.sd_pid_notify pid (bool_c_int unset_environment)) c_state)
      pure (is_nonzero result))

  unfoldable pub booted : Eff W Bool
  unfolding sd_try call
  booted = do result ← sd_try (call lib.sd_booted); pure (is_nonzero result)

  unfoldable pub watchdog_enabled : Bool → Eff W ℕ
  unfolding sd_try call ffi_result
  watchdog_enabled unset_environment = do
    (ret, timeout) ← call (lib.sd_watchdog_enabled (bool_c_int unset_environment) 0)
    lift (ffi_result ret)
    pure timeout
