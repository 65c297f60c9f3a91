-- ===== src/Daemon/Strings.antt =====
-- The C strings of src/daemon.rs: each function frees those that it makes, on every way out.
use rust_systemd.Base.{Bytes, Bool, Option, none, some}
use rust_systemd.Base.Int.{ℤ}
use rust_systemd.Ffi.Scoped.{IsScoped, scoping}
use rust_systemd.Daemon.Library.{SdDaemon}
use rust_systemd.Daemon.State.{StateMap}
use rust_systemd.Daemon.{
  SocketType, Listening, socket_path, state_to_c_string, is_fifo, is_special, is_socket_unix, is_mq,
  notify, pid_notify,
}

module _ {W : Type 0} where
  socket_path-IsScoped : (path : Option Bytes) → IsScoped {W = W} (socket_path path)
  unfolding socket_path
  socket_path-IsScoped none = search scoping
  socket_path-IsScoped (some p) = search scoping

module _ {W : Type 0} (lib : SdDaemon W) (fd : ℤ) (path : Option Bytes) where
  pub is_fifo-IsScoped : IsScoped (is_fifo lib fd path)
  unfolding is_fifo
  is_fifo-IsScoped = search scoping

  pub is_special-IsScoped : IsScoped (is_special lib fd path)
  unfolding is_special
  is_special-IsScoped = search scoping

  pub is_mq-IsScoped : IsScoped (is_mq lib fd path)
  unfolding is_mq
  is_mq-IsScoped = search scoping

  pub is_socket_unix-IsScoped :
      (socktype : Option SocketType) (listening : Listening)
      → IsScoped (is_socket_unix lib fd socktype listening path)
  unfolding is_socket_unix
  is_socket_unix-IsScoped socktype check = search (scoping, socket_path-IsScoped)

module _ {W : Type 0} (lib : SdDaemon W) (unset_environment : Bool) (state : StateMap) where
  pub notify-IsScoped : IsScoped (notify lib unset_environment state)
  unfolding notify state_to_c_string
  notify-IsScoped = search scoping

  pub pid_notify-IsScoped : (pid : ℤ) → IsScoped (pid_notify lib pid unset_environment state)
  unfolding pid_notify state_to_c_string
  pid_notify-IsScoped pid = search scoping
