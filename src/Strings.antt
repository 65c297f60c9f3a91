-- ===== src/Strings.antt =====
-- The C strings that src/daemon.rs and src/journal.rs make for the C functions.
mod Tests
use rust_systemd.Base.{Bool, ◌≡◌, Bytes, Option}
use rust_systemd.Base.Int.{ℤ}
use rust_systemd.Ffi.{Machine, Outcome}
use rust_systemd.Ffi.Heap.{IsSound}
use rust_systemd.Ffi.Scoped.{IsScoped}
use rust_systemd.Daemon.Library.{SdDaemon}
use rust_systemd.Daemon.State.{StateMap}
use rust_systemd.Daemon.{
  SocketType, Listening, is_fifo, is_special, is_socket_unix, is_mq, notify, pid_notify,
}
use rust_systemd.Daemon.Strings.{
  is_fifo-IsScoped, is_special-IsScoped, is_socket_unix-IsScoped, is_mq-IsScoped, notify-IsScoped,
  pid_notify-IsScoped,
}
use rust_systemd.Journal.{Journal, JournalSeek, seek}
use rust_systemd.Journal.Library.{SdJournal}
use rust_systemd.Journal.Strings.{seek-IsScoped}

-- The same strings are allocated after a call as before it, whatever it gave.
abbrev pub SameStrings : {W A : Type 0} → Machine W → Outcome A × Machine W → Type 0
SameStrings s r = (r.1.memory.live ≡ s.memory.live) × IsSound r.1.memory

same_strings :
    {W A : Type 0} (m : Machine W → Outcome A × Machine W) (s : Machine W)
    → IsScoped m
    → IsSound s.memory
    → SameStrings s (m s)
same_strings m s scoped sound = (scoped.same_live s sound, scoped.still_sound s sound)

module _ {W V : Type 0} (lib : SdDaemon W) (journals : SdJournal V) where
  -- Every function of daemon.rs that makes a C string, and `seek`, frees the strings that it makes and no
  -- others, on every way out: also where the C function fails, where a text holds a '\0' and where the
  -- function panics. This holds on a heap whose addresses in use were handed out, which it then is again.
  pub strings_are_freed :
      (fd pid : ℤ) (path : Option Bytes) (socktype : Option SocketType) (check : Listening)
      (unset_environment : Bool) (state : StateMap) (self : Journal) (to : JournalSeek)
      (s : Machine W) (t : Machine V)
      → IsSound s.memory
      → IsSound t.memory
      → SameStrings s (is_fifo lib fd path s)
        × SameStrings s (is_special lib fd path s)
        × SameStrings s (is_mq lib fd path s)
        × SameStrings s (is_socket_unix lib fd socktype check path s)
        × SameStrings s (notify lib unset_environment state s)
        × SameStrings s (pid_notify lib pid unset_environment state s)
        × SameStrings t (seek journals self to t)
  strings_are_freed fd pid path socktype check unset_environment state self to s t sound sound' = (
    same_strings (is_fifo lib fd path) s (is_fifo-IsScoped lib fd path) sound,
    same_strings (is_special lib fd path) s (is_special-IsScoped lib fd path) sound,
    same_strings (is_mq lib fd path) s (is_mq-IsScoped lib fd path) sound,
    same_strings (is_socket_unix lib fd socktype check path) s
        (is_socket_unix-IsScoped lib fd path socktype check) sound,
    same_strings (notify lib unset_environment state) s
        (notify-IsScoped lib unset_environment state) sound,
    same_strings (pid_notify lib pid unset_environment state) s
        (pid_notify-IsScoped lib unset_environment state pid) sound,
    same_strings (seek journals self to) t (seek-IsScoped journals self to) sound',
  )
