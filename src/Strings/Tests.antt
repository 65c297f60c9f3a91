-- ===== src/Strings/Tests.antt =====
-- Calls of src/daemon.rs and src/journal.rs that fail, on a heap with one string.
use rust_systemd.Base.{[], ◌∷◌, codes, c_codes, some, none, true, arith}
use rust_systemd.Base.Int.{pos, negsuc}
use rust_systemd.Ffi.{Machine}
use rust_systemd.Ffi.Heap.{IsSound}
use rust_systemd.Daemon.Library.{SdDaemon}
use rust_systemd.Daemon.{
  stream, is_listening, is_fifo, is_special, is_socket_unix, is_mq, notify, pid_notify, state_ready,
}
use rust_systemd.Journal.{Journal, cursor, seek}
use rust_systemd.Journal.Library.{SdJournal}
use rust_systemd.Strings.{SameStrings, strings_are_freed}

abbrev failing_daemon : SdDaemon (Unit {0})
failing_daemon = record {
  sd_listen_fds = λ u w. (negsuc 4, w);
  sd_is_fifo = λ fd p w. (negsuc 4, w);
  sd_is_special = λ fd p w. (negsuc 4, w);
  sd_is_socket = λ fd f t l w. (negsuc 4, w);
  sd_is_socket_inet = λ fd f t l p w. (negsuc 4, w);
  sd_is_socket_unix = λ fd t l p n w. (negsuc 4, w);
  sd_is_mq = λ fd p w. (negsuc 4, w);
  sd_notify = λ u t w. (negsuc 4, w);
  sd_pid_notify = λ pid u t w. (negsuc 4, w);
  sd_booted = λ w. (negsuc 4, w);
  sd_watchdog_enabled = λ u n w. ((negsuc 4, n), w);
  sock_stream = pos 1;
  sock_dgram = pos 2;
  sock_raw = pos 3;
}

abbrev failing_journal : SdJournal (Unit {0})
failing_journal = record {
  sd_journal_open = λ flags w. ((negsuc 4, 0), w);
  sd_journal_enumerate_data = λ j w. ((negsuc 4, []), w);
  sd_journal_restart_data = λ j w. (tt, w);
  sd_journal_previous = λ j w. (negsuc 4, w);
  sd_journal_next = λ j w. (negsuc 4, w);
  sd_journal_seek_head = λ j w. (negsuc 4, w);
  sd_journal_seek_tail = λ j w. (negsuc 4, w);
  sd_journal_seek_monotonic_usec = λ j id usec w. (negsuc 4, w);
  sd_journal_seek_realtime_usec = λ j usec w. (negsuc 4, w);
  sd_journal_seek_cursor = λ j text w. (negsuc 4, w);
  sd_journal_get_cursor = λ j w. ((negsuc 4, none), w);
  mstring_from_raw = λ text. text;
}

abbrev one_string : Machine (Unit {0})
one_string = record { memory = record { next = 2; live = (1, c_codes "kept") ∷ [] }; world = tt }

one_string-IsSound : IsSound one_string.memory
one_string-IsSound = record { positive = omega arith; handed_out = (omega arith, tt) }

abbrev a_journal : Journal
a_journal = record { j = 5 }

-- The state has a value with a '\0', on which `notify` panics.
strings_are_freed_example :
    SameStrings one_string (is_fifo failing_daemon (pos 3) (some (codes "/run/x")) one_string)
    × SameStrings one_string (is_special failing_daemon (pos 3) (some (codes "/run/x")) one_string)
    × SameStrings one_string (is_mq failing_daemon (pos 3) (some (codes "/run/x")) one_string)
    × SameStrings one_string (
        is_socket_unix failing_daemon
          (pos 3)
          (some stream)
          is_listening
          (some (codes "/run/x"))
          one_string)
    × SameStrings one_string (notify failing_daemon true ((state_ready, 0 ∷ []) ∷ []) one_string)
    × SameStrings one_string
        (pid_notify failing_daemon (pos 7) true ((state_ready, 0 ∷ []) ∷ []) one_string)
    × SameStrings one_string (seek failing_journal a_journal (cursor (codes "s=1")) one_string)
strings_are_freed_example =
    strings_are_freed failing_daemon failing_journal (pos 3) (pos 7) (some (codes "/run/x"))
      (some stream) is_listening true ((state_ready, 0 ∷ []) ∷ []) a_journal (cursor (codes "s=1"))
      one_string one_string one_string-IsSound one_string-IsSound
