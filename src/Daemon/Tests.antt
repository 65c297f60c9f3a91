-- ===== src/Daemon/Tests.antt =====
-- Runs of src/daemon.rs on a concrete sd-daemon, and instances of the theorems.
use rust_systemd.Base.{
  ℕ, suc, ◌↔◌, none, [], ◌∷◌, ◌++◌, ◌≡◌, ◌≢◌, Bytes, codes, refl, some, All, arith, length, Bool,
  true, false,
}
use rust_systemd.Base.Int.{ℤ, pos, is_nonzero}
use rust_systemd.Ffi.{Machine, Outcome, returns, has_nul}
use rust_systemd.Ffi.Heap.{CArg, at, null, dangling, IsSound, view, alloc, release}
use rust_systemd.Daemon.Library.{SdDaemon}
use rust_systemd.Daemon.State.{StateMap, IsPlain, state_text, read_state}
use rust_systemd.Daemon.{
  notify, pid_notify, is_fifo, is_special, is_mq, is_socket_unix, state_ready, state_status,
  state_errno, state_buserror, state_mainpid, state_watchdog, get_c_listening, get_c_socktype,
  stream, is_listening, TcpListener, listen_fds, is_socket, is_socket_inet, tcp_listener, booted,
  watchdog_enabled,
}
use rust_systemd.Ffi.Answers.{Answers}
use rust_systemd.Daemon.Sockets.{answer}
use rust_systemd.Daemon.Answers.{socket_answer, inet_answer, daemon-Answers}
use rust_systemd.Daemon.Notify.{NoNul, Sent}
use rust_systemd.Daemon.Unordered.{
  IsDistinct, IsDistinct-cons, Iteration, HashMap, find, get, notify_map,
}
use mathlib.Core.List.{Pairwise}
use mathlib.Core.List.Perm
use mathlib.Core.Quot
use rust_systemd.Daemon.Pointers.{Calls, paths_dangle}

-- The string that a function was given last.
abbrev Seen : Type 0
Seen = CArg

abbrev given : CArg → Seen → ℤ × Seen
given text w = (pos 1, text)

abbrev test_lib : SdDaemon Seen
test_lib = record {
  sd_listen_fds = λ unset w. (pos 2, w);
  sd_is_fifo = λ fd text w. given text w;
  sd_is_special = λ fd text w. given text w;
  sd_is_socket = λ fd family kind mode w. (pos 1, w);
  sd_is_socket_inet = λ fd family kind mode port w. (pos 1, w);
  sd_is_socket_unix = λ fd kind mode text n w. given text w;
  sd_is_mq = λ fd text w. given text w;
  sd_notify = λ unset text w. given text w;
  sd_pid_notify = λ pid unset text w. given text w;
  sd_booted = λ w. (pos 1, w);
  sd_watchdog_enabled = λ unset usec w. ((pos 1, 30000000), w);
  sock_stream = pos 1;
  sock_dgram = pos 2;
  sock_raw = pos 3;
}

abbrev start : Machine Seen
start = record { memory = record { next = 1; live = [] }; world = null }

start-IsSound : IsSound start.memory
start-IsSound = record { positive = omega arith; handed_out = tt }

abbrev ready : StateMap
ready = (state_ready, codes "1") ∷ (state_status, codes "x") ∷ []

abbrev last_keys : StateMap
last_keys =
    (state_errno, codes "2")
    ∷ (state_buserror, codes "a.b")
    ∷ (state_mainpid, codes "41")
    ∷ (state_watchdog, codes "1")
    ∷ []

-- Each key that systemd knows.
abbrev all_keys : StateMap
all_keys = (state_ready, codes "1") ∷ (state_status, codes "up") ∷ last_keys

all_keys-IsPlain : All IsPlain all_keys
all_keys-IsPlain = ground arith

all_keys-NoNul : All NoNul all_keys
all_keys-NoNul = ground arith

text_of_ready : state_text ready ≡ codes "READY=1" ++ 10 ∷ codes "STATUS=x"
unfolding state_text
text_of_ready = refl

-- The C function is given the text, and nothing stays allocated.
notify-ready :
    (notify test_lib false ready start).1.world
    ≡ at (codes "READY=1" ++ 10 ∷ codes "STATUS=x" ++ 0 ∷ [])
unfolding notify state_text view alloc
notify-ready = refl

fifo_of_a_path : (is_fifo test_lib (pos 3) (some (codes "/run/x")) start).1.world ≡ dangling
unfolding is_fifo view alloc release
fifo_of_a_path = refl

keys_some : all_keys ≢ []
keys_some e = cc

last_keys-IsDistinct : IsDistinct last_keys
last_keys-IsDistinct = IsDistinct-cons _ _ (ground arith) (
    IsDistinct-cons _ _ (ground arith)
      (IsDistinct-cons _ _ (ground arith) (IsDistinct-cons _ _ (ground arith) Pairwise.nil)))

all_keys-IsDistinct : IsDistinct all_keys
all_keys-IsDistinct =
    IsDistinct-cons _ _ (ground arith) (IsDistinct-cons _ _ (ground arith) last_keys-IsDistinct)

-- The same entries, the first two the other way round.
abbrev other_order : StateMap
other_order = (state_status, codes "up") ∷ (state_ready, codes "1") ∷ last_keys

other_some : other_order ≢ []
other_some e = cc

other_order-IsPlain : All IsPlain other_order
other_order-IsPlain = ground arith

other_order-IsDistinct : IsDistinct other_order
other_order-IsDistinct =
    IsDistinct-cons _ _ (ground arith) (IsDistinct-cons _ _ (ground arith) last_keys-IsDistinct)

abbrev one_iteration : Iteration
one_iteration = record {
  entries = all_keys;
  distinct = all_keys-IsDistinct;
  some_entry = keys_some;
  plain = all_keys-IsPlain;
}

abbrev the_map : HashMap
the_map = Quot.mk (record {
  entries = other_order;
  distinct = other_order-IsDistinct;
  some_entry = other_some;
  plain = other_order-IsPlain;
})

iterated : Quot.mk one_iteration ≡ the_map
iterated = Quot.sound (Perm.swap _ _ last_keys)

notify_map_example :
    (text : Bytes) × (read_state text ≡ all_keys)
    × ((k : Bytes) → find k (read_state text) ≡ get k the_map)
    × Sent test_lib false all_keys start text
        (test_lib.sd_notify (pos 0) (at (text ++ 0 ∷ [])) null)
        (notify test_lib false all_keys start)
    × Sent test_lib false all_keys start text
        (test_lib.sd_pid_notify (pos 7) (pos 0) (at (text ++ 0 ∷ [])) null)
        (pid_notify test_lib (pos 7) false all_keys start)
notify_map_example =
    notify_map test_lib false start the_map one_iteration (pos 7) iterated all_keys-NoNul
      start-IsSound

abbrev with_nul : StateMap
with_nul = (codes "A", 0 ∷ []) ∷ []

with_nul-has_nul : has_nul (state_text with_nul) ≡ true
unfolding has_nul state_text
with_nul-has_nul = refl

abbrev a_path : Bytes
a_path = codes "/run/x"

a_path-has_nul : has_nul a_path ≡ false
unfolding has_nul
a_path-has_nul = refl

one_nul : has_nul (0 ∷ []) ≡ true
unfolding has_nul
one_nul = refl

abbrev CallsTest : (ℤ × Seen) → Outcome Bool × Machine Seen → Type 0
CallsTest = Calls test_lib (pos 3) start

paths_dangle_example :
    CallsTest
      (test_lib.sd_is_fifo (pos 3) dangling null)
      (is_fifo test_lib (pos 3) (some a_path) start)
    × CallsTest
        (test_lib.sd_is_special (pos 3) dangling null)
        (is_special test_lib (pos 3) (some a_path) start)
    × CallsTest
        (test_lib.sd_is_mq (pos 3) dangling null)
        (is_mq test_lib (pos 3) (some a_path) start)
    × CallsTest
        (test_lib.sd_is_socket_unix
          (pos 3)
          (get_c_socktype test_lib (some stream))
          (get_c_listening is_listening)
          dangling
          (length a_path)
          null)
        (is_socket_unix test_lib (pos 3) (some stream) is_listening (some a_path) start)
paths_dangle_example =
    paths_dangle test_lib (pos 3) start (some stream) is_listening a_path a_path-has_nul
      start-IsSound

abbrev a_listener : TcpListener
a_listener = record { fd = pos 3 }

daemon-Answers_example :
    Answers start
      (test_lib.sd_listen_fds (pos 1) null).0
      (test_lib.sd_listen_fds (pos 1) null).1
      (test_lib.sd_listen_fds (pos 1) null).0
      (listen_fds test_lib true start)
    × Answers start
        (socket_answer test_lib start (pos 3) (some 2) none is_listening).0
        (socket_answer test_lib start (pos 3) (some 2) none is_listening).1
        (is_nonzero (socket_answer test_lib start (pos 3) (some 2) none is_listening).0)
        (is_socket test_lib (pos 3) (some 2) none is_listening start)
    × Answers start
        (inet_answer test_lib start (pos 3) (some 2) none is_listening (some 80)).0
        (inet_answer test_lib start (pos 3) (some 2) none is_listening (some 80)).1
        (is_nonzero (inet_answer test_lib start (pos 3) (some 2) none is_listening (some 80)).0)
        (is_socket_inet test_lib (pos 3) (some 2) none is_listening (some 80) start)
    × Answers start
        (test_lib.sd_booted null).0
        (test_lib.sd_booted null).1
        (is_nonzero (test_lib.sd_booted null).0)
        (booted test_lib start)
    × Answers start
        (test_lib.sd_watchdog_enabled (pos 1) 0 null).0.0
        (test_lib.sd_watchdog_enabled (pos 1) 0 null).1
        (test_lib.sd_watchdog_enabled (pos 1) 0 null).0.1
        (watchdog_enabled test_lib true start)
    × (((tcp_listener test_lib (pos 3) start).0 ≡ returns a_listener) ↔ (
        (a_listener ≡ record { fd = pos 3 })
        × ((n : ℕ) × (answer test_lib (pos 3) start ≡ pos (suc n)))))
daemon-Answers_example =
    daemon-Answers test_lib start true (pos 3) (some 2) none is_listening (some 80) a_listener
