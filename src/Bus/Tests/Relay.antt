-- ===== src/Bus/Tests/Relay.antt =====
-- An error of src/bus/mod.rs that a handler returns, and what `call` of another program gives.
use rust_systemd.Base.{◌≡◌, [], ◌∷◌, some, none, err, codes, c_codes, refl, Option, Bytes, arith}
use rust_systemd.Base.Int.{pos, negsuc}
use rust_systemd.Ffi.{Machine}
use rust_systemd.Ffi.Heap.{Memory, view}
use rust_systemd.Bus.RawError
use rust_systemd.Bus.Error
use rust_systemd.Bus.Error.{Error}
use rust_systemd.Bus.SdBus.{SdBus}
use rust_systemd.Bus.Message.{Callback, raw_message_handler, CallResult, call_method, failed}
use rust_systemd.Bus.Message.Call.{answered}
use rust_systemd.Bus.Message.Relay.{IsRelayed, Shows, Tells, relayed}
use rust_systemd.Bus.Tests.{World, start, test_lib}
use rust_systemd.Bus.Tests.Errors.{
  test_errors, copies, two_strings, a_name, a_message, a_name-IsUtf8CStr, a_message-IsUtf8CStr,
  told,
}

-- The handler keeps its strings at 1 and 2, and the caller finds them at 5 and 6.
abbrev refuses : Callback World
refuses p s = (err told.0, record s { memory = told.1 })

abbrev caller_heap : Memory
caller_heap = record { next = 7; live = (5, c_codes "a.b") ∷ (6, c_codes "bad") ∷ [] }

abbrev remote_lib : SdBus World
remote_lib = record test_lib {
  sd_bus_call = λ p usec e m w. record {
    ret = negsuc 4;
    error = record { name = 5; message = 6; need_free = pos 1 };
    reply = none;
    memory = caller_heap;
    world = w;
  };
}

same_message : (t : Option Bytes) → Shows two_strings 2 t → Shows caller_heap 6 t
unfolding view
same_message none h = absurd (omega (arith, h))
same_message (some b) h = h

relays :
    IsRelayed
      (raw_message_handler refuses 7 RawError.new.inner start)
      (answered remote_lib test_errors 7 100 start)
unfolding raw_message_handler Error.new view
relays = record {
  relays_name = λ k b zero shown. (4, refl, shown);
  relays_message = λ k b t zero shown message. same_message t message;
}

abbrev called : CallResult × Machine World
called = call_method remote_lib 7 test_errors 100 start

relayed_example :
    (e : Error) × (called.0 ≡ failed e) × Tells called.1.memory e (codes "a.b") (some (codes "bad"))
relayed_example =
    relayed test_errors copies two_strings a_name (codes "a.b") a_name-IsUtf8CStr refuses 7
      RawError.new.inner start remote_lib test_errors 7 100 start (some a_message)
      (some (codes "bad")) a_message-IsUtf8CStr refl refl relays
