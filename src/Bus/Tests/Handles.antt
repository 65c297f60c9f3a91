-- ===== src/Bus/Tests/Handles.antt =====
-- Runs of the handles and of `send` of src/bus/mod.rs, and instances of the theorems on them.
use rust_systemd.Base.{ℕ, ◌<◌, [], ◌∷◌, ◌≡◌, c_codes, refl, arith}
use rust_systemd.Ffi.{returns}
use rust_systemd.Names.BusName.{BusName}
use rust_systemd.Bus.Handles.{Bus, clone_bus, drop_bus, drop_message, default_bus}
use rust_systemd.Bus.Handles.Owned.{Object, bus, message, owned}
use rust_systemd.Bus.Handles.Steps.{
  Program, Reach, here, next, clone_a_bus, drop_a_bus, drop_a_message, open_default, make_call,
  get_reply,
}
use rust_systemd.Bus.Handles.Counts.{Balanced, Reach-Balanced, held_is_alive}
use rust_systemd.Bus.Message.{send, new_method_call, call_method}
use rust_systemd.Bus.Message.Call.{IsAnswered, answered}
use rust_systemd.Bus.RawError
use rust_systemd.Ffi.{Machine}
use rust_systemd.Bus.Tests.Messages.{a_path, an_interface, a_member}
use rust_systemd.Bus.Tests.Errors.{test_errors}
use rust_systemd.Bus.Tests.{World, empty_world, start, test_lib, counted}

abbrev a_bus : Bus
a_bus = record { raw = 1 }

abbrev a_dest : BusName
a_dest = record { inner = c_codes "a.b" }

-- The program holds its only handle of bus 1.
abbrev one_bus : Program World
one_bus = record {
  world = record empty_world { counts = λ o. owned o (bus 1 ∷ []) };
  handles = bus 1 ∷ [];
}

abbrev cloned : Program World
cloned = record {
  world = (clone_bus test_lib a_bus one_bus.world).1;
  handles = bus (clone_bus test_lib a_bus one_bus.world).0.raw ∷ bus 1 ∷ [];
}

abbrev nobody : Object → ℕ
nobody o = 0

one_bus-Balanced : Balanced test_lib counted nobody one_bus
one_bus-Balanced o = omega arith

one_clone : Reach test_lib counted one_bus cloned
one_clone = next here (clone_a_bus one_bus.world [] [] a_bus)

Reach-Balanced_example : Balanced test_lib counted nobody cloned
Reach-Balanced_example = Reach-Balanced test_lib counted nobody one_bus-Balanced one_clone

-- The program opens the bus, calls a method, gets the reply, and drops all three handles.
abbrev nothing_held : Program World
nothing_held = record { world = empty_world; handles = [] }

abbrev opened : Machine World
opened = (default_bus test_lib start).1

abbrev made : Machine World
made = (new_method_call test_lib 1 a_dest a_path an_interface a_member opened).1

abbrev answer : Machine World
answer = (call_method test_lib 7 test_errors 100 made).1

abbrev all_held : Program World
all_held = record { world = answer.world; handles = message 8 ∷ message 7 ∷ bus 1 ∷ [] }

made-IsAnswered : IsAnswered (answered test_lib test_errors 7 100 made)
unfolding RawError.new
made-IsAnswered = record { on_failure = λ n e. cc; on_success = λ n e. (refl, (8, refl)) }

one_call : Reach test_lib counted nothing_held all_held
unfolding default_bus new_method_call call_method
one_call =
    next
      (next (next here (open_default start []))
        (make_call opened (bus 1 ∷ []) 1 a_dest a_path an_interface a_member))
      (get_reply made (message 7 ∷ bus 1 ∷ []) 7 100 test_errors made-IsAnswered)

nothing_held-Balanced : Balanced test_lib counted nobody nothing_held
unfolding owned
nothing_held-Balanced o = refl

held_is_alive_example : 0 < all_held.world.counts (message 7)
held_is_alive_example =
    held_is_alive test_lib counted nobody nothing_held-Balanced one_call (message 8 ∷ [])
      (bus 1 ∷ []) (message 7) refl

abbrev no_reply : World
no_reply = drop_message test_lib (record { raw = 8 }) answer.world

abbrev no_call : World
no_call = drop_message test_lib (record { raw = 7 }) no_reply

abbrev all_dropped : Program World
all_dropped = record { world = drop_bus test_lib a_bus no_call; handles = [] }

three_drops : Reach test_lib counted nothing_held all_dropped
three_drops =
    next
      (next
        (next one_call
          (drop_a_message answer.world [] (message 7 ∷ bus 1 ∷ []) (record { raw = 8 })))
        (drop_a_message no_reply [] (bus 1 ∷ []) (record { raw = 7 })))
      (drop_a_bus no_call [] [] a_bus)

sends : (send test_lib 7 start).0 ≡ returns 9
unfolding send
sends = refl
