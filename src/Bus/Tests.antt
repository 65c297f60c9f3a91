-- ===== src/Bus/Tests.antt =====
-- An sd-bus that keeps one message, its body and its counts, on which the theorems on src/bus are tried.
mod Handles
mod Values
mod Sharing
mod Errors
mod Relay
mod Messages
mod Ownership
use rust_systemd.Base.{
  inl, Bytes, ◌&&◌, Option, some, refl, ◌≡◌, ◌≢◌, ℕ, ◌<◌, ◌+◌, ◌-◌, List, [], ◌∷◌, ◌++◌, ◌≡◌, ◌⊎◌,
  codes, c_codes, refl, none, some, Lacks, arith, Bool, true, false, not, same_bytes,
  same_bytes_refl, eqb_refl, if◌then◌else◌, ◌==◌, err, ok,
}
use rust_systemd.Base.Int.{ℤ, pos, negsuc}
use rust_systemd.Ffi.{Machine, returns}
use rust_systemd.Ffi.Heap.{Memory, view}
use rust_systemd.Names.BusName.{BusName}
use rust_systemd.Names.ObjectPath.{ObjectPath}
use rust_systemd.Bus.Library.{SdBusError, SdError, Utf8CStr, IsUtf8CStr, text_of}
use rust_systemd.Bus.RawError
use rust_systemd.Bus.RawError.{RawError}
use rust_systemd.Bus.Error
use rust_systemd.Bus.Error.{Error}
use rust_systemd.Bus.Error.Laws.{CopiesStrings, new_without_message, new_with_message}
use rust_systemd.Bus.SdBus.{SdBus, Basic, bits}
use rust_systemd.Bus.Handles.{Bus, clone_bus, drop_bus}
use rust_systemd.Bus.Handles.Owned.{Object, bus, message, owned, same, Counted}
use rust_systemd.Bus.Message.{Callback, raw_message_handler, call_method, replied, failed, send}
use rust_systemd.Bus.Message.Call.{IsAnswered, answered, raw_message_handler_lem, call_method_lem}
use rust_systemd.Bus.Message.Sealing.{Seals, Refused, send-Refused}
use rust_systemd.Bus.Types.{
  Number, u32, UnixFd, Utf8Text, append, number_to, number_from, bool_to, bool_from, unix_fd_to,
  unix_fd_from, utf8_to, utf8_from, object_path_to, object_path_from,
}
use rust_systemd.Bus.Types.Stores.{Stores, WireType, character}
use rust_systemd.Bus.Types.Body.Peeking.{Peeks}
use rust_systemd.Bus.Types.Body.Reader.{PeeksEnd}
use rust_systemd.Bus.Types.Body.Sent.{LeavesSealed}
use rust_systemd.Names.CStr.{up_to_nul}
use rust_systemd.Ffi.Heap.{CArg, at}

record World : Type 0 where
  sealed : Bool
  body : List (ℕ × Basic)
  cursor : List (ℕ × Basic)
  counts : Object → ℕ

abbrev unless_sealed : World → World → ℤ × World
unless_sealed w w' = if w.sealed then (negsuc 0, w) else (pos 0, w')

abbrev seal : World → World
seal w = record w { sealed = true }

abbrev read_next : ℕ → World → (ℤ × Basic) × World
read_next t w = elim w.cursor [
  | [] ↦ ((pos 0, bits 4 0), w)
  | (t', v) ∷ rest ↦
      (if t == t' then ((pos 1, v), record w { cursor = rest }) else ((negsuc 5, bits 4 0), w))
]

abbrev peek_next : World → (ℤ × (ℕ × Option Bytes)) × World
peek_next w = elim w.cursor [
  | [] ↦ ((pos 0, (0, none)), w)
  | (t, v) ∷ rest ↦ ((pos 1, (t, none)), w)
]

abbrev count_up : Object → World → World
count_up o w = record w { counts = λ x. w.counts x + (if same x o then 1 else 0) }

abbrev count_down : Object → World → World
count_down o w = record w { counts = λ x. w.counts x - (if same x o then 1 else 0) }

abbrev test_lib : SdBus World
test_lib = record {
  sd_bus_default = λ w. ((pos 0, 1), count_up (bus 1) w);
  sd_bus_default_user = λ w. ((pos 0, 1), count_up (bus 1) w);
  sd_bus_default_system = λ w. ((pos 0, 1), count_up (bus 1) w);
  sd_bus_ref = λ p w. (p, count_up (bus p) w);
  sd_bus_unref = λ p w. (tt, count_down (bus p) w);
  sd_bus_get_events = λ p w. (pos 1, w);
  sd_bus_get_timeout = λ p w. ((pos 1, 5), w);
  sd_bus_get_fd = λ p w. (pos 4, w);
  sd_bus_get_unique_name = λ p w. ((pos 0, c_codes ":1.5"), w);
  sd_bus_message_new_signal = λ p a b c w. ((pos 0, 7), count_up (message 7) w);
  sd_bus_message_new_method_call = λ p a b c d w. ((pos 0, 7), count_up (message 7) w);
  sd_bus_message_new_method_error = λ p e w. ((pos 0, 7), count_up (message 7) w);
  sd_bus_message_new_method_return = λ p w. ((pos 0, 7), count_up (message 7) w);
  sd_bus_request_name = λ p a f w. (pos 1, w);
  sd_bus_release_name = λ p a w. (pos 0, w);
  sd_bus_add_object_manager = λ p a w. (pos 0, w);
  sd_bus_message_ref = λ p w. (p, count_up (message p) w);
  sd_bus_message_unref = λ p w. (tt, count_down (message p) w);
  sd_bus_message_get_bus = λ p w. (1, w);
  sd_bus_message_set_destination = λ p d w. unless_sealed w w;
  sd_bus_message_set_auto_start = λ p b w. unless_sealed w w;
  sd_bus_send = λ p c w. ((pos 1, 9), seal w);
  sd_bus_send_to = λ p d c w. ((pos 1, 9), seal w);
  sd_bus_call = λ p usec e m w. record {
    ret = pos 1;
    error = e;
    reply = some 8;
    memory = m;
    world = count_up (message 8) w;
  };
  sd_bus_call_async = λ p cb usec w. (pos 1, w);
  sd_bus_add_object = λ p a cb w. (pos 1, w);
  sd_bus_message_append_basic =
      λ p t v w. unless_sealed w (record w { body = w.body ++ (t, v) ∷ [] });
  sd_bus_message_read_basic = λ p t w. read_next t w;
  sd_bus_message_peek_type = λ p w. peek_next w;
}

abbrev empty_world : World
empty_world = record { sealed = false; body = []; cursor = []; counts = λ o. 0 }

abbrev start : Machine World
start = record { memory = record { next = 1; live = [] }; world = empty_world }

-- A reader's state at the start of a message.
abbrev reader : List (ℕ × Basic) → Machine World
reader b = record {
  memory = record { next = 1; live = [] };
  world = record empty_world { cursor = b };
}

abbrev seals : Seals test_lib
seals = record {
  is_sealed = λ p w. w.sealed;
  send_seals = λ p c w n e. refl;
  send_to_seals = λ p d c w n e. refl;
  append_refuses = λ p t v w e. rw e refl;
  destination_refuses = λ p d w e. rw e refl;
  auto_start_refuses = λ p b w e. rw e refl;
}

eqb_ne : (t u : ℕ) → t ≢ u → (t == u) ≡ false
eqb_ne t u ne = ground arith

not_sealed : (b : Bool) → not b ≡ true → b ≡ false
not_sealed true e = cc
not_sealed false e = refl

character-ne : (t u : WireType) → t ≢ u → (character t == character u) ≡ false
unfolding character
character-ne t u ne = ground arith

abbrev stores : Stores test_lib
stores = record {
  is_open = λ p w. not w.sealed;
  contents = λ p w. w.body;
  unread = λ p w. w.cursor;
  appends =
      λ p t v w holds e. let f = not_sealed w.sealed e in (0, rw f refl, rw f refl, rw f refl);
  reads =
      λ p t v rest w e. (rw (e, eqb_refl (character t)) refl, rw (e, eqb_refl (character t)) refl);
  mismatch =
      λ p t u v rest w e ne. (rw (e, character-ne t u ne) refl, rw (e, character-ne t u ne) refl);
  at_end = λ p t w e. (inl (rw e refl), rw e refl);
}

peeks : Peeks test_lib stores
peeks m t v rest w e = (0, rw e refl, rw e refl)

peeks_end : PeeksEnd test_lib stores
peeks_end m w e = rw e refl

open_same : (w : World) → (unless_sealed w w).1 ≡ w
open_same w = ground arith

leaves : LeavesSealed test_lib stores seals
leaves = record {
  append_leaves = λ m t v w e. (rw e refl, λ s. rw e refl);
  destination_leaves = λ m d w. (rw (open_same w) refl, λ s. rw (open_same w) s);
  auto_start_leaves = λ m b w. (rw (open_same w) refl, λ s. rw (open_same w) s);
  send_leaves = λ m c w. (refl, λ s. refl);
  send_to_leaves = λ m d c w. (refl, λ s. refl);
  call_async_leaves = λ m cb usec w. (refl, λ s. s);
  call_leaves = λ m usec e h w. (refl, λ s. s);
}

same_reply :
    (p : ℕ) (w : World) (o : Object)
    → some 8 ≡ some p
    → w.counts o + (if same o (message 8) then 1 else 0)
      ≡ w.counts o + (if same o (message p) then 1 else 0)
same_reply p w o r = cc

no_failure : (n : ℕ) → ¬ (pos 1 ≡ negsuc n)
no_failure n h = cc

abbrev counted : Counted test_lib
counted = record {
  count = λ w o. w.counts o;
  ref_same = λ p w. refl;
  ref_counts = λ p w o. refl;
  unref_counts = λ p w o. refl;
  message_ref_same = λ p w. refl;
  message_ref_counts = λ p w o. refl;
  message_unref_counts = λ p w o. refl;
  opens = λ w o. refl;
  opens_user = λ w o. refl;
  opens_system = λ w o. refl;
  makes_signal = λ b x y z w o. refl;
  makes_call = λ b d x y z w o. refl;
  makes_error = λ m e w o. refl;
  makes_return = λ m w o. refl;
  replies = λ m usec p e h w o r. same_reply p w o r;
  gives_no_reply = λ m usec n e h w o r. absurd (no_failure n r);
}
