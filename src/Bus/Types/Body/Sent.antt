-- ===== src/Bus/Types/Body/Sent.antt =====
-- A message of src/bus that was sent, and what is done with it after that.
use rust_systemd.Base.{ℕ, List, [], ◌++◌, Bool, true, false, some, ◌≡◌, refl, ap, ◌∙◌, All, map}
use rust_systemd.Base.Int.{ℤ, bool_c_int}
use rust_systemd.Ffi.{Machine, Outcome, returns}
use rust_systemd.Ffi.Heap.{CArg, Memory, at}
use rust_systemd.Names.BusName.{BusName}
use rust_systemd.Bus.Library.{SdBusError, SdError}
use rust_systemd.Bus.SdBus.{SdBus, Basic}
use rust_systemd.Bus.Message.{
  set_destination, set_auto_start, send, send_no_reply, send_to, send_to_no_reply, call_async,
  call_method,
}
use rust_systemd.Bus.Message.Sealing.{Seals, Refused, sealed-Refused, send-sealed}
use rust_systemd.Bus.Message.Worlds.{
  append_basic_raw-world, set_destination-world, set_auto_start-world, send-world,
  send_no_reply-world, send_to-world, send_to_no_reply-world, call_async-world, call_method-world,
}
use rust_systemd.Bus.RawError
use rust_systemd.Bus.Types.Stores.{Stores}
use rust_systemd.Bus.Types.Body.{
  Value, kind_of, arrives, IsSendable, IsValidValue, field, append_value, append_all, next_all,
  code_of, basic_of,
}
use rust_systemd.Bus.Types.Body.Fifo.{append_all_lem, append_value-append_basic_raw}
use rust_systemd.Bus.Types.Body.Delivery.{next_all_lem}

-- A C function leaves the body of a message as it is, and a sealed message sealed.
abbrev pub Leaves : {W : Type 0} (lib : SdBus W) → Stores lib → Seals lib → ℕ → W → W → Type 0
Leaves lib stores seals m w w' =
    (stores.contents m w' ≡ stores.contents m w)
    × (seals.is_sealed m w ≡ true → seals.is_sealed m w' ≡ true)

-- Sending a message, and a change that a sealed message refuses, leave it as it is.
pub record LeavesSealed {W : Type 0} (lib : SdBus W) (stores : Stores lib) (seals : Seals lib)
    : Type 0 where
  pub append_leaves :
      (m t : ℕ) (v : Basic) (w : W)
      → seals.is_sealed m w ≡ true
      → Leaves lib stores seals m w (lib.sd_bus_message_append_basic m t v w).1
  pub destination_leaves :
      (m : ℕ) (d : CArg) (w : W)
      → Leaves lib stores seals m w (lib.sd_bus_message_set_destination m d w).1
  pub auto_start_leaves :
      (m : ℕ) (b : ℤ) (w : W)
      → Leaves lib stores seals m w (lib.sd_bus_message_set_auto_start m b w).1
  pub send_leaves :
      (m : ℕ) (c : Bool) (w : W) → Leaves lib stores seals m w (lib.sd_bus_send m c w).1
  pub send_to_leaves :
      (m : ℕ) (d : CArg) (c : Bool) (w : W)
      → Leaves lib stores seals m w (lib.sd_bus_send_to m d c w).1
  pub call_async_leaves :
      (m cb usec : ℕ) (w : W) → Leaves lib stores seals m w (lib.sd_bus_call_async m cb usec w).1
  pub call_leaves :
      (m usec : ℕ) (e : SdBusError) (h : Memory) (w : W)
      → Leaves lib stores seals m w (lib.sd_bus_call m usec e h w).world

module _ {W : Type 0} (lib : SdBus W) (self : ℕ) (s : Machine W) where
  -- What a program does with the message, one operation after another, whatever each gives.
  pub data Later : Machine W → Type 0 where
    at_once : Later s
    appended : {t : Machine W} → Later t → (v : Value) → Later (append_value lib self v t).1
    redirected : {t : Machine W} → Later t → (d : BusName) → Later (set_destination lib self d t).1
    flagged : {t : Machine W} → Later t → (on : Bool) → Later (set_auto_start lib self on t).1
    sent : {t : Machine W} → Later t → Later (send lib self t).1
    sent_no_reply : {t : Machine W} → Later t → Later (send_no_reply lib self t).1
    sent_to : {t : Machine W} → Later t → (d : BusName) → Later (send_to lib self d t).1
    sent_to_no_reply :
        {t : Machine W} → Later t → (d : BusName) → Later (send_to_no_reply lib self d t).1
    called_async :
        {t : Machine W} → Later t → (cb usec : ℕ) → Later (call_async lib self cb usec t).1
    called :
        {t : Machine W}
        → Later t
        → (errors : SdError) (usec : ℕ) → Later (call_method lib self errors usec t).1

module _ {W : Type 0} (lib : SdBus W) (stores : Stores lib) (seals : Seals lib)
    (leaves : LeavesSealed lib stores seals) (self : ℕ) where
  open stores use {is_open, contents, unread}

  -- What the message is from `s` on.
  abbrev IsFinal : Machine W → Machine W → Type 0
  IsFinal s t =
      (contents self t.world ≡ contents self s.world) × (seals.is_sealed self t.world ≡ true)

  still :
      (s t : Machine W) {w w' : W}
      → w' ≡ w
      → Leaves lib stores seals self t.world w
      → IsFinal s t
      → (contents self w' ≡ contents self s.world) × (seals.is_sealed self w' ≡ true)
  still s t e (same, kept) (body, sealed) =
      (ap (contents self) e ∙ same ∙ body, ap (seals.is_sealed self) e ∙ kept sealed)

  Later-IsFinal :
      {s t : Machine W} → seals.is_sealed self s.world ≡ true → Later lib self s t → IsFinal s t
  unfolding call_method
  Later-IsFinal {s} h at_once = (refl, h)
  Later-IsFinal {s} h (appended {t} l v) =
      let before = Later-IsFinal h l in
      still s t
        (ap (λ (f : Machine W → Outcome (Unit {0}) × Machine W). (f t).1.world)
            (append_value-append_basic_raw lib self v)
          ∙ append_basic_raw-world lib self t (code_of (kind_of v)) (basic_of v))
        (leaves.append_leaves self (code_of (kind_of v)) (basic_of v) t.world before.1) before
  Later-IsFinal {s} h (redirected {t} l d) =
      still s t (set_destination-world lib self t d)
        (leaves.destination_leaves self (at d.inner) t.world) (Later-IsFinal h l)
  Later-IsFinal {s} h (flagged {t} l on) =
      still s t (set_auto_start-world lib self t on)
        (leaves.auto_start_leaves self (bool_c_int on) t.world) (Later-IsFinal h l)
  Later-IsFinal {s} h (sent {t} l) =
      still s t (send-world lib self t) (leaves.send_leaves self true t.world) (Later-IsFinal h l)
  Later-IsFinal {s} h (sent_no_reply {t} l) =
      still s t (send_no_reply-world lib self t) (leaves.send_leaves self false t.world)
        (Later-IsFinal h l)
  Later-IsFinal {s} h (sent_to {t} l d) =
      still s t (send_to-world lib self t d) (leaves.send_to_leaves self (at d.inner) true t.world)
        (Later-IsFinal h l)
  Later-IsFinal {s} h (sent_to_no_reply {t} l d) =
      still s t (send_to_no_reply-world lib self t d)
        (leaves.send_to_leaves self (at d.inner) false t.world) (Later-IsFinal h l)
  Later-IsFinal {s} h (called_async {t} l cb usec) =
      still s t (call_async-world lib self t cb usec)
        (leaves.call_async_leaves self cb usec t.world) (Later-IsFinal h l)
  Later-IsFinal {s} h (called {t} l errors usec) =
      still s t (call_method-world lib self t usec errors)
        (leaves.call_leaves self usec RawError.new.inner t.memory t.world) (Later-IsFinal h l)

  -- Once `send` gave a cookie for a message, it is what it was, however it is appended to, changed, sent or
  -- called after that, by operations that fail or not: a value cannot be appended and neither the
  -- destination nor the auto-start flag can be changed, each answers EPERM, and a reader is given the
  -- values that were appended before, in their order, but for the '\0' that a path loses. This holds of an
  -- open, empty message, of texts and paths whose slices end with their only '\0', of paths of the
  -- specification and texts in UTF-8, where the message arrives as it stands, C appends and reads one value
  -- at a time and seals what it sends, and sealed messages are left as they are.
  pub sent_is_final :
      (vs : List Value) (c code : ℕ) (x : Basic) (d : BusName) (on : Bool) (s t r : Machine W)
      → is_open self s.world ≡ true
      → contents self s.world ≡ []
      → All IsSendable vs
      → All IsValidValue vs
      → (send lib self (append_all lib self vs s).1).0 ≡ returns c
      → Later lib self (send lib self (append_all lib self vs s).1).1 t
      → unread self r.world ≡ contents self t.world
      → Refused lib seals self t code x d on
        × ((next_all lib self (map kind_of vs) r).0 ≡ returns (map (λ v. some (arrives v)) vs))
        × (unread self (next_all lib self (map kind_of vs) r).1.world ≡ [])
  sent_is_final vs c code x d on s t r o empty sendable valid gave later arrived =
      let written = (append_all lib self vs s).1 in
      let (taken, grown) = append_all_lem lib stores self vs s sendable valid o in
      let (same, sealed) = Later-IsFinal (send-sealed lib seals self written c gave) later in
      let unsent =
        ap (contents self) (send-world lib self written)
        ∙ (leaves.send_leaves self true written.world).0 in
      let (given, none_left) = next_all_lem lib stores self vs r sendable (
        arrived
        ∙ same
        ∙ unsent
        ∙ grown
        ∙ ap {B = List (ℕ × Basic)} (λ (b : List (ℕ × Basic)). b ++ map field vs) empty) in
      (sealed-Refused lib seals self t code x d on sealed, given, none_left)
