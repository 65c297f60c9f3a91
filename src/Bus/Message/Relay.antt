-- ===== src/Bus/Message/Relay.antt =====
-- An `Error` on its way over the bus: from the handler that returned it, through `raw_message_handler`
-- and sd-bus, to `call` of another program, all of src/bus/mod.rs.
use rust_systemd.Base.{
  ℕ, ◌+◌, ◌≡◌, Option, none, some, [], ◌∷◌, ◌++◌, Bytes, codes, Lacks, err, length, refl,
}
use rust_systemd.Base.Int.{ℤ, pos, negsuc}
use rust_systemd.Ffi.{Machine}
use rust_systemd.Ffi.Heap.{Memory, view, at}
use rust_systemd.Bus.Library.{SdBusError, SdError, Utf8CStr, IsUtf8CStr, from_raw_parts, text_of}
use rust_systemd.Bus.RawError
use rust_systemd.Bus.RawError.{RawError}
use rust_systemd.Bus.Error
use rust_systemd.Bus.Error.{Error}
use rust_systemd.Bus.Error.Laws.{
  CopiesStrings, not_null, c_text-at, text_of-parts, description-message, description-no_message,
}
use rust_systemd.Bus.Error.Display.{display, display-some, display-none}
use rust_systemd.Bus.SdBus.{SdBus, CallAnswer}
use rust_systemd.Bus.Message.{Callback, handled, raw_message_handler, call_method, failed}
use rust_systemd.Bus.Message.Call.{answered}

-- The text behind a `const char *`; null shows none.
abbrev pub Shows : Memory → ℕ → Option Bytes → Type 0
Shows m p none = p ≡ 0
Shows m p (some b) = (view m p ≡ at (b ++ 0 ∷ [])) × Lacks 0 b

-- The texts that an error gives on a heap, and its print.
abbrev pub Tells : Memory → Error → Bytes → Option Bytes → Type 0
Tells m e n none =
    (text_of m (Error.name e) ≡ some n)
    × (Error.message e ≡ none)
    × (text_of m (Error.description e) ≡ some n)
    × (display e m ≡ some (codes "Dbus Error: " ++ n))
Tells m e n (some t) =
    (text_of m (Error.name e) ≡ some n)
    × ((z : Utf8CStr) × (Error.message e ≡ some z) × (text_of m z ≡ some t))
    × (text_of m (Error.description e) ≡ some t)
    × (display e m ≡ some (codes "Dbus Error: " ++ (n ++ (codes ": " ++ t))))

-- The optional message that is given to `Error::new`, and its text.
abbrev pub IsMessage : Memory → Option Utf8CStr → Option Bytes → Type 0
IsMessage m none none = Unit {0}
IsMessage m (some y) (some t) = IsUtf8CStr m y t
IsMessage m _ _ = ⊥

module _ (lib : SdError) (copies : CopiesStrings lib) (m : Memory) (x : Utf8CStr) (n : Bytes)
    (named : IsUtf8CStr m x n) where
  new-Shows :
      (y : Option Utf8CStr) (t : Option Bytes)
      → IsMessage m y t
      → Shows (Error.new lib x y m).1 (Error.new lib x y m).0.raw.inner.name (some n)
        × Shows (Error.new lib x y m).1 (Error.new lib x y m).0.raw.inner.message t
  unfolding Error.new
  new-Shows none none told =
      ((copies.copies_name x.ptr 0 m n named.stands, named.no_nul), copies.keeps_null x.ptr m)
  new-Shows (some y) (some t) told = (
    (copies.copies_name x.ptr y.ptr m n named.stands, named.no_nul),
    (copies.copies_message x.ptr y.ptr m t told.stands, told.no_nul),
  )
  new-Shows none (some t) told = absurd told
  new-Shows (some y) none told = absurd told

-- What `from_raw` makes of an error with these texts.
abbrev read_back : SdBusError → Bytes → Option Bytes → Error
read_back x n none = record { raw = record { inner = x }; name_len = length n + 1; message_len = 0 }
read_back x n (some t) = record {
  raw = record { inner = x };
  name_len = length n + 1;
  message_len = length t + 1;
}

module _ (errors : SdError) (x : SdBusError) (m : Memory) (n : Bytes)
    (named : Shows m x.name (some n)) where
  into_result-Shows :
      (t : Option Bytes)
      → Shows m x.message t
      → Error.into_result errors (record { inner = x }) m ≡ (some (err (read_back x n t)), m)
  unfolding Error.into_result RawError.is_set Error.from_raw
  into_result-Shows none told =
      let (there, lacks) = named in
      rw (not_null m x.name _ there, told, there, c_text-at n lacks) refl
  into_result-Shows (some t) (stands, no_nul) =
      let (there, lacks) = named in
      rw
        (
          not_null m x.name _ there,
          not_null m x.message _ stands,
          there,
          stands,
          c_text-at n lacks,
          c_text-at t no_nul,
        )
        refl

module _ (x : SdBusError) (m : Memory) (n : Bytes) (named : Shows m x.name (some n)) where
  read_back-Tells : (t : Option Bytes) → Shows m x.message t → Tells m (read_back x n t) n t
  unfolding Error.name Error.message
  read_back-Tells none told =
      let text = text_of-parts m x.name (length n) n named.0 refl in
      let unset : Error.message (read_back x n none) ≡ none = rw (told, Error.message) refl in
      (
        text,
        unset,
        rw (description-no_message _ unset) text,
        display-none (read_back x n none) m n unset text,
      )
  read_back-Tells (some t) (stands, no_nul) =
      let text = text_of-parts m x.message (length t) t stands refl in
      let z = from_raw_parts x.message (length t + 1) in
      let there = not_null m x.message _ stands in
      let has_message : Error.message (read_back x n (some t)) ≡ some z =
        rw (there, Error.message) refl in
      let named_text = text_of-parts m x.name (length n) n named.0 refl in
      (
        named_text,
        (z, has_message, text),
        rw (description-message _ z has_message) text,
        display-some (read_back x n (some t)) m z n t has_message named_text text,
      )

-- What sd-bus makes of an answer of a handler for the program that called: if the handler did not fail
-- and set an error, the call fails with an error of the same texts.
pub record IsRelayed {V W : Type 0} (h : (ℤ × SdBusError) × Machine V) (a : CallAnswer W)
    : Type 0 where
  pub relays_name :
      (k : ℕ) (b : Bytes)
      → h.0.0 ≡ pos k
      → Shows h.1.memory h.0.1.name (some b)
      → (j : ℕ) × (a.ret ≡ negsuc j) × Shows a.memory a.error.name (some b)
  pub relays_message :
      (k : ℕ) (b : Bytes) (t : Option Bytes)
      → h.0.0 ≡ pos k
      → Shows h.1.memory h.0.1.name (some b)
      → Shows h.1.memory h.0.1.message t
      → Shows a.memory a.error.message t

module _ {V : Type 0} (errors : SdError) (copies : CopiesStrings errors) (m : Memory) (x : Utf8CStr)
    (n : Bytes) (named : IsUtf8CStr m x n) (cb : Callback V) (msg : ℕ) (ret_error : SdBusError)
    (s : Machine V) where
  handler-Shows :
      (y : Option Utf8CStr) (t : Option Bytes)
      → IsMessage m y t
      → (cb msg s).0 ≡ err (Error.new errors x y m).0
      → (cb msg s).1.memory ≡ (Error.new errors x y m).1
      → ((raw_message_handler cb msg ret_error s).0.0 ≡ pos 0)
        × Shows
            (raw_message_handler cb msg ret_error s).1.memory
            (raw_message_handler cb msg ret_error s).0.1.name
            (some n)
        × Shows
            (raw_message_handler cb msg ret_error s).1.memory
            (raw_message_handler cb msg ret_error s).0.1.message
            t
  unfolding raw_message_handler handled Error.move_into
  handler-Shows y t told gave heap =
      let (name_there, message_there) = new-Shows errors copies m x n named y t told in
      rw (gave, heap) (refl, name_there, message_there)

  module _ {W : Type 0} (lib : SdBus W) (client : SdError) (self usec : ℕ) (c : Machine W) where
    -- A handler that returns a new error: the program that called it gets an error of the same name, the
    -- same message if it has one and the same description, and that prints as them, whatever `ret_error`
    -- was before; this holds where `sd_bus_error_set` copies its strings and sd-bus relays the error of a
    -- handler.
    pub relayed :
        (y : Option Utf8CStr) (t : Option Bytes)
        → IsMessage m y t
        → (cb msg s).0 ≡ err (Error.new errors x y m).0
        → (cb msg s).1.memory ≡ (Error.new errors x y m).1
        → IsRelayed (raw_message_handler cb msg ret_error s) (answered lib client self usec c)
        → (e : Error) × ((call_method lib self client usec c).0 ≡ failed e)
          × Tells (call_method lib self client usec c).1.memory e n t
    unfolding call_method
    relayed y t told gave heap relays =
        let (zero, name_there, message_there) = handler-Shows y t told gave heap in
        let (j, fails, name_here) = relays.relays_name 0 n zero name_there in
        let message_here = relays.relays_message 0 n t zero name_there message_there in
        let a = answered lib client self usec c in
        let result = into_result-Shows client a.error a.memory n name_here t message_here in
        (
          read_back a.error n t,
          rw (result, call_method) refl,
          rw (result, call_method) (read_back-Tells a.error a.memory n name_here t message_here),
        )
