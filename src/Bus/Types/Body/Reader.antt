-- ===== src/Bus/Types/Body/Reader.antt =====
-- A reader of messages of src/bus that is not told the types: it asks `peek_type` before each `next`.
use rust_systemd.Base.{
  ℕ, zero, suc, ◌<◌, ◌==◌, List, [], ◌∷◌, ◌++◌, true, Option, none, some, ◌≡◌, refl, ap, ◌∙◌, arith,
  All, map, length, if◌then◌else◌,
}
use rust_systemd.Base.Int.{pos}
use rust_systemd.Ffi.{Eff, Machine, returns, pure, ◌>>=◌}
use rust_systemd.Bus.Handles.{iter_at}
use rust_systemd.Bus.SdBus.{SdBus, Basic}
use rust_systemd.Bus.Message.{peek_type}
use rust_systemd.Bus.Types.{u8, i16, u16, i32, u32, i64, u64, f64}
use rust_systemd.Bus.Types.Stores.{Stores, character}
use rust_systemd.Bus.Types.Body.{
  Kind, number_kind, bool_kind, path_kind, text_kind, Value, kind_of, arrives, IsSendable,
  IsValidValue, wire_type_of, code_of, field, next_value, append_all,
}
use rust_systemd.Bus.Types.Body.Fifo.{append_all_lem, next_value_lem}
use rust_systemd.Bus.Types.Body.Peeking.{Peeks, peek_one}

-- The kind that a type character stands for, of those that src/bus/types.rs reads.
kind_from : ℕ → Option Kind
kind_from t =
    if t == b'y'
    then some (number_kind u8)
    else if t == b'n'
    then some (number_kind i16)
    else if t == b'q'
    then some (number_kind u16)
    else if t == b'i'
    then some (number_kind i32)
    else if t == b'u'
    then some (number_kind u32)
    else if t == b'x'
    then some (number_kind i64)
    else if t == b't'
    then some (number_kind u64)
    else if t == b'd'
    then some (number_kind f64)
    else if t == b'b'
    then some bool_kind
    else if t == b'o'
    then some path_kind
    else if t == b's'
    then some text_kind
    else none

kind_from-code_of : (k : Kind) → kind_from (code_of k) ≡ some k
unfolding kind_from code_of wire_type_of character
kind_from-code_of (number_kind u8) = refl
kind_from-code_of (number_kind i16) = refl
kind_from-code_of (number_kind u16) = refl
kind_from-code_of (number_kind i32) = refl
kind_from-code_of (number_kind u32) = refl
kind_from-code_of (number_kind i64) = refl
kind_from-code_of (number_kind u64) = refl
kind_from-code_of (number_kind f64) = refl
kind_from-code_of bool_kind = refl
kind_from-code_of path_kind = refl
kind_from-code_of text_kind = refl

kind_from-end : kind_from 0 ≡ none
unfolding kind_from
kind_from-end = refl

-- sd_bus_message_peek_type(3) at the end: 0, no type, and nothing is taken.
abbrev pub PeeksEnd : {W : Type 0} (lib : SdBus W) → Stores lib → Type 0
PeeksEnd {W} lib stores =
    (m : ℕ) (w : W)
    → stores.unread m w ≡ []
    → (lib.sd_bus_message_peek_type m w).0 ≡ (pos 0, (0, none))

abbrev prepend : Option Value → Option (List Value) → Option (List Value)
prepend (some v) (some vs) = some (v ∷ vs)
prepend _ _ = none

module _ {W : Type 0} (lib : SdBus W) (self : ℕ) where
  -- `none` if the fuel runs out.
  pub read_message : ℕ → Eff W (Option (List Value))
  unfolding ◌>>=◌
  read_message zero = pure none
  read_message (suc fuel) = do
    (t, _) ← peek_type lib (iter_at self)
    elim (kind_from t) [
      | none ↦ pure (some [])
      | some k ↦ (do v ← next_value lib self k; vs ← read_message fuel; pure (prepend v vs))
    ]

module _ {W : Type 0} (lib : SdBus W) (stores : Stores lib) (peeks : Peeks lib stores)
    (ends : PeeksEnd lib stores) (self : ℕ) where
  open stores use {is_open, contents, unread}

  peek_end :
      (r : Machine W)
      → unread self r.world ≡ []
      → (peek_type lib (iter_at self) r).0 ≡ returns (0, [])
  unfolding peek_type
  peek_end r h = rw (ends self r.world h) refl

  read_stop :
      (fuel : ℕ) (r : Machine W) (t : ℕ)
      → (peek_type lib (iter_at self) r).0 ≡ returns (t, [])
      → kind_from t ≡ none
      → (read_message lib self (suc fuel) r).0 ≡ returns (some [])
  unfolding read_message
  read_stop fuel r t type over = rw type cc

  read_go :
      (fuel : ℕ) (r : Machine W) (t : ℕ) (k : Kind) (v : Value) (vs : List Value)
      → (peek_type lib (iter_at self) r).0 ≡ returns (t, [])
      → kind_from t ≡ some k
      → (next_value lib self k (peek_type lib (iter_at self) r).1).0 ≡ returns (some v)
      → (read_message lib self fuel (next_value lib self k (peek_type lib (iter_at self) r).1).1).0
        ≡ returns (some vs)
      → (read_message lib self (suc fuel) r).0 ≡ returns (some (v ∷ vs))
  unfolding read_message
  read_go fuel r t k v vs type kind given rest = rw type (ground arith)

  read_message_lem :
      (vs : List Value) (fuel : ℕ) (r : Machine W)
      → length vs < fuel
      → All IsSendable vs
      → unread self r.world ≡ map field vs
      → (read_message lib self fuel r).0 ≡ returns (some (map arrives vs))
  unfolding read_message
  read_message_lem vs zero r enough h e = absurd (omega arith)
  read_message_lem [] (suc fuel) r enough h e = read_stop fuel r 0 (peek_end r e) kind_from-end
  read_message_lem (v ∷ vs) (suc fuel) r enough (h, hs) e =
      let (type, still) =
        peek_one lib stores peeks self (code_of (kind_of v)) _ (map field vs) r e in
      let after = (peek_type lib (iter_at self) r).1 in
      let (given, left) = next_value_lem lib stores self v (map field vs) after h still in
      let rest =
        read_message_lem vs fuel (next_value lib self (kind_of v) after).1 (omega arith) hs left in
      read_go fuel r (code_of (kind_of v)) (kind_of v) (arrives v) (map arrives vs) type
        (kind_from-code_of (kind_of v)) given rest

  -- A reader that asks `peek_type` before each `next`, and knows no types, ends after one round more than
  -- there are values, and has read all that were appended to the open, empty message, of types in any
  -- order, but for the '\0' that a path loses. This holds of texts and paths whose slices end with their
  -- only '\0', of paths of the specification and texts in UTF-8, where the message arrives as it was
  -- written, and C appends, peeks and reads one value at a time.
  pub read_message-append_all :
      (vs : List Value) (fuel : ℕ) (s r : Machine W)
      → length vs < fuel
      → is_open self s.world ≡ true
      → contents self s.world ≡ []
      → All IsSendable vs
      → All IsValidValue vs
      → unread self r.world ≡ contents self (append_all lib self vs s).1.world
      → ((append_all lib self vs s).0 ≡ returns tt)
        × ((read_message lib self fuel r).0 ≡ returns (some (map arrives vs)))
  read_message-append_all vs fuel s r enough o empty h valid e =
      let (taken, grown) = append_all_lem lib stores self vs s h valid o in
      (
        taken,
        read_message_lem vs fuel r enough h (
            e
            ∙ grown
            ∙ ap {B = List (ℕ × Basic)} (λ (x : List (ℕ × Basic)). x ++ map field vs) empty),
      )
