-- ===== src/Bus/Types/Body/Peeking.antt =====
-- `iter`, `peek_type` and `next` of src/bus/mod.rs one behind the other.
use rust_systemd.Base.{ℕ, suc, List, [], ◌∷◌, none, some, ◌≡◌, refl}
use rust_systemd.Base.Int.{pos}
use rust_systemd.Ffi.{Machine, returns}
use rust_systemd.Bus.Handles.{iter_at}
use rust_systemd.Bus.SdBus.{SdBus, Basic}
use rust_systemd.Bus.Message.{iter, peek_type}
use rust_systemd.Bus.Types.Stores.{Stores}
use rust_systemd.Bus.Types.Body.{Value, kind_of, arrives, IsSendable, code_of, field, next_value}
use rust_systemd.Bus.Types.Body.Fifo.{next_value_lem}

-- sd_bus_message_peek_type(3): a positive number and the type that stands next, without contents as that
-- is a basic one, and nothing is taken.
abbrev pub Peeks : {W : Type 0} (lib : SdBus W) → Stores lib → Type 0
Peeks {W} lib stores =
    (m t : ℕ) (v : Basic) (rest : List (ℕ × Basic)) (w : W)
    → stores.unread m w ≡ (t, v) ∷ rest
    → (n : ℕ) × ((lib.sd_bus_message_peek_type m w).0 ≡ (pos (suc n), (t, none)))
      × (stores.unread m (lib.sd_bus_message_peek_type m w).1 ≡ (t, v) ∷ rest)

module _ {W : Type 0} (lib : SdBus W) (stores : Stores lib) (peeks : Peeks lib stores)
    (self : ℕ) where
  open stores use {unread}

  module _ (t : ℕ) (v : Basic) (rest : List (ℕ × Basic)) (r : Machine W)
      (h : unread self r.world ≡ (t, v) ∷ rest) where
    pub peek_one :
        ((peek_type lib (iter_at self) r).0 ≡ returns (t, []))
        × (unread self (peek_type lib (iter_at self) r).1.world ≡ (t, v) ∷ rest)
    unfolding peek_type
    peek_one =
        let (n, answer, kept) = peeks self t v rest r.world h in (rw answer refl, rw answer kept)

    pub iter_one :
        ((iter lib self r).0 ≡ returns (iter_at self))
        × (unread self (iter lib self r).1.world ≡ (t, v) ∷ rest)
    unfolding iter
    iter_one =
        let (n, answer, kept) = peeks self t v rest r.world h in (rw answer refl, rw answer kept)

  -- Before the value that stands next is read, `iter` gives an iterator of the message and `peek_type` the
  -- type of the value, and both leave it there: `next` by that type then gives it, and takes it. This holds
  -- where C peeks, and reads one value at a time, as documented.
  pub peeked_then_read :
      (v : Value) (rest : List (ℕ × Basic)) (r : Machine W)
      → IsSendable v
      → unread self r.world ≡ field v ∷ rest
      → ((iter lib self r).0 ≡ returns (iter_at self))
        × ((peek_type lib (iter_at self) (iter lib self r).1).0 ≡ returns (code_of (kind_of v), []))
        × ((next_value lib self (kind_of v) (peek_type lib (iter_at self) (iter lib self r).1).1).0
            ≡ returns (some (arrives v)))
        × (unread self
              (next_value lib self
                (kind_of v)
                (peek_type lib (iter_at self) (iter lib self r).1).1).1.world
            ≡ rest)
  peeked_then_read v rest r sendable h =
      let (it, there) = iter_one (code_of (kind_of v)) _ rest r h in
      let (type, still) = peek_one (code_of (kind_of v)) _ rest (iter lib self r).1 there in
      let (given, left) =
        next_value_lem lib stores self v rest (peek_type lib (iter_at self) (iter lib self r).1).1
          sendable still in
      (it, type, given, left)
