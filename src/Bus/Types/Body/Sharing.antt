-- ===== src/Bus/Types/Body/Sharing.antt =====
-- Two handles of one message of src/bus/mod.rs: what each of them reads.
use rust_systemd.Base.{ℕ, List, ◌∷◌, ◌≡◌, some, sym, subst, ◌∙◌}
use rust_systemd.Ffi.{Machine, returns}
use rust_systemd.Ffi.Heap.{Memory}
use rust_systemd.Bus.Handles.{iter_at}
use rust_systemd.Bus.SdBus.{SdBus, Basic}
use rust_systemd.Bus.Handles.{Message, clone_message}
use rust_systemd.Bus.Message.{iter}
use rust_systemd.Bus.Types.Stores.{Stores}
use rust_systemd.Bus.Types.Body.{Value, kind_of, arrives, IsSendable, code_of, field, next_value}
use rust_systemd.Bus.Types.Body.Fifo.{next_value_lem}
use rust_systemd.Bus.Types.Body.Peeking.{Peeks, iter_one}

-- sd_bus_message_ref(3) gives its argument and leaves the read pointer where it is.
pub record RefShares {W : Type 0} (lib : SdBus W) (stores : Stores lib) : Type 0 where
  pub same_message : (p : ℕ) (w : W) → (lib.sd_bus_message_ref p w).0 ≡ p
  pub same_unread :
      (p : ℕ) (w : W) → stores.unread p (lib.sd_bus_message_ref p w).1 ≡ stores.unread p w

-- Both messages hand out an iterator, the second while the first is in use; then the first is asked for
-- `u` and the second for `v`, and each gives it.
abbrev pub Interleaved : {W : Type 0} → SdBus W → ℕ → ℕ → Value → Value → Machine W → Type 0
Interleaved lib p q u v s =
    let both = (iter lib q (iter lib p s).1).1 in
    ((iter lib p s).0 ≡ returns (iter_at p))
    × ((iter lib q (iter lib p s).1).0 ≡ returns (iter_at q))
    × ((next_value lib p (kind_of u) both).0 ≡ returns (some (arrives u)))
    × ((next_value lib q (kind_of v) (next_value lib p (kind_of u) both).1).0
        ≡ returns (some (arrives v)))

module _ {W : Type 0} (lib : SdBus W) (stores : Stores lib) (peeks : Peeks lib stores) (u v : Value)
    (rest : List (ℕ × Basic)) (hu : IsSendable u) (hv : IsSendable v) where
  open stores use {unread}

  one_message :
      (p : ℕ) (s : Machine W)
      → unread p s.world ≡ field u ∷ field v ∷ rest
      → Interleaved lib p p u v s
  one_message p s h =
      let (it, there) = iter_one lib stores peeks p (code_of (kind_of u)) _ (field v ∷ rest) s h in
      let (it', there') =
        iter_one lib stores peeks p (code_of (kind_of u)) _ (field v ∷ rest) (iter lib p s).1
          there in
      let both = (iter lib p (iter lib p s).1).1 in
      let (given, left) = next_value_lem lib stores p u (field v ∷ rest) both hu there' in
      let (given', _) =
        next_value_lem lib stores p v rest (next_value lib p (kind_of u) both).1 hv left in
      (it, it', given, given')

  module _ (shares : RefShares lib stores) (m : Message) (memory : Memory) (w : W) where
    -- A message and its clone both hand out an iterator while the other one is in use, and the two share
    -- one read pointer: of the values that stand next, the iterator of the message gives the first and
    -- the iterator of its clone the second, not the first again. This holds of texts and paths whose
    -- slices end with their only '\0', where C peeks, reads one value at a time and counts a reference
    -- without moving the read pointer.
    pub clones_share_reading :
        unread m.raw w ≡ field u ∷ field v ∷ rest
        → Interleaved lib m.raw
            (clone_message lib m w).0.raw
            u
            v
            (record { memory = memory; world = (clone_message lib m w).1 })
    unfolding clone_message
    clones_share_reading h =
        let s : Machine W = record {
          memory = memory;
          world = (lib.sd_bus_message_ref m.raw w).1;
        } in
        subst (λ q. Interleaved lib m.raw q u v s) (sym (shares.same_message m.raw w))
          (one_message m.raw s (shares.same_unread m.raw w ∙ h))
