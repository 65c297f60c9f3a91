-- ===== src/Bus/Handles.antt =====
-- `Bus`, `BusRef`, `Message` and `MessageRef` of src/bus/mod.rs as counted references.
pub mod Owned
pub mod Gains
pub mod Steps
pub mod Counts
use rust_systemd.Base.{
  ℕ, zero, suc, ◌+◌, ◌-◌, ◌*◌, ◌/◌, ◌%◌, ◌^◌, ◌≤◌, ◌<◌, ◌≡◌, ◌≢◌, ◌⊎◌, inl, inr, ◌↔◌, Bool, true,
  false, not, ◌&&◌, ◌||◌, Option, none, some, List, [], ◌∷◌, ◌++◌, arith, Bytes, ◌==◌, ltb,
  ltb-eq-false, if◌then◌else◌, All, Lacks, take, take-append, length, length-append, Result, ok,
  err, refl, c_codes, codes, ap, sym, subst, ◌∙◌, append_assoc, map,
}
use rust_systemd.Base.Int.{ℤ}
use rust_systemd.Ffi.{Eff, pure, lift, call, ffi_result, ◌>>=◌, ◌>>◌}
use rust_systemd.Bus.SdBus.{SdBus}

-- `Bus` and `Message` own one count of what they point to; `&BusRef` and `&MessageRef` own none, and
-- are the pointer itself.
pub record Bus : Type 0 where
  pub raw : ℕ

pub record Message : Type 0 where
  pub raw : ℕ

-- The address of the message; the lifetime in `life` is no part of the state.
pub record MessageIter : Type 0 where
  pub raw : ℕ

abbrev pub iter_as_mut_ptr : MessageIter → ℕ
iter_as_mut_ptr self = self.raw

-- The iterator of the message at an address.
abbrev pub iter_at : ℕ → MessageIter
iter_at p = record { raw = p }

-- `Message::take_ptr`: the count is already there.
unfoldable pub take_ptr : ℕ → Message
take_ptr p = record { raw = p }

-- A `&BusRef` and a `&MessageRef` are the address itself, which `transmute` goes to and from.
abbrev pub bus_as_ptr : Bus → ℕ
bus_as_ptr b = b.raw

abbrev pub bus_ref_from_ptr : ℕ → ℕ
bus_ref_from_ptr r = r

abbrev pub bus_ref_as_ptr : ℕ → ℕ
bus_ref_as_ptr self = self

-- `Borrow` and `BorrowMut`, and `Deref` and `DerefMut` by them.
abbrev pub bus_borrow : Bus → ℕ
bus_borrow b = bus_ref_from_ptr (bus_as_ptr b)

abbrev pub bus_deref : Bus → ℕ
bus_deref b = bus_borrow b

abbrev pub message_ref_from_ptr : ℕ → ℕ
message_ref_from_ptr p = p

abbrev pub message_ref_as_ptr : ℕ → ℕ
message_ref_as_ptr self = self

-- `Deref` and `DerefMut`, and `Borrow` and `BorrowMut` by them.
abbrev pub message_deref : Message → ℕ
message_deref m = message_ref_from_ptr m.raw

abbrev pub message_borrow : Message → ℕ
message_borrow m = message_deref m

module _ {W : Type 0} (lib : SdBus W) where
  -- `let mut b = uninitialized(); sd_try!(f(&mut b)); Ok(Bus { raw: b })`
  connect : (W → (ℤ × ℕ) × W) → Eff W Bus
  unfolding call ffi_result ◌>>=◌
  connect f = do (ret, b) ← call f; lift (ffi_result ret); pure (record { raw = b })

  unfoldable pub default_bus : Eff W Bus
  unfolding connect
  default_bus = connect lib.sd_bus_default

  unfoldable pub default_user : Eff W Bus
  unfolding connect
  default_user = connect lib.sd_bus_default_user

  unfoldable pub default_system : Eff W Bus
  unfolding connect
  default_system = connect lib.sd_bus_default_system

  unfoldable pub bus_from_ptr : ℕ → W → Bus × W
  bus_from_ptr r w = let (raw, w') = lib.sd_bus_ref r w in (record { raw = raw }, w')

  -- `to_owned` of a `BusRef`: its own, and the one of `ToOwned`.
  unfoldable pub bus_to_owned : ℕ → W → Bus × W
  unfolding bus_from_ptr
  bus_to_owned self w = bus_from_ptr (bus_ref_as_ptr self) w

  unfoldable pub clone_bus : Bus → W → Bus × W
  clone_bus b w = let (raw, w') = lib.sd_bus_ref b.raw w in (record { raw = raw }, w')

  unfoldable pub drop_bus : Bus → W → W
  drop_bus b w = (lib.sd_bus_unref b.raw w).1

  -- `to_owned` of a `MessageRef`
  unfoldable pub message_to_owned : ℕ → W → Message × W
  message_to_owned p w = let (raw, w') = lib.sd_bus_message_ref p w in (record { raw = raw }, w')

  unfoldable pub clone_message : Message → W → Message × W
  clone_message m w = let (raw, w') = lib.sd_bus_message_ref m.raw w in (record { raw = raw }, w')

  unfoldable pub drop_message : Message → W → W
  drop_message m w = (lib.sd_bus_message_unref m.raw w).1
