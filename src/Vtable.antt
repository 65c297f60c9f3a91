-- ===== src/Vtable.antt =====
-- libsystemd-sys/src/bus/vtable.rs: the packed type and flags of a vtable entry.
pub mod Packing
pub mod Bounds
mod Tests
use rust_systemd.Base.{
  ℕ, zero, suc, ◌+◌, ◌-◌, ◌*◌, ◌/◌, ◌%◌, ◌^◌, ◌≤◌, ◌<◌, ◌≡◌, ◌≢◌, ◌⊎◌, inl, inr, ◌↔◌, Bool, true,
  false, not, ◌&&◌, ◌||◌, Option, none, some, List, [], ◌∷◌, ◌++◌, arith, Bytes, ◌==◌, ltb,
  if◌then◌else◌, All, length, length-append, Result, ok, err, refl, c_codes, codes, ap, sym, subst,
  ◌∙◌, append_assoc, map,
}
use rust_systemd.Ffi.{Outcome, returns, panics, assertion}
use mathlib.Core.List.{reverse}

-- `SdBusVtableType`, with its discriminants.
pub data SdBusVtableType : Type 0 where
  start end method signal property writable_property : SdBusVtableType

unfoldable pub type_code : SdBusVtableType → ℕ
type_code start = b'<'
type_code end = b'>'
type_code method = b'M'
type_code signal = b'S'
type_code property = b'P'
type_code writable_property = b'W'

-- `SdBusVtableFlag`, with its discriminants.
pub data SdBusVtableFlag : Type 0 where
  deprecated hidden unprivileged method_no_reply property_const : SdBusVtableFlag
  property_emits_change property_emits_invalidation property_explicit capability_mask :
      SdBusVtableFlag

unfoldable pub flag_code : SdBusVtableFlag → ℕ
flag_code deprecated = 1
flag_code hidden = 2
flag_code unprivileged = 4
flag_code method_no_reply = 8
flag_code property_const = 16
flag_code property_emits_change = 32
flag_code property_emits_invalidation = 64
flag_code property_explicit = 128
flag_code capability_mask = 0xFFFF * 2 ^ 40

-- The byte order of the machine, by which `transmute` goes between `u64` and `[u8; 8]`.
pub data Endian : Type 0 where
  little big : Endian

pub le_bytes : ℕ → ℕ → Bytes
le_bytes zero n = []
le_bytes (suc k) n = (n % 256) ∷ le_bytes k (n / 256)

pub of_le_bytes : Bytes → ℕ
of_le_bytes [] = 0
of_le_bytes (b ∷ bs) = b + 256 * of_le_bytes bs

unfoldable pub to_bytes : Endian → ℕ → Bytes
unfolding le_bytes
to_bytes little n = le_bytes 8 n
to_bytes big n = reverse (le_bytes 8 n)

unfoldable pub of_bytes : Endian → Bytes → ℕ
unfolding of_le_bytes
of_bytes little bs = of_le_bytes bs
of_bytes big bs = of_le_bytes (reverse bs)

-- `bs[i]`, of an array that is long enough.
get_byte : ℕ → Bytes → ℕ
get_byte i [] = 0
get_byte zero (b ∷ bs) = b
get_byte (suc i) (b ∷ bs) = get_byte i bs

-- `bs[i] = v`
set_byte : ℕ → ℕ → Bytes → Bytes
set_byte i v [] = []
set_byte zero v (b ∷ bs) = v ∷ bs
set_byte (suc i) v (b ∷ bs) = b ∷ set_byte i v bs

-- `for i in 0..7 { val[i + 1] = raw[i]; }`, with the rounds left and `i`.
copy_up : ℕ → ℕ → Bytes → Bytes → Bytes
unfolding get_byte set_byte
copy_up zero i raw val = val
copy_up (suc rounds) i raw val = copy_up rounds (i + 1) raw (set_byte (i + 1) (get_byte i raw) val)

-- `for i in 1..8 { val[i - 1] = raw[i]; }`
copy_down : ℕ → ℕ → Bytes → Bytes → Bytes
unfolding get_byte set_byte
copy_down zero i raw val = val
copy_down (suc rounds) i raw val =
    copy_down rounds (i + 1) raw (set_byte (i - 1) (get_byte i raw) val)

-- `[0u8; 8]`
abbrev zeros : Bytes
zeros = 0 ∷ 0 ∷ 0 ∷ 0 ∷ 0 ∷ 0 ∷ 0 ∷ 0 ∷ []

-- `sd_bus_vtable`
pub record SdBusVtable : Type 0 where
  pub type_and_flags : ℕ
  pub union_data : List ℕ

-- `Default::default()`
abbrev pub default : SdBusVtable
default = record { type_and_flags = 0; union_data = 0 ∷ 0 ∷ 0 ∷ 0 ∷ 0 ∷ [] }

module _ (endian : Endian) where
  -- `sd_bus_vtable::type_and_flags`; the two `assert!` panic.
  unfoldable pub type_and_flags : ℕ → ℕ → Outcome ℕ
  unfolding copy_up set_byte
  type_and_flags typ flags =
      if ltb 0xFF typ
      then panics assertion
      else if ltb 0xFFFFFFFFFFFFFF flags
      then panics assertion
      else returns
          (of_bytes endian (copy_up 7 0 (to_bytes endian flags) (set_byte 0 (typ % 256) zeros)))

  -- `typ(&self)`, of the `type_and_flags` field: its first byte in memory.
  unfoldable pub typ : ℕ → ℕ
  unfolding get_byte
  typ word = get_byte 0 (to_bytes endian word)

  -- `flags(&self)`: the other seven bytes.
  unfoldable pub flags : ℕ → ℕ
  unfolding copy_down
  flags word = of_bytes endian (copy_down 7 1 (to_bytes endian word) zeros)
