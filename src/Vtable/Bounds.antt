-- ===== src/Vtable/Bounds.antt =====
-- What `type_and_flags`, `typ` and `flags` of libsystemd-sys/src/bus/vtable.rs give for every argument.
use rust_systemd.Base.{ℕ, ◌+◌, ◌-◌, ◌*◌, ◌/◌, ◌%◌, ◌^◌, ◌≤◌, ◌<◌, ◌≡◌, ◌⊎◌, inl, inr, arith}
use rust_systemd.Ffi.{returns, panics, assertion}
use rust_systemd.Vtable.{Endian, little, big, type_and_flags, typ, flags}
use rust_systemd.Vtable.Packing.{
  little_endian_round_trip, big_endian_loses_low_byte, out_of_range_panics,
}

-- The word that is packed, and the flags that are read back from it.
abbrev pub word : Endian → ℕ → ℕ → ℕ
word little t f = t + 256 * f
word big t f = f / 256 + 2 ^ 56 * t

abbrev pub kept : Endian → ℕ → ℕ
kept little f = f
kept big f = f - f % 256

word_bound :
    (endian : Endian) (t f : ℕ) → t ≤ 0xFF → f ≤ 0xFFFFFFFFFFFFFF → word endian t f < 2 ^ 64
word_bound little t f ht hf = omega arith
word_bound big t f ht hf = omega arith

in_range :
    (endian : Endian) (t f : ℕ)
    → t ≤ 0xFF
    → f ≤ 0xFFFFFFFFFFFFFF
    → (type_and_flags endian t f ≡ returns (word endian t f))
      × (typ endian (word endian t f) ≡ t)
      × (flags endian (word endian t f) ≡ kept endian f)
in_range little t f ht hf = little_endian_round_trip t f ht hf
in_range big t f ht hf = big_endian_loses_low_byte t f ht hf

ranges : (t f : ℕ) → ((t ≤ 0xFF) × (f ≤ 0xFFFFFFFFFFFFFF)) ⊎ ((0xFF < t) ⊎ (0xFFFFFFFFFFFFFF < f))
ranges t f = ground arith

-- For either byte order and any type and flags: where the type is of one byte and the flags of seven,
-- the packed word is below 2^64, the type is read back from it, and so are the flags, whose lowest byte is
-- 0 on a big-endian machine; for all others `type_and_flags` panics. The word of a little-endian machine
-- is the type plus 256 times the flags, as the bit field in C has it.
pub packed_or_panics :
    (endian : Endian) (t f : ℕ)
    → ((type_and_flags endian t f ≡ returns (word endian t f))
        × (t ≤ 0xFF)
        × (f ≤ 0xFFFFFFFFFFFFFF)
        × (word endian t f < 2 ^ 64)
        × (typ endian (word endian t f) ≡ t)
        × (flags endian (word endian t f) ≡ kept endian f))
      ⊎ ((type_and_flags endian t f ≡ panics assertion) × ((0xFF < t) ⊎ (0xFFFFFFFFFFFFFF < f)))
packed_or_panics endian t f = elim (ranges t f) [
  | inl (ht, hf) ↦
      let (packed, first, others) = in_range endian t f ht hf in
      inl (packed, ht, hf, word_bound endian t f ht hf, first, others)
  | inr out ↦ inr (out_of_range_panics endian t f out, out)
]
