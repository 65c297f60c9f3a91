-- ===== src/Vtable/Packing.antt =====
-- Packing and unpacking the type and flags of libsystemd-sys/src/bus/vtable.rs, in both byte orders.
use rust_systemd.Base.{
  ℕ, zero, suc, ◌+◌, ◌-◌, ◌*◌, ◌/◌, ◌%◌, ◌^◌, ◌≤◌, ◌<◌, ◌≡◌, ◌⊎◌, [], ◌∷◌, ◌++◌, arith, Bytes,
  ltb-eq-false, refl, ap,
}
use rust_systemd.Ffi.{returns, panics, assertion}
use rust_systemd.Vtable.{
  Endian, little, big, to_bytes, of_bytes, le_bytes, of_le_bytes, type_and_flags, typ, flags,
  SdBusVtableType, SdBusVtableFlag, type_code, flag_code,
}

-- What is left of a number above its `k` lowest bytes, and the weight of the byte there.
above : ℕ → ℕ → ℕ
above zero n = n
above (suc k) n = above k (n / 256)

weight : ℕ → ℕ
weight zero = 1
weight (suc k) = 256 * weight k

of_le_bytes-le_bytes :
    (k n : ℕ) (rest : Bytes)
    → of_le_bytes (le_bytes k n ++ rest) + weight k * above k n ≡ n + weight k * of_le_bytes rest
unfolding of_le_bytes le_bytes above weight
of_le_bytes-le_bytes zero n rest = omega arith
of_le_bytes-le_bytes (suc k) n rest =
    let ih = of_le_bytes-le_bytes k (n / 256) rest in omega (arith, ap (λ (t : ℕ). 256 * t) ih)

-- The seven bytes of a number below 2^56, with what stands behind them.
seven :
    (n : ℕ) (rest : Bytes)
    → of_le_bytes (le_bytes 7 n ++ rest) + 2 ^ 56 * above 7 n ≡ n + 2 ^ 56 * of_le_bytes rest
unfolding weight
seven n rest = of_le_bytes-le_bytes 7 n rest

above_seven : (t a : ℕ) → a < 2 ^ 56 → above 7 (a + 2 ^ 56 * t) ≡ t
unfolding above
above_seven t a h = omega arith

of_le_bytes-one : (b : ℕ) → of_le_bytes (b ∷ []) ≡ b
unfolding of_le_bytes
of_le_bytes-one b = omega arith

-- What the four functions compute, for each byte order.
module _ (t f : ℕ) (ht : t ≤ 0xFF) (hf : f ≤ 0xFFFFFFFFFFFFFF) where
  packed_little :
      type_and_flags little t f ≡ returns ((t % 256) + 256 * of_le_bytes (le_bytes 7 f ++ []))
  unfolding type_and_flags to_bytes of_bytes
  packed_little = rw (ltb-eq-false 0xFF t ht, ltb-eq-false 0xFFFFFFFFFFFFFF f hf)

  packed_big :
      type_and_flags big t f ≡ returns (of_le_bytes (le_bytes 7 (f / 256) ++ (t % 256) ∷ []))
  unfolding type_and_flags to_bytes of_bytes
  packed_big = rw (ltb-eq-false 0xFF t ht, ltb-eq-false 0xFFFFFFFFFFFFFF f hf)

flags_little : (w : ℕ) → flags little w ≡ of_le_bytes (le_bytes 7 (w / 256) ++ 0 ∷ [])
unfolding flags to_bytes of_bytes
flags_little w = refl

flags_big : (w : ℕ) → flags big w ≡ 256 * of_le_bytes (le_bytes 7 w ++ [])
unfolding flags to_bytes of_bytes
flags_big w = omega arith

typ_little : (w : ℕ) → typ little w ≡ w % 256
unfolding typ to_bytes
typ_little w = refl

typ_big : (w : ℕ) → typ big w ≡ above 7 w % 256
unfolding typ to_bytes above
typ_big w = refl

above_seven-zero : (n : ℕ) → n < 2 ^ 56 → above 7 n ≡ 0
unfolding above
above_seven-zero n h = omega arith

seven_below :
    (n : ℕ) (rest : Bytes)
    → n < 2 ^ 56
    → of_le_bytes (le_bytes 7 n ++ rest) ≡ n + 2 ^ 56 * of_le_bytes rest
seven_below n rest h = omega (arith, seven n rest, above_seven-zero n h)

of_le_bytes-nil : of_le_bytes [] ≡ 0
unfolding of_le_bytes
of_le_bytes-nil = refl

module _ (t f : ℕ) (ht : t ≤ 0xFF) (hf : f ≤ 0xFFFFFFFFFFFFFF) where
  -- With a type of one byte and flags of seven bytes, the packed word of a little-endian machine is
  -- the type plus 256 times the flags, as the bit field in C has it, and both are read back from it.
  pub little_endian_round_trip :
      (type_and_flags little t f ≡ returns (t + 256 * f))
      × (typ little (t + 256 * f) ≡ t)
      × (flags little (t + 256 * f) ≡ f)
  little_endian_round_trip = (
    rw (packed_little t f ht hf) (
        ap (λ (w : ℕ). returns w) (omega (arith, seven_below f [] (omega arith), of_le_bytes-nil))),
    rw typ_little (omega arith),
    rw flags_little (
        omega (arith, seven_below ((t + 256 * f) / 256) (0 ∷ []) (omega arith), of_le_bytes-one 0)),
  )

  -- The word of a big-endian machine keeps the type and loses the lowest byte of the flags, for every
  -- type of one byte and flags of seven.
  pub big_endian_loses_low_byte :
      (type_and_flags big t f ≡ returns (f / 256 + 2 ^ 56 * t))
      × (typ big (f / 256 + 2 ^ 56 * t) ≡ t)
      × (flags big (f / 256 + 2 ^ 56 * t) ≡ f - f % 256)
  big_endian_loses_low_byte = (
    rw (packed_big t f ht hf) (
        ap (λ (w : ℕ). returns w)
          (omega (
            arith,
            seven_below (f / 256) ((t % 256) ∷ []) (omega arith),
            of_le_bytes-one (t % 256),
          ))),
    rw typ_big (omega (arith, above_seven t (f / 256) (omega arith))),
    rw flags_big (
        omega (
          arith,
          seven (f / 256 + 2 ^ 56 * t) [],
          above_seven t (f / 256) (omega arith),
          of_le_bytes-nil,
        )),
  )

-- `type_and_flags` panics for a type of more than a byte or flags of more than seven, in both orders.
pub out_of_range_panics :
    (endian : Endian) (t f : ℕ)
    → (0xFF < t) ⊎ (0xFFFFFFFFFFFFFF < f)
    → type_and_flags endian t f ≡ panics assertion
unfolding type_and_flags
out_of_range_panics endian t f h = ground arith

-- Every type and flag of the two enums is in range.
enum_in_range :
    (t : SdBusVtableType) (f : SdBusVtableFlag)
    → (type_code t ≤ 0xFF) × (flag_code f ≤ 0xFFFFFFFFFFFFFF)
unfolding type_code flag_code
enum_in_range t f = (ground arith, ground arith)

-- On a little-endian machine every type and flag of the two enums is packed and read back.
pub enum_round_trip :
    (t : SdBusVtableType) (f : SdBusVtableFlag)
    → (w : ℕ) × (type_and_flags little (type_code t) (flag_code f) ≡ returns w)
      × (typ little w ≡ type_code t)
      × (flags little w ≡ flag_code f)
enum_round_trip t f =
    let (ht, hf) = enum_in_range t f in
    let (packed, first, others) = little_endian_round_trip (type_code t) (flag_code f) ht hf in
    (type_code t + 256 * flag_code f, packed, first, others)
