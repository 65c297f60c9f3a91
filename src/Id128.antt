-- ===== src/Id128.antt =====
-- src/id128.rs: 128-bit ids, their print, and their sources in sd-id128(3).
pub mod Hex
pub mod Sources
pub mod RoundTrip
mod Tests
use rust_systemd.Base.{
  ℕ, zero, suc, ◌+◌, ◌-◌, ◌*◌, ◌/◌, ◌%◌, ◌^◌, ◌≤◌, ◌<◌, ◌≡◌, ◌≢◌, ◌⊎◌, inl, inr, ◌↔◌, Bool, true,
  false, not, ◌&&◌, ◌||◌, Option, none, some, List, [], ◌∷◌, ◌++◌, arith, Bytes, ◌==◌, ltb,
  ltb-eq-false, if◌then◌else◌, All, length, length-append, Result, ok, err, refl, c_codes, codes,
  ap, sym, subst, ◌∙◌, append_assoc, map,
}
use mathlib.Core.List.{flat_map}
use rust_systemd.Base.Int.{ℤ}
use rust_systemd.Ffi.{Eff, pure, lift, call, ffi_result, ◌>>=◌, ◌>>◌}
use rust_systemd.Ffi.Heap.{CArg, at}

-- `inner: sd_id128_t`, sixteen bytes.
pub record Id128 : Type 0 where
  pub inner : Bytes

-- The C functions: a return value, and what is written to `ret`. They are parameters of the model.
pub record SdId128 (W : Type 0) : Type 0 where
  pub sd_id128_from_string : CArg → W → (ℤ × Bytes) × W
  pub sd_id128_randomize : W → (ℤ × Bytes) × W
  pub sd_id128_get_machine : W → (ℤ × Bytes) × W
  pub sd_id128_get_boot : W → (ℤ × Bytes) × W

unfoldable pub hex_digit : ℕ → ℕ
hex_digit n = if ltb n 10 then b'0' + n else b'a' + (n - 10)

-- `write!(fmt, "{:02x}", b)`
unfoldable pub hex_byte : ℕ → Bytes
unfolding hex_digit
hex_byte b = hex_digit (b / 16) ∷ hex_digit (b % 16) ∷ []

-- `Display`: the text that is written.
unfoldable pub display : Id128 → Bytes
unfolding hex_byte flat_map
display id = flat_map hex_byte id.inner

unfoldable pub as_bytes : Id128 → Bytes
as_bytes id = id.inner

module _ {W : Type 0} where
  -- `let mut r = uninitialized(); sd_try!(f(.., &mut r.inner)); Ok(r)`
  from_call : (W → (ℤ × Bytes) × W) → Eff W Id128
  unfolding call ffi_result ◌>>=◌
  from_call f = do (ret, r) ← call f; lift (ffi_result ret); pure (record { inner = r })

module _ {W : Type 0} (lib : SdId128 W) where
  -- `s` is the bytes of the `CStr`, with its '\0'.
  unfoldable pub from_cstr : Bytes → Eff W Id128
  unfolding from_call
  from_cstr s = from_call (lib.sd_id128_from_string (at s))

  unfoldable pub from_random : Eff W Id128
  unfolding from_call
  from_random = from_call lib.sd_id128_randomize

  unfoldable pub from_machine : Eff W Id128
  unfolding from_call
  from_machine = from_call lib.sd_id128_get_machine

  unfoldable pub from_boot : Eff W Id128
  unfolding from_call
  from_boot = from_call lib.sd_id128_get_boot
