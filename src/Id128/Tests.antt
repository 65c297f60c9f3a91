-- ===== src/Id128/Tests.antt =====
-- A run of the print of src/id128.rs, and instances of the theorems on ids.
use rust_systemd.Base.{
  All, [], ◌∷◌, ◌++◌, ◌≡◌, Bytes, codes, refl, Option, none, some, arith, length,
}
use rust_systemd.Base.Int.{ℤ, pos, negsuc}
use rust_systemd.Ffi.{Machine, returns}
use rust_systemd.Ffi.Heap.{CArg, at}
use rust_systemd.Names.CStr.{to_bytes, to_bytes-append}
use rust_systemd.Id128.{Id128, SdId128, display, from_cstr, from_random}
use rust_systemd.Id128.Hex.{IsByte, read_hex}
use rust_systemd.Id128.Sources.{ReadsHex}
use rust_systemd.Id128.RoundTrip.{
  random, machine, boot, from_source, WritesIds, from_cstr-from_source,
}

abbrev an_id : Id128
an_id = record {
  inner = 0x1F ∷ 1 ∷ 2 ∷ 3 ∷ 4 ∷ 5 ∷ 6 ∷ 7 ∷ 8 ∷ 9 ∷ 10 ∷ 11 ∷ 12 ∷ 13 ∷ 14 ∷ 0xFF ∷ [];
}

display_of_an_id : display an_id ≡ codes "1f0102030405060708090a0b0c0d0eff"
unfolding display
display_of_an_id = refl

answer_of : Option Bytes → ℤ × Bytes
answer_of (some bytes) = (pos 0, bytes)
answer_of none = (negsuc 21, [])

-- A library that reads text as hexadecimal digits, and whose sources give the one id.
read_argument : CArg → ℤ × Bytes
unfolding answer_of
read_argument (at b) = answer_of (read_hex (to_bytes b))
read_argument _ = (negsuc 21, [])

abbrev test_lib : SdId128 (Unit {0})
test_lib = record {
  sd_id128_from_string = λ text w. (read_argument text, w);
  sd_id128_randomize = λ w. ((pos 0, an_id.inner), w);
  sd_id128_get_machine = λ w. ((negsuc 1, []), w);
  sd_id128_get_boot = λ w. ((pos 0, an_id.inner), w);
}

abbrev start : Machine (Unit {0})
start = record { memory = record { next = 1; live = [] }; world = tt }

test_lib-ReadsHex : ReadsHex test_lib
unfolding read_argument
test_lib-ReadsHex text bytes w h _ = rw (to_bytes-append text 0, h) refl

an_id_bytes : All IsByte an_id.inner
an_id_bytes = ground arith

test_lib-WritesIds : WritesIds test_lib
test_lib-WritesIds random w n h = (an_id_bytes, refl)
test_lib-WritesIds machine w n h = absurd cc
test_lib-WritesIds boot w n h = (an_id_bytes, refl)

random_id : (from_source test_lib random start).0 ≡ returns an_id
unfolding from_random
random_id = refl

from_cstr-from_source_example :
    (length an_id.inner ≡ 16)
    × (from_cstr test_lib (display an_id ++ 0 ∷ []) (from_source test_lib random start).1
        ≡ (returns an_id, (from_source test_lib random start).1))
from_cstr-from_source_example =
    from_cstr-from_source test_lib start test_lib-ReadsHex test_lib-WritesIds random an_id random_id
