-- ===== src/Vtable/Tests.antt =====
-- Runs of the vtable packing of libsystemd-sys/src/bus/vtable.rs, and instances of its theorems.
use rust_systemd.Base.{◌^◌, ◌≡◌, ◌≤◌, ◌<◌, ◌⊎◌, refl}
use rust_systemd.Ffi.{returns, panics, assertion}
use rust_systemd.Vtable.{type_and_flags, typ, flags, default, little, big, to_bytes, of_bytes}
use rust_systemd.Vtable.Bounds.{word, kept, packed_or_panics}

-- The test `vtable_bitfield` of the source.
vtable_bitfield : type_and_flags little 0xAA 0xBBCCBB ≡ returns 0xBBCCBBAA
unfolding type_and_flags to_bytes of_bytes
vtable_bitfield = refl

vtable_bitfield_big : type_and_flags big 0xAA 0xBBCCBB ≡ returns 0xAA0000000000BBCC
unfolding type_and_flags to_bytes of_bytes
vtable_bitfield_big = refl

default_typ : typ little default.type_and_flags ≡ 0
unfolding typ to_bytes
default_typ = refl

default_flags : flags big default.type_and_flags ≡ 0
unfolding flags to_bytes of_bytes
default_flags = refl

flags_big : flags big 0xAA0000000000BBCC ≡ 0xBBCC00
unfolding flags to_bytes of_bytes
flags_big = refl

packed_or_panics_example :
    ((type_and_flags big 0xAA 0xBBCCBB ≡ returns (word big 0xAA 0xBBCCBB))
      × (0xAA ≤ 0xFF)
      × (0xBBCCBB ≤ 0xFFFFFFFFFFFFFF)
      × (word big 0xAA 0xBBCCBB < 2 ^ 64)
      × (typ big (word big 0xAA 0xBBCCBB) ≡ 0xAA)
      × (flags big (word big 0xAA 0xBBCCBB) ≡ kept big 0xBBCCBB))
    ⊎ ((type_and_flags big 0xAA 0xBBCCBB ≡ panics assertion)
        × ((0xFF < 0xAA) ⊎ (0xFFFFFFFFFFFFFF < 0xBBCCBB)))
packed_or_panics_example = packed_or_panics big 0xAA 0xBBCCBB
