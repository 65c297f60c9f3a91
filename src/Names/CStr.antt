-- ===== src/Names/CStr.antt =====
-- `std::ffi::CStr` as src/bus/mod.rs uses it: a slice of bytes, the last of which is its '\0'.
use rust_systemd.Base.{ℕ, ◌≡◌, [], ◌∷◌, ◌++◌, arith, Bytes, ◌==◌, if◌then◌else◌, Lacks, refl, ap}

-- The bytes in front of the first '\0', and all where there is none.
unfoldable pub up_to_nul : Bytes → Bytes
up_to_nul [] = []
up_to_nul (c ∷ s) = let rest = c ∷ up_to_nul s in if c == 0 then [] else rest

drop_last : Bytes → Bytes
drop_last [] = []
drop_last (c ∷ []) = []
drop_last (c ∷ d ∷ s) = c ∷ drop_last (d ∷ s)

-- `CStr::from_ptr`, of the bytes that stand at the pointer.
unfoldable pub from_ptr : Bytes → Bytes
unfolding up_to_nul
from_ptr at = up_to_nul at ++ 0 ∷ []

-- `to_bytes`: the slice without its last byte, which ought to be the '\0'.
unfoldable pub to_bytes : Bytes → Bytes
unfolding drop_last
to_bytes inner = drop_last inner

unfoldable pub to_bytes_with_nul : Bytes → Bytes
to_bytes_with_nul inner = inner

pub up_to_nul-append : (s junk : Bytes) → Lacks 0 s → up_to_nul (s ++ 0 ∷ junk) ≡ s
unfolding up_to_nul
up_to_nul-append [] junk h = refl
up_to_nul-append (c ∷ s) junk (h, hs) = ground (arith, up_to_nul-append s junk hs)

pub to_bytes-append : (s : Bytes) (c : ℕ) → to_bytes (s ++ c ∷ []) ≡ s
unfolding to_bytes
to_bytes-append [] c = refl
to_bytes-append (a ∷ []) c = refl
to_bytes-append (a ∷ b ∷ s) c = ap (λ x. a ∷ x) (unfold to_bytes in to_bytes-append (b ∷ s) c)

pub from_ptr-append : (s junk : Bytes) → Lacks 0 s → from_ptr (s ++ 0 ∷ junk) ≡ s ++ 0 ∷ []
unfolding from_ptr
from_ptr-append s junk h = ap (λ (x : Bytes). x ++ 0 ∷ []) (up_to_nul-append s junk h)

pub to_bytes_with_nul_lem : (s : Bytes) → to_bytes_with_nul s ≡ s
unfolding to_bytes_with_nul
to_bytes_with_nul_lem s = refl
