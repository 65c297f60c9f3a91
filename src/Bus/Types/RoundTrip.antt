-- ===== src/Bus/Types/RoundTrip.antt =====
-- Texts and object paths of src/bus/types.rs as they are read back.
use rust_systemd.Base.{◌++◌, [], ◌∷◌, Bytes, ◌≡◌, ap, Lacks}
use rust_systemd.Names.CStr
use rust_systemd.Names.CStr.{up_to_nul, up_to_nul-append, from_ptr-append, to_bytes-append}
use rust_systemd.Names.ObjectPath
use rust_systemd.Names.ObjectPath.{ObjectPath}

pub read_again :
    (b : Bytes) → Lacks 0 b → CStr.from_ptr (up_to_nul (b ++ 0 ∷ []) ++ 0 ∷ []) ≡ b ++ 0 ∷ []
read_again b h = rw (up_to_nul-append b [] h) (from_ptr-append b [] h)

pub path_again :
    (b : Bytes)
    → Lacks 0 b
    → ObjectPath.from_ptr_unchecked (up_to_nul (b ++ 0 ∷ []) ++ 0 ∷ []) ≡ record { inner = b }
unfolding ObjectPath.from_ptr_unchecked ObjectPath.from_bytes_unchecked
path_again b h = ap (λ i. record { inner = i }) (rw (read_again b h) (to_bytes-append b 0))
