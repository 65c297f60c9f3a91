-- ===== src/Iovec/Tests.antt =====
-- A run of `array_to_iovecs` of libsystemd-sys/src/lib.rs.
use rust_systemd.Base.{◌≡◌, [], ◌∷◌, refl}
use rust_systemd.Iovec.{array_to_iovecs}

two_vectors :
    array_to_iovecs (record { ptr = 8; len = 3 } ∷ record { ptr = 20; len = 0 } ∷ [])
    ≡ record { iov_base = 8; iov_len = 3 } ∷ record { iov_base = 20; iov_len = 0 } ∷ []
unfolding array_to_iovecs
two_vectors = refl
