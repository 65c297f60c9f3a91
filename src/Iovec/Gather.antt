-- ===== src/Iovec/Gather.antt =====
-- What writev(2) and the journal read of the vectors of `array_to_iovecs`.
use rust_systemd.Base.{ℕ, zero, suc, ◌+◌, ◌≡◌, List, [], ◌∷◌, ◌++◌, Bytes, map, refl}
use rust_systemd.Iovec.{Str, ConstIovec, array_to_iovecs}

-- `n` bytes from an address on, in a memory that has a byte at each address.
pub bytes_at : (ℕ → ℕ) → ℕ → ℕ → Bytes
bytes_at memory p zero = []
bytes_at memory p (suc n) = memory p ∷ bytes_at memory (p + 1) n

-- writev(2): the bytes of each vector, one behind the other.
pub gather : (ℕ → ℕ) → List ConstIovec → Bytes
unfolding bytes_at
gather memory [] = []
gather memory (v ∷ vs) = bytes_at memory v.iov_base v.iov_len ++ gather memory vs

-- The bytes of texts, one behind the other.
pub joined : List Bytes → Bytes
joined [] = []
joined (t ∷ ts) = t ++ joined ts

-- The bytes that are written are those of the strings, in order, with nothing between or behind them.
pub gather-joined :
    (memory : ℕ → ℕ) (args : List Str)
    → gather memory (array_to_iovecs args)
      ≡ joined (map (λ (d : Str). bytes_at memory d.ptr d.len) args)
unfolding gather joined array_to_iovecs
gather-joined memory [] = refl
gather-joined memory (d ∷ ds) = rw (gather-joined memory ds) refl
