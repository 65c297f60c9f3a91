-- ===== src/Id128/Sources.antt =====
-- Where an id of src/id128.rs comes from: what each source returns, and reading a printed id again.
use rust_systemd.Base.{ℕ, ◌≡◌, ◌↔◌, some, [], ◌∷◌, ◌++◌, arith, Bytes, All, length}
use rust_systemd.Base.Int.{ℤ, pos}
use rust_systemd.Ffi.{Outcome, returns, Machine}
use rust_systemd.Ffi.Heap.{at}
use rust_systemd.Id128.{Id128, SdId128, from_cstr, from_random, from_machine, from_boot, display}
use rust_systemd.Id128.Hex.{read_hex, IsByte, read_hex-display}

-- sd_id128_from_string(3): text that reads as the hexadecimal digits of sixteen bytes is accepted, and
-- the bytes are written.
abbrev pub ReadsHex : {W : Type 0} → SdId128 W → Type 0
ReadsHex {W} lib =
    (text bytes : Bytes) (w : W)
    → read_hex text ≡ some bytes
    → length bytes ≡ 16
    → lib.sd_id128_from_string (at (text ++ 0 ∷ [])) w ≡ ((pos 0, bytes), w)

module _ {W : Type 0} (lib : SdId128 W) (s : Machine W) where
  -- The print of an id of sixteen bytes, with '\0', is read as that id, if `sd_id128_from_string`
  -- reads hexadecimal text.
  pub from_cstr-display :
      ReadsHex lib
      → (id : Id128) → All IsByte id.inner
      → length id.inner ≡ 16
      → from_cstr lib (display id ++ 0 ∷ []) s ≡ (returns id, s)
  unfolding from_cstr
  from_cstr-display reads id bytes sixteen =
      rw (reads (display id) id.inner s.world (read_hex-display id bytes) sixteen)

  -- What a source returns for the C function's answer `c`: an id exactly if the answer is not
  -- negative, and then the bytes that were written.
  abbrev pub Answers : (ℤ × Bytes) × W → Outcome Id128 × Machine W → Type 0
  Answers c r =
      ((id : Id128) → (r.0 ≡ returns id) ↔ ((id.inner ≡ c.0.1) × ((n : ℕ) × (c.0.0 ≡ pos n))))
      × (r.1 ≡ record s { world = c.1 })

  -- The three sources without an argument return the bytes that the C function wrote if its return
  -- value is not negative, and no id otherwise; the C strings stay as they are.
  pub sources_answer :
      Answers (lib.sd_id128_randomize s.world) (from_random lib s)
      × Answers (lib.sd_id128_get_machine s.world) (from_machine lib s)
      × Answers (lib.sd_id128_get_boot s.world) (from_boot lib s)
  unfolding from_random from_machine from_boot
  sources_answer = (
    (λ id. (λ h. ground arith, λ (e, (n, h)). ground arith), ground arith),
    (λ id. (λ h. ground arith, λ (e, (n, h)). ground arith), ground arith),
    (λ id. (λ h. ground arith, λ (e, (n, h)). ground arith), ground arith),
  )
