-- ===== src/Ffi/Answers.antt =====
-- What a call of one C function comes to: a value, or the errno of a negative return value.
use rust_systemd.Base.{ℕ, suc, ◌≡◌, ◌⊎◌, inl, inr, arith}
use rust_systemd.Base.Int.{ℤ, pos, negsuc, neg_c_int, ℤ-cases}
use rust_systemd.Ffi.{
  Machine, Outcome, returns, fails, raw_os_error, pure, lift, call, ffi_result, sd_try, ◌>>=◌,
}

-- For a return value and a state that C left: `a` if the return value is not negative, else its errno;
-- the state is that of C on both ways, and the C strings are as before.
abbrev pub Answers : {W A : Type 0} → Machine W → ℤ → W → A → Outcome A × Machine W → Type 0
Answers s ret w a r =
    ((n : ℕ) × (ret ≡ pos n) × (r ≡ (returns a, record s { world = w })))
    ⊎ ((n : ℕ) × (ret ≡ negsuc n)
        × (r ≡ (fails (raw_os_error (neg_c_int (negsuc n))), record s { world = w })))

module _ {W : Type 0} (s : Machine W) where
  pub sd_try-Answers :
      (f : W → ℤ × W) → Answers s (f s.world).0 (f s.world).1 (f s.world).0 (sd_try (call f) s)
  unfolding sd_try call
  sd_try-Answers f = elim (ℤ-cases (f s.world).0) [
    | inl (n, e) ↦ inl (suc n, e, ground arith)
    | inr (inl e) ↦ inl (0, e, ground arith)
    | inr (inr (n, e)) ↦ inr (n, e, ground arith)
  ]

  -- A value that is made of the return value.
  pub tried-Answers :
      {A : Type 0} (f : W → ℤ × W) (g : ℤ → A)
      → Answers s
          (f s.world).0
          (f s.world).1
          (g (f s.world).0)
          ((sd_try (call f) >>= λ x. pure (g x)) s)
  unfolding sd_try call ◌>>=◌
  tried-Answers f g = elim (ℤ-cases (f s.world).0) [
    | inl (n, e) ↦ inl (suc n, e, ground arith)
    | inr (inl e) ↦ inl (0, e, ground arith)
    | inr (inr (n, e)) ↦ inr (n, e, ground arith)
  ]

  -- A value that is made of what C wrote.
  pub wrote-Answers :
      {A B : Type 0} (f : W → (ℤ × A) × W) (g : A → B)
      → Answers s
          (f s.world).0.0
          (f s.world).1
          (g (f s.world).0.1)
          ((call f >>= λ x. lift (ffi_result x.0) >>= λ _. pure (g x.1)) s)
  unfolding call ◌>>=◌ ffi_result
  wrote-Answers f g = elim (ℤ-cases (f s.world).0.0) [
    | inl (n, e) ↦ inl (suc n, e, ground arith)
    | inr (inl e) ↦ inl (0, e, ground arith)
    | inr (inr (n, e)) ↦ inr (n, e, ground arith)
  ]
