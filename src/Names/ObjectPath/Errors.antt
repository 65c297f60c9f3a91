-- ===== src/Names/ObjectPath/Errors.antt =====
-- Which message `ObjectPath::from_bytes` of src/bus/mod.rs refuses a slice with.
use rust_systemd.Base.{
  ℕ, ◌≡◌, ◌≢◌, ◌⊎◌, inl, inr, ◌↔◌, [], ◌∷◌, arith, Bytes, length, err, refl, ap, subst,
}
use rust_systemd.Names.Chars.{IsNameChar}
use rust_systemd.Names.Loop.{Stops, run-Stops, Stops-run}
use rust_systemd.Names.ObjectPath.{
  PathError, no_character, bad_start, double_slash, trailing_slash, bad_character, not_terminated,
  scan, from_bytes,
}

-- A byte that the loop passes, behind `prev`: a character of an element, or one slash.
abbrev pub Passes : ℕ → ℕ → Type 0
Passes prev c = ((c ≡ b'/') × (prev ≢ b'/')) ⊎ IsNameChar c

-- What a byte is refused with behind `prev`, in the slice `b`.
abbrev pub Refuses : Bytes → ℕ → ℕ → PathError → Type 0
Refuses b prev c e =
    ((c ≡ b'/') × (prev ≡ b'/') × (e ≡ double_slash))
    ⊎ (((c ≡ 0) × (prev ≡ b'/') × (length b ≢ 2) × (e ≡ trailing_slash))
        ⊎ ((c ≢ b'/') × (c ≢ 0) × (¬ IsNameChar c) × (e ≡ bad_character)))

abbrev pub PathStops : Bytes → ℕ → Bytes → PathError → Type 0
PathStops b = Stops (λ (prev c : ℕ). c) Passes (Refuses b) not_terminated

module _ (b : Bytes) where
  splits :
      (prev c : ℕ) (rest : Bytes) (e : PathError)
      → scan b prev (c ∷ rest) ≡ err e
      → (Passes prev c × (scan b c rest ≡ err e)) ⊎ Refuses b prev c e
  unfolding scan
  splits prev c rest e h = ground arith

  passes : (prev c : ℕ) (rest : Bytes) → Passes prev c → scan b prev (c ∷ rest) ≡ scan b c rest
  unfolding scan
  passes prev c rest h = ground arith

  refuses :
      (prev c : ℕ) (rest : Bytes) (e : PathError)
      → Refuses b prev c e
      → scan b prev (c ∷ rest) ≡ err e
  unfolding scan
  refuses prev c rest e h = ground arith

  ends : (prev : ℕ) → scan b prev [] ≡ err not_terminated
  unfolding scan
  ends prev = refl

  scan-PathStops :
      (prev : ℕ) (rest : Bytes) (e : PathError) → scan b prev rest ≡ err e → PathStops b prev rest e
  scan-PathStops = run-Stops _ Passes (Refuses b) not_terminated (scan b) ends passes refuses splits

  PathStops-scan :
      (prev : ℕ) (rest : Bytes) (e : PathError) → PathStops b prev rest e → scan b prev rest ≡ err e
  PathStops-scan = Stops-run _ Passes (Refuses b) not_terminated (scan b) ends passes refuses

-- The slice is empty, or does not begin with a slash, or the loop stops behind that.
abbrev pub IsRefused : Bytes → PathError → Type 0
IsRefused b e =
    ((b ≡ []) × (e ≡ no_character))
    ⊎ (((c : ℕ) × (s : Bytes) × (b ≡ c ∷ s) × (c ≢ b'/') × (e ≡ bad_start))
        ⊎ ((s : Bytes) × (b ≡ b'/' ∷ s) × PathStops b b'/' s e))

enter :
    (c : ℕ) (s : Bytes) {e : PathError}
    → from_bytes (c ∷ s) ≡ err e
    → ((c ≢ b'/') × (e ≡ bad_start)) ⊎ ((c ≡ b'/') × (scan (c ∷ s) c s ≡ err e))
unfolding from_bytes
enter c s h = ground arith

refused→IsRefused : (b : Bytes) {e : PathError} → from_bytes b ≡ err e → IsRefused b e
unfolding from_bytes
refused→IsRefused [] h = inl (refl, cc)
refused→IsRefused (c ∷ s) {e} h = elim (enter c s h) [
  | inl (ne, start) ↦ inr (inl (c, s, refl, ne, start))
  | inr (slash, stops) ↦ inr (
      inr (
        s,
        ap (λ (x : ℕ). x ∷ s) slash,
        subst (λ (x : ℕ). PathStops (x ∷ s) x s e) slash (scan-PathStops (c ∷ s) c s e stops),
      ))
]

IsRefused→refused : (b : Bytes) {e : PathError} → IsRefused b e → from_bytes b ≡ err e
unfolding from_bytes
IsRefused→refused b (inl (z, e)) = rw (z, e) refl
IsRefused→refused b (inr (inl (c, s, at, ne, e))) = rw (at, e) (ground arith)
IsRefused→refused b {e} (inr (inr (s, at, stops))) =
    rw at (PathStops-scan (b'/' ∷ s) b'/' s e (rw at at stops))

-- `ObjectPath::from_bytes` refuses a slice with the message of the first thing that is wrong with it: an
-- empty slice, a first byte that is no slash, and then the first byte behind it that is a second slash in
-- a row, a '\0' behind a slash in a slice that is not the root path, or no character of a path; if there
-- is none, and no '\0', the slice is not terminated.
pub path_error_iff : (b : Bytes) (e : PathError) → (from_bytes b ≡ err e) ↔ IsRefused b e
path_error_iff b e = (refused→IsRefused b, IsRefused→refused b)
