-- ===== src/Names/MemberName/Errors.antt =====
-- Which message `MemberName::from_bytes` of src/bus/mod.rs refuses a slice with.
use rust_systemd.Base.{
  ℕ, ◌<◌, ◌≤◌, ◌≡◌, ◌≢◌, ◌⊎◌, inl, inr, ◌↔◌, [], ◌∷◌, arith, Bytes, length, err, refl,
}
use rust_systemd.Names.Chars.{IsNameChar, IsNameStart}
use rust_systemd.Names.Loop.{Stops, run-Stops, Stops-run}
use rust_systemd.Names.MemberName.{
  MemberError, no_character, too_long, bad_start, bad_character, not_terminated, scan, from_bytes,
}

-- The loop keeps nothing of the bytes that it passed.
abbrev pub Passes : Unit {0} → ℕ → Type 0
Passes _ c = IsNameChar c

abbrev pub Refuses : Unit {0} → ℕ → MemberError → Type 0
Refuses _ c e = (c ≢ 0) × (¬ IsNameChar c) × (e ≡ bad_character)

abbrev pub NameStops : Bytes → MemberError → Type 0
NameStops = Stops (λ _ _. tt) Passes Refuses not_terminated tt

module _ (b : Bytes) where
  splits :
      (s : Unit {0}) (c : ℕ) (rest : Bytes) (e : MemberError)
      → scan b (c ∷ rest) ≡ err e
      → (Passes s c × (scan b rest ≡ err e)) ⊎ Refuses s c e
  unfolding scan
  splits s c rest e h = ground arith

  passes : (s : Unit {0}) (c : ℕ) (rest : Bytes) → Passes s c → scan b (c ∷ rest) ≡ scan b rest
  unfolding scan
  passes s c rest h = ground arith

  refuses :
      (s : Unit {0}) (c : ℕ) (rest : Bytes) (e : MemberError)
      → Refuses s c e
      → scan b (c ∷ rest) ≡ err e
  unfolding scan
  refuses s c rest e h = ground arith

  ends : (s : Unit {0}) → scan b [] ≡ err not_terminated
  unfolding scan
  ends s = refl

  scan-NameStops : (rest : Bytes) (e : MemberError) → scan b rest ≡ err e → NameStops rest e
  scan-NameStops =
      run-Stops _ Passes Refuses not_terminated (λ _. scan b) ends passes refuses splits tt

  NameStops-scan : (rest : Bytes) (e : MemberError) → NameStops rest e → scan b rest ≡ err e
  NameStops-scan = Stops-run _ Passes Refuses not_terminated (λ _. scan b) ends passes refuses tt

-- The slice has one byte or none, or more than 256, its first byte is none that a name begins with, or the
-- loop stops.
abbrev pub IsRefused : Bytes → MemberError → Type 0
IsRefused b e =
    ((length b < 2) × (e ≡ no_character))
    ⊎ (((256 < length b) × (e ≡ too_long))
        ⊎ ((c : ℕ) × (s : Bytes) × (b ≡ c ∷ s)
            × (2 ≤ length b)
            × (length b ≤ 256)
            × (((¬ IsNameStart c) × (e ≡ bad_start)) ⊎ (IsNameStart c × NameStops b e))))

-- What the guards do with a slice.
abbrev Entered : ℕ → Bytes → MemberError → Type 0
Entered c s e =
    ((length (c ∷ s) < 2) × (e ≡ no_character))
    ⊎ (((256 < length (c ∷ s)) × (e ≡ too_long))
        ⊎ ((2 ≤ length (c ∷ s))
            × (length (c ∷ s) ≤ 256)
            × (((¬ IsNameStart c) × (e ≡ bad_start))
                ⊎ (IsNameStart c × (scan (c ∷ s) (c ∷ s) ≡ err e)))))

module _ (c : ℕ) (s : Bytes) {e : MemberError} where
  enter : from_bytes (c ∷ s) ≡ err e → Entered c s e
  unfolding from_bytes
  enter h = ground arith

  Entered-enter : Entered c s e → from_bytes (c ∷ s) ≡ err e
  unfolding from_bytes
  Entered-enter h = ground arith

refused→IsRefused : (b : Bytes) {e : MemberError} → from_bytes b ≡ err e → IsRefused b e
refused→IsRefused [] h = inl (omega arith, unfold from_bytes in cc)
refused→IsRefused (c ∷ s) {e} h = elim (enter c s h) [
  | inl z ↦ inl z
  | inr (inl z) ↦ inr (inl z)
  | inr (inr (least, most, inl z)) ↦ inr (inr (c, s, refl, least, most, inl z))
  | inr (inr (least, most, inr (arm, loop))) ↦
      inr (inr (c, s, refl, least, most, inr (arm, scan-NameStops (c ∷ s) (c ∷ s) e loop)))
]

IsRefused→refused : (b : Bytes) {e : MemberError} → IsRefused b e → from_bytes b ≡ err e
IsRefused→refused [] (inl (_, z)) = rw z (unfold from_bytes in refl)
IsRefused→refused (c ∷ s) (inl z) = Entered-enter c s (inl z)
IsRefused→refused [] (inr (inl (z, _))) = absurd (omega arith)
IsRefused→refused (c ∷ s) (inr (inl z)) = Entered-enter c s (inr (inl z))
IsRefused→refused b {e} (inr (inr (c, s, at, least, most, why))) =
    rw at (Entered-enter c s (inr (inr (rw at at least, rw at at most, again (rw at at why)))))
  where
    again :
        ((¬ IsNameStart c) × (e ≡ bad_start)) ⊎ (IsNameStart c × NameStops (c ∷ s) e)
        → ((¬ IsNameStart c) × (e ≡ bad_start)) ⊎ (IsNameStart c × (scan (c ∷ s) (c ∷ s) ≡ err e))
    again (inl z) = inl z
    again (inr (arm, stops)) = inr (arm, NameStops-scan (c ∷ s) (c ∷ s) e stops)

-- `MemberName::from_bytes` refuses a slice with the message of the first thing that is wrong with it: fewer
-- than two bytes, more than 256, its first byte, and then the first byte that is no character of a name; if
-- there is none, and no '\0', the slice is not terminated.
pub member_error_iff : (b : Bytes) (e : MemberError) → (from_bytes b ≡ err e) ↔ IsRefused b e
member_error_iff b e = (refused→IsRefused b, IsRefused→refused b)
