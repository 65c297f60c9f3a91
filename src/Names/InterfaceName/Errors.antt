-- ===== src/Names/InterfaceName/Errors.antt =====
-- Which message `InterfaceName::from_bytes` of src/bus/mod.rs refuses a slice with.
use rust_systemd.Base.{
  ℕ, ◌+◌, ◌%◌, ◌^◌, ◌≡◌, ◌≢◌, ◌⊎◌, inl, inr, ◌↔◌, [], ◌∷◌, arith, Bytes, length, err, Result, refl,
  sym, ◌∙◌, ◌==◌, if◌then◌else◌,
}
use rust_systemd.Names.Chars.{IsNameChar, IsNameStart, IsDigit}
use rust_systemd.Names.Counter.{IsBelowOne}
use rust_systemd.Names.Loop.{Stops, run-Stops, Stops-run}
use rust_systemd.Names.InterfaceName.{
  InterfaceName, InterfaceError, no_character, leading_period, bad_start, double_period,
  leading_digit, trailing_period, one_element, bad_character, not_terminated, scan, from_bytes,
}

-- The byte in front of the next one, and how many periods the loop has passed.
abbrev pub counted : ℕ × ℕ → ℕ → ℕ × ℕ
counted (prev, periods) c = (c, if c == b'.' then periods + 1 else periods)

-- A byte that the loop passes behind `prev`: a period behind an element, or a character that may stand
-- there.
abbrev pub Passes : ℕ × ℕ → ℕ → Type 0
Passes (prev, _) c = ((c ≡ b'.') × (prev ≢ b'.')) ⊎ (IsNameChar c × ((prev ≢ b'.') ⊎ IsNameStart c))

-- What a byte is refused with behind `prev` and `periods`, in the slice `b`.
abbrev pub Refuses : Bytes → ℕ × ℕ → ℕ → InterfaceError → Type 0
Refuses b (prev, periods) c e =
    ((c ≡ b'.') × (prev ≡ b'.') × (e ≡ double_period))
    ⊎ ((IsDigit c × (prev ≡ b'.') × (e ≡ leading_digit))
        ⊎ (((c ≡ 0) × (prev ≡ b'.') × (length b ≢ 1) × (e ≡ trailing_period))
            ⊎ (((c ≡ 0)
                  × ((prev ≢ b'.') ⊎ (length b ≡ 1))
                  × IsBelowOne (periods % 2 ^ 32)
                  × (e ≡ one_element))
                ⊎ ((c ≢ b'.') × (c ≢ 0) × (¬ IsNameChar c) × (e ≡ bad_character)))))

abbrev pub NameStops : Bytes → ℕ × ℕ → Bytes → InterfaceError → Type 0
NameStops b = Stops counted Passes (Refuses b) not_terminated

-- The arms of the loop's `match`.
arms :
    (c : ℕ)
    → (c ≡ b'.')
      ⊎ ((c ≡ 0) ⊎ (IsDigit c ⊎ (IsNameStart c ⊎ ((c ≢ b'.') × (c ≢ 0) × (¬ IsNameChar c)))))
arms c = ground arith

module _ (b : Bytes) where
  abbrev from : ℕ × ℕ → Bytes → Result InterfaceError InterfaceName
  from (prev, periods) = scan b prev (periods % 2 ^ 32)

  refuses :
      (s : ℕ × ℕ) (c : ℕ) (rest : Bytes) (e : InterfaceError)
      → Refuses b s c e
      → from s (c ∷ rest) ≡ err e
  unfolding scan
  refuses (prev, periods) c rest e h = ground arith

  passes :
      (s : ℕ × ℕ) (c : ℕ) (rest : Bytes) → Passes s c → from s (c ∷ rest) ≡ from (counted s c) rest
  unfolding scan
  passes (prev, periods) c rest h = ground arith

  ends : (s : ℕ × ℕ) → from s [] ≡ err not_terminated
  unfolding scan
  ends (prev, periods) = refl

  module _ (prev periods c : ℕ) (rest : Bytes) (e : InterfaceError)
      (h : scan b prev (periods % 2 ^ 32) (c ∷ rest) ≡ err e) where
    -- One more round, from which an error comes.
    abbrev Next : Type 0
    Next =
        (Passes (prev, periods) c × (from (counted (prev, periods) c) rest ≡ err e))
        ⊎ Refuses b (prev, periods) c e

    at_period : c ≡ b'.' → Next
    unfolding scan
    at_period arm = ground arith

    at_nul : c ≡ 0 → Next
    unfolding scan
    at_nul arm = ground arith

    at_digit : IsDigit c → Next
    unfolding scan
    at_digit arm = ground arith

    at_start : IsNameStart c → Next
    unfolding scan
    at_start arm = ground arith

    at_bad : c ≢ b'.' → c ≢ 0 → ¬ IsNameChar c → Next
    at_bad period nul bad =
        let refused : Refuses b (prev, periods) c bad_character =
          inr (inr (inr (inr (period, nul, bad, refl)))) in
        let same : ◌≡◌ {A = Result InterfaceError InterfaceName} (err e) (err bad_character) =
          sym h ∙ refuses (prev, periods) c rest bad_character refused in
        inr (inr (inr (inr (inr (period, nul, bad, cc)))))

    by_arm : Next
    by_arm = elim (arms c) [
      | inl arm ↦ at_period arm
      | inr (inl arm) ↦ at_nul arm
      | inr (inr (inl arm)) ↦ at_digit arm
      | inr (inr (inr (inl arm))) ↦ at_start arm
      | inr (inr (inr (inr (period, nul, bad)))) ↦ at_bad period nul bad
    ]

  splits :
      (s : ℕ × ℕ) (c : ℕ) (rest : Bytes) (e : InterfaceError)
      → from s (c ∷ rest) ≡ err e
      → (Passes s c × (from (counted s c) rest ≡ err e)) ⊎ Refuses b s c e
  splits (prev, periods) c rest e h = by_arm prev periods c rest e h

  scan-NameStops :
      (s : ℕ × ℕ) (rest : Bytes) (e : InterfaceError) → from s rest ≡ err e → NameStops b s rest e
  scan-NameStops =
      run-Stops counted Passes (Refuses b) not_terminated from ends passes refuses splits

  NameStops-scan :
      (s : ℕ × ℕ) (rest : Bytes) (e : InterfaceError) → NameStops b s rest e → from s rest ≡ err e
  NameStops-scan = Stops-run counted Passes (Refuses b) not_terminated from ends passes refuses

-- The slice is empty, begins with a byte that no name begins with, or the loop stops behind that byte.
abbrev pub IsRefused : Bytes → InterfaceError → Type 0
IsRefused b e =
    ((b ≡ []) × (e ≡ no_character))
    ⊎ ((c : ℕ) × (s : Bytes) × (b ≡ c ∷ s)
        × (((c ≡ b'.') × (e ≡ leading_period))
            ⊎ (((c ≢ b'.') × (¬ IsNameStart c) × (e ≡ bad_start))
                ⊎ (IsNameStart c × NameStops b (c, 0) s e))))

-- What `match b[0]` does.
abbrev Entered : ℕ → Bytes → InterfaceError → Type 0
Entered c s e =
    ((c ≡ b'.') × (e ≡ leading_period))
    ⊎ (((c ≢ b'.') × (¬ IsNameStart c) × (e ≡ bad_start))
        ⊎ (IsNameStart c × (scan (c ∷ s) c 0 s ≡ err e)))

module _ (c : ℕ) (s : Bytes) {e : InterfaceError} where
  enter : from_bytes (c ∷ s) ≡ err e → Entered c s e
  unfolding from_bytes
  enter h = ground arith

  Entered-enter : Entered c s e → from_bytes (c ∷ s) ≡ err e
  unfolding from_bytes
  Entered-enter h = ground arith

refused→IsRefused : (b : Bytes) {e : InterfaceError} → from_bytes b ≡ err e → IsRefused b e
refused→IsRefused [] h = inl (refl, unfold from_bytes in cc)
refused→IsRefused (c ∷ s) {e} h = inr (
  c,
  s,
  refl,
  elim (enter c s h) [
    | inl z ↦ inl z
    | inr (inl z) ↦ inr (inl z)
    | inr (inr (arm, loop)) ↦ inr (inr (arm, scan-NameStops (c ∷ s) (c, 0) s e loop))
  ],
)

IsRefused→refused : (b : Bytes) {e : InterfaceError} → IsRefused b e → from_bytes b ≡ err e
IsRefused→refused b (inl (z, e)) = rw (z, e) (unfold from_bytes in ground arith)
IsRefused→refused b {e} (inr (c, s, at, why)) = rw at (Entered-enter c s (again (rw at at why)))
  where
    again :
        ((c ≡ b'.') × (e ≡ leading_period))
          ⊎ (((c ≢ b'.') × (¬ IsNameStart c) × (e ≡ bad_start))
              ⊎ (IsNameStart c × NameStops (c ∷ s) (c, 0) s e))
        → Entered c s e
    again (inl z) = inl z
    again (inr (inl z)) = inr (inl z)
    again (inr (inr (arm, stops))) = inr (inr (arm, NameStops-scan (c ∷ s) (c, 0) s e stops))

-- `InterfaceName::from_bytes` refuses a slice with the message of the first thing that is wrong with it:
-- that it is empty, then its first byte, and then the first byte behind that at which an element is empty or
-- begins with a digit, or at which the name ends with a period or without one, or that is no character of a
-- name; if there is none, and no '\0', the slice is not terminated. The periods are counted in 32 bits, and
-- a name without one is one whose count is not above 0.
pub interface_error_iff : (b : Bytes) (e : InterfaceError) → (from_bytes b ≡ err e) ↔ IsRefused b e
interface_error_iff b e = (refused→IsRefused b, IsRefused→refused b)
