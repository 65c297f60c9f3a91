-- ===== src/Names/BusName/Errors.antt =====
-- Which message `BusName::from_bytes` of src/bus/mod.rs refuses a slice with.
use rust_systemd.Base.{
  ℕ, ◌+◌, ◌%◌, ◌^◌, ◌<◌, ◌≤◌, ◌≡◌, ◌≢◌, ◌⊎◌, inl, inr, ◌↔◌, Bool, true, false, [], ◌∷◌, arith,
  Bytes, length, err, Result, refl, sym, ◌∙◌, ◌==◌, if◌then◌else◌,
}
use rust_systemd.Names.Chars.{IsBusChar, IsBusStart, IsDigit}
use rust_systemd.Names.Counter.{IsBelowOne}
use rust_systemd.Names.Loop.{Stops, run-Stops, Stops-run}
use rust_systemd.Names.BusName.{
  BusName, BusNameError, no_character, too_long, leading_period, bad_start, empty_element,
  leading_digit, trailing_period, one_element, bad_character, not_terminated, scan, from_first,
  from_bytes,
}
use rust_systemd.Names.BusName.Grammar.{IsStart}

-- The byte in front of the next one, and how many periods the loop has passed.
abbrev pub counted : ℕ × ℕ → ℕ → ℕ × ℕ
counted (prev, periods) c = (c, if c == b'.' then periods + 1 else periods)

-- A byte that the loop passes behind `prev`: a period behind an element, or a character that may stand
-- there.
abbrev pub Passes : Bool → ℕ × ℕ → ℕ → Type 0
Passes u (prev, _) c =
    ((c ≡ b'.') × (prev ≢ b'.') × (prev ≢ b':')) ⊎ (IsBusChar c × ((prev ≢ b'.') ⊎ IsStart u c))

-- What a byte is refused with behind `prev` and `periods`, in the slice `b`.
abbrev pub Refuses : Bytes → Bool → ℕ × ℕ → ℕ → BusNameError → Type 0
Refuses b u (prev, periods) c e =
    ((c ≡ b'.') × ((prev ≡ b'.') ⊎ (prev ≡ b':')) × (e ≡ empty_element))
    ⊎ ((IsDigit c × (prev ≡ b'.') × (u ≡ false) × (e ≡ leading_digit))
        ⊎ (((c ≡ 0) × (prev ≡ b'.') × (length b ≢ 1) × (e ≡ trailing_period))
            ⊎ (((c ≡ 0)
                  × ((prev ≢ b'.') ⊎ (length b ≡ 1))
                  × IsBelowOne (periods % 2 ^ 32)
                  × (e ≡ one_element))
                ⊎ ((c ≢ b'.') × (c ≢ 0) × (¬ IsBusChar c) × (e ≡ bad_character)))))

abbrev pub NameStops : Bytes → Bool → ℕ × ℕ → Bytes → BusNameError → Type 0
NameStops b u = Stops counted (Passes u) (Refuses b u) not_terminated

-- The arms of the loop's `match`.
arms :
    (c : ℕ)
    → (c ≡ b'.')
      ⊎ ((c ≡ 0) ⊎ (IsDigit c ⊎ (IsBusStart c ⊎ ((c ≢ b'.') × (c ≢ 0) × (¬ IsBusChar c)))))
arms c = ground arith

module _ (b : Bytes) (u : Bool) where
  abbrev from : ℕ × ℕ → Bytes → Result BusNameError BusName
  from (prev, periods) = scan b u prev (periods % 2 ^ 32)

  refuses :
      (s : ℕ × ℕ) (c : ℕ) (rest : Bytes) (e : BusNameError)
      → Refuses b u s c e
      → from s (c ∷ rest) ≡ err e
  unfolding scan
  refuses (prev, periods) c rest e h = ground arith

  passes :
      (s : ℕ × ℕ) (c : ℕ) (rest : Bytes)
      → Passes u s c
      → from s (c ∷ rest) ≡ from (counted s c) rest
  unfolding scan
  passes (prev, periods) c rest h = ground arith

  ends : (s : ℕ × ℕ) → from s [] ≡ err not_terminated
  unfolding scan
  ends (prev, periods) = refl

  module _ (prev periods c : ℕ) (rest : Bytes) (e : BusNameError)
      (h : scan b u prev (periods % 2 ^ 32) (c ∷ rest) ≡ err e) where
    -- One more round, from which an error comes.
    abbrev Next : Type 0
    Next =
        (Passes u (prev, periods) c × (from (counted (prev, periods) c) rest ≡ err e))
        ⊎ Refuses b u (prev, periods) c e

    at_period : c ≡ b'.' → Next
    unfolding scan
    at_period arm = ground arith

    at_nul : c ≡ 0 → Next
    unfolding scan
    at_nul arm = ground arith

    at_digit : IsDigit c → Next
    unfolding scan
    at_digit arm = ground arith

    at_start : IsBusStart c → Next
    unfolding scan
    at_start arm = ground arith

    at_bad : c ≢ b'.' → c ≢ 0 → ¬ IsBusChar c → Next
    at_bad period nul bad =
        let refused : Refuses b u (prev, periods) c bad_character =
          inr (inr (inr (inr (period, nul, bad, refl)))) in
        let same : ◌≡◌ {A = Result BusNameError BusName} (err e) (err bad_character) =
          sym h ∙ refuses (prev, periods) c rest bad_character refused in
        inr (inr (inr (inr (inr (period, nul, bad, cc)))))

    by_arm : Next
    by_arm = elim (arms c) [
      | inl arm ↦ at_period arm
      | inr (inl arm) ↦ at_nul arm
      | inr (inr (inl arm)) ↦ at_digit arm
      | inr (inr (inr (inl arm))) ↦ at_start arm
      | inr (inr (inr (inr (period, nul, bad)))) ↦ at_bad period nul bad
    ]

  splits :
      (s : ℕ × ℕ) (c : ℕ) (rest : Bytes) (e : BusNameError)
      → from s (c ∷ rest) ≡ err e
      → (Passes u s c × (from (counted s c) rest ≡ err e)) ⊎ Refuses b u s c e
  splits (prev, periods) c rest e h = by_arm prev periods c rest e h

  scan-NameStops :
      (s : ℕ × ℕ) (rest : Bytes) (e : BusNameError) → from s rest ≡ err e → NameStops b u s rest e
  scan-NameStops =
      run-Stops counted (Passes u) (Refuses b u) not_terminated from ends passes refuses splits

  NameStops-scan :
      (s : ℕ × ℕ) (rest : Bytes) (e : BusNameError) → NameStops b u s rest e → from s rest ≡ err e
  NameStops-scan =
      Stops-run counted (Passes u) (Refuses b u) not_terminated from ends passes refuses

-- The slice is empty or longer than 256 bytes, begins with a byte that no name begins with, or the loop
-- stops behind the first byte, which is a colon in a unique name.
abbrev pub IsRefused : Bytes → BusNameError → Type 0
IsRefused b e =
    ((b ≡ []) × (e ≡ no_character))
    ⊎ (((256 < length b) × (e ≡ too_long))
        ⊎ ((c : ℕ) × (s : Bytes) × (b ≡ c ∷ s)
            × (length b ≤ 256)
            × (((c ≡ b'.') × (e ≡ leading_period))
                ⊎ (((c ≢ b'.') × (¬ IsBusStart c) × (c ≢ b':') × (e ≡ bad_start))
                    ⊎ ((IsBusStart c × NameStops b false (c, 0) s e)
                        ⊎ ((c ≡ b':') × NameStops b true (c, 0) s e))))))

-- What `match b[0]` does with a slice that is not too long.
abbrev Entered : ℕ → Bytes → BusNameError → Type 0
Entered c s e =
    ((c ≡ b'.') × (e ≡ leading_period))
    ⊎ (((c ≢ b'.') × (¬ IsBusStart c) × (c ≢ b':') × (e ≡ bad_start))
        ⊎ ((IsBusStart c × (scan (c ∷ s) false c 0 s ≡ err e))
            ⊎ ((c ≡ b':') × (scan (c ∷ s) true c 0 s ≡ err e))))

first_arms :
    (c : ℕ)
    → (c ≡ b'.') ⊎ ((c ≡ b':') ⊎ (IsBusStart c ⊎ ((c ≢ b'.') × (¬ IsBusStart c) × (c ≢ b':'))))
first_arms c = ground arith

module _ (c : ℕ) (s : Bytes) {e : BusNameError} where
  enter : from_first c s ≡ err e → Entered c s e
  unfolding from_first
  enter h = elim (first_arms c) [
    | inl arm ↦ ground arith
    | inr (inl arm) ↦ ground arith
    | inr (inr (inl arm)) ↦ ground arith
    | inr (inr (inr (period, start, colon))) ↦ ground arith
  ]

  Entered-enter : Entered c s e → from_first c s ≡ err e
  unfolding from_first
  Entered-enter h = ground arith

  open_slice :
      from_bytes (c ∷ s) ≡ err e
      → ((256 < length (c ∷ s)) × (e ≡ too_long))
        ⊎ ((length (c ∷ s) ≤ 256) × (from_first c s ≡ err e))
  unfolding from_bytes
  open_slice h = ground arith

  long : 256 < length (c ∷ s) → e ≡ too_long → from_bytes (c ∷ s) ≡ err e
  unfolding from_bytes
  long h z = ground arith

  short : length (c ∷ s) ≤ 256 → from_first c s ≡ err e → from_bytes (c ∷ s) ≡ err e
  unfolding from_bytes
  short h z = ground arith

refused→IsRefused : (b : Bytes) {e : BusNameError} → from_bytes b ≡ err e → IsRefused b e
refused→IsRefused [] h = inl (refl, unfold from_bytes in cc)
refused→IsRefused (c ∷ s) {e} h = elim (open_slice c s h) [
  | inl over ↦ inr (inl over)
  | inr (fits, first) ↦ inr (
      inr (
        c,
        s,
        refl,
        fits,
        elim (enter c s first) [
          | inl z ↦ inl z
          | inr (inl z) ↦ inr (inl z)
          | inr (inr (inl (arm, loop))) ↦
              inr (inr (inl (arm, scan-NameStops (c ∷ s) false (c, 0) s e loop)))
          | inr (inr (inr (arm, loop))) ↦
              inr (inr (inr (arm, scan-NameStops (c ∷ s) true (c, 0) s e loop)))
        ],
      ))
]

IsRefused→refused : (b : Bytes) {e : BusNameError} → IsRefused b e → from_bytes b ≡ err e
IsRefused→refused [] (inl (_, e)) = unfold from_bytes in rw e refl
IsRefused→refused (c ∷ s) (inl (z, e)) = absurd cc
IsRefused→refused [] (inr (inl (z, e))) = absurd (omega arith)
IsRefused→refused (c ∷ s) (inr (inl (z, e))) = long c s z e
IsRefused→refused b {e} (inr (inr (c, s, at, fits, why))) =
    rw at (short c s (rw at at fits) (Entered-enter c s (again (rw at at why))))
  where
    again :
        ((c ≡ b'.') × (e ≡ leading_period))
          ⊎ (((c ≢ b'.') × (¬ IsBusStart c) × (c ≢ b':') × (e ≡ bad_start))
              ⊎ ((IsBusStart c × NameStops (c ∷ s) false (c, 0) s e)
                  ⊎ ((c ≡ b':') × NameStops (c ∷ s) true (c, 0) s e)))
        → Entered c s e
    again (inl z) = inl z
    again (inr (inl z)) = inr (inl z)
    again (inr (inr (inl (arm, stops)))) =
        inr (inr (inl (arm, NameStops-scan (c ∷ s) false (c, 0) s e stops)))
    again (inr (inr (inr (arm, stops)))) =
        inr (inr (inr (arm, NameStops-scan (c ∷ s) true (c, 0) s e stops)))

-- `BusName::from_bytes` refuses a slice with the message of the first thing that is wrong with it: that it
-- is empty, or longer than 256 bytes, then its first byte, and then the first byte behind that at which an
-- element is empty, or begins with a digit in a name that is not unique, or at which the name ends with a
-- period or without one, or that is no character of a name; if there is none, and no '\0', the slice is not
-- terminated. The periods are counted in 32 bits.
pub bus_name_error_iff : (b : Bytes) (e : BusNameError) → (from_bytes b ≡ err e) ↔ IsRefused b e
bus_name_error_iff b e = (refused→IsRefused b, IsRefused→refused b)
