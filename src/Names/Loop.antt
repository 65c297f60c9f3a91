-- ===== src/Names/Loop.antt =====
-- The loops of the name checks of src/bus/mod.rs: bytes are passed one by one, until one is refused or the
-- slice ends.
use rust_systemd.Base.{
  ℕ, ◌≡◌, ◌⊎◌, inl, inr, [], ◌∷◌, ◌++◌, Bytes, Result, err, refl, ap, sym, ◌∙◌, append-nil,
}

-- `next` is what the loop keeps of a byte that it passed, and `open_end` the error behind the last one.
module _ {S E : Type 0} (next : S → ℕ → S) (Passes : S → ℕ → Type 0) (Refuses : S → ℕ → E → Type 0)
    (open_end : E) where
  abbrev pub PassesAll : S → Bytes → Type 0
  PassesAll s [] = Unit
  PassesAll s (c ∷ cs) = Passes s c × PassesAll (next s c) cs

  abbrev pub behind : S → Bytes → S
  behind s [] = s
  behind s (c ∷ cs) = behind (next s c) cs

  -- The end of the slice, or the first byte that is refused.
  abbrev pub Stops : S → Bytes → E → Type 0
  Stops s rest e =
      (PassesAll s rest × (e ≡ open_end))
      ⊎ ((xs : Bytes) × (c : ℕ) × (ys : Bytes) × (rest ≡ xs ++ c ∷ ys)
          × PassesAll s xs
          × Refuses (behind s xs) c e)

  module _ {A : Type 0} (run : S → Bytes → Result E A) (ends : (s : S) → run s [] ≡ err open_end)
      (passes : (s : S) (c : ℕ) (cs : Bytes) → Passes s c → run s (c ∷ cs) ≡ run (next s c) cs)
      (refuses : (s : S) (c : ℕ) (cs : Bytes) (e : E)
        → Refuses s c e
        → run s (c ∷ cs) ≡ err e) where
    run-PassesAll :
        (s : S) (xs ys : Bytes) → PassesAll s xs → run s (xs ++ ys) ≡ run (behind s xs) ys
    run-PassesAll s [] ys h = refl
    run-PassesAll s (c ∷ xs) ys (h, hs) =
        passes s c (xs ++ ys) h ∙ run-PassesAll (next s c) xs ys hs

    -- A loop that stops gives that error.
    pub Stops-run : (s : S) (rest : Bytes) (e : E) → Stops s rest e → run s rest ≡ err e
    Stops-run s rest e (inl (h, z)) =
        ap (run s) (sym (append-nil rest))
        ∙ run-PassesAll s rest [] h
        ∙ ends (behind s rest)
        ∙ ap err (sym z)
    Stops-run s rest e (inr (xs, c, ys, at, h, refused)) =
        ap (run s) at ∙ run-PassesAll s xs (c ∷ ys) h ∙ refuses (behind s xs) c ys e refused

    -- If an error comes from a byte that is refused or from the rest behind one that is passed, the loop
    -- has stopped where an error came.
    pub run-Stops :
        ((s : S) (c : ℕ) (cs : Bytes) (e : E)
          → run s (c ∷ cs) ≡ err e
          → (Passes s c × (run (next s c) cs ≡ err e)) ⊎ Refuses s c e)
        → (s : S) (rest : Bytes) (e : E) → run s rest ≡ err e
        → Stops s rest e
    run-Stops splits s [] e h = inl (tt, let z = ends s in cc)
    run-Stops splits s (c ∷ cs) e h = elim (splits s c cs e h) [
      | inr refused ↦ inr ([], c, cs, refl, tt, refused)
      | inl (passed, later) ↦ elim (run-Stops splits (next s c) cs e later) [
        | inl (all, z) ↦ inl ((passed, all), z)
        | inr (xs, d, ys, at, clean, refused) ↦
            inr (c ∷ xs, d, ys, ap {B = Bytes} (λ (s : Bytes). c ∷ s) at, (passed, clean), refused)
      ]
    ]
