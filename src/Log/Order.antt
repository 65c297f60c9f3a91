-- ===== src/Log/Order.antt =====
-- The order in which the block of `log_with!` in src/lib.rs evaluates what it was given.
use rust_systemd.Base.{◌≡◌, ◌⊎◌, inl, inr, ◌↔◌, Option, some, List, refl, ◌∙◌}
use rust_systemd.Ffi.{Eff, Machine, Outcome, IoError, Panic, returns, fails, panics, ◌>>=◌}
use rust_systemd.Log.{TokenTree, LogLocation, Logger, block, log_with}
use rust_systemd.Log.Expansion.{log_with_iff, Expands}

-- The first fails or panics, and the second ends the same way in the same state.
abbrev pub Stopped : {W A B : Type 0} → Outcome A × Machine W → Outcome B × Machine W → Type 0
Stopped x r =
    ((e : IoError) × (x.0 ≡ fails e) × (r ≡ (fails e, x.1)))
    ⊎ ((p : Panic) × (x.0 ≡ panics p) × (r ≡ (panics p, x.1)))

-- `x` stopped, or it returned a value with which `Next` holds.
abbrev pub Then :
    {W A B : Type 0} → Outcome A × Machine W → Outcome B × Machine W → (A → Type 0) → Type 0
Then {A} x r Next = Stopped x r ⊎ ((a : A) × (x.0 ≡ returns a) × Next a)

Outcome-cases :
    {A : Type 0} (o : Outcome A)
    → ((a : A) × (o ≡ returns a))
      ⊎ (((e : IoError) × (o ≡ fails e)) ⊎ ((p : Panic) × (o ≡ panics p)))
Outcome-cases (returns a) = inl (a, refl)
Outcome-cases (fails e) = inr (inl (e, refl))
Outcome-cases (panics p) = inr (inr (p, refl))

-- What follows from the rest of a chain follows from the chain, unless its first part stops.
bind-Then :
    {W A B : Type 0} (m : Eff W A) (k : A → Eff W B) (s : Machine W) {r : Outcome B × Machine W}
    (Next : A → Type 0)
    → r ≡ (m >>= k) s
    → ((a : A) → r ≡ k a (m s).1 → Next a)
    → Then (m s) r Next
unfolding ◌>>=◌
bind-Then m k s Next whole rest = elim (Outcome-cases (m s).0) [
  | inl (a, h) ↦ inr (a, h, rest a (whole ∙ rw h refl))
  | inr (inl (e, h)) ↦ inl (inl (e, h, whole ∙ rw h refl))
  | inr (inr (p, h)) ↦ inl (inr (p, h, whole ∙ rw h refl))
]

module _ {W Level Arguments Output : Type 0}
    (format_args : List TokenTree → Option (Eff W Arguments)) (here : LogLocation)
    (func : Eff W (Logger W Level Arguments Output)) (level : Eff W Level) where
  -- The level, then the function, then the arguments; then one call.
  abbrev pub Ran : Eff W Arguments → Machine W → Outcome Output × Machine W → Type 0
  Ran arguments s r = Then (level s) r (λ lvl. Then (func (level s).1) r (λ f.
      Then (arguments (func (level s).1).1) r
        (λ args. r ≡ f lvl here args (arguments (func (level s).1).1).1)))

  block-Ran :
      (arguments : Eff W Arguments) (s : Machine W)
      → Ran arguments s (block format_args here func level arguments s)
  unfolding block
  block-Ran arguments s = bind-Then level _ s _ refl (λ lvl e₁.
      bind-Then func _ (level s).1 _ e₁
        (λ f e₂. bind-Then arguments _ (func (level s).1).1 _ e₂ (λ args e₃. e₃)))

  -- `log_with!` expands exactly if its arguments are token trees with a comma between two, at least one,
  -- which `format_args!` takes; the expansion hands them on as they are written. The block evaluates the level
  -- once, then the function, then the arguments, and calls the function once, with the level, the place of the
  -- macro and the arguments, whatever the level is; if one of the three fails or panics, so does the block,
  -- and nothing behind it is evaluated.
  pub log_with_lem :
      (tokens : List TokenTree) (e : Eff W Output) (arguments : Eff W Arguments) (s : Machine W)
      → ((log_with format_args here func level tokens ≡ some e)
          ↔ Expands format_args here func level tokens e)
        × Ran arguments s (block format_args here func level arguments s)
  log_with_lem tokens e arguments s =
      (log_with_iff format_args here func level tokens e, block-Ran arguments s)
