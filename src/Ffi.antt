-- ===== src/Ffi.antt =====
-- The layer between the wrappers and libsystemd: `ffi_result`, `sd_try!` and `char_or_null!` of
-- src/lib.rs, over a machine state that holds the C strings and the state behind the C functions.
mod Errors
pub mod Heap
pub mod Answers
pub mod Scoped
pub use Errors.*
use rust_systemd.Base.{
  ℕ, zero, suc, ◌+◌, ◌≤◌, ◌<◌, ◌≡◌, ◌≢◌, ◌⊎◌, inl, inr, ◌↔◌, Bool, true, false, not, ◌&&◌, ◌||◌,
  Option, none, some, List, [], ◌∷◌, ◌++◌, arith, Bytes, ◌==◌, ltb, if◌then◌else◌, All, length,
  length-append, Result, ok, err, refl, c_codes, codes, ap, sym, subst, ◌∙◌, append_assoc,
}
use rust_systemd.Base.Int.{ℤ, is_negative, neg_c_int}
use Heap.{Memory, CArg, view, alloc, release}

-- `W` is all that the C functions keep: the bus, the journal, the kernel.
pub record Machine (W : Type 0) : Type 0 where
  pub memory : Memory
  pub world : W

abbrev pub Eff : Type 0 → Type 0 → Type 0
Eff W A = Machine W → Outcome A × Machine W

-- `Error::from_raw_os_error(-ret)` for a negative return value.
unfoldable pub ffi_result : ℤ → Outcome ℤ
ffi_result ret = if is_negative ret then fails (raw_os_error (neg_c_int ret)) else returns ret

-- `CString::new(s.as_bytes())`: the bytes with '\0', unless they hold one.
unfoldable pub has_nul : Bytes → Bool
has_nul [] = false
has_nul (c ∷ s) = c == 0 || has_nul s

module _ {W A : Type 0} where
  pub pure : A → Eff W A
  pure a s = (returns a, s)

  pub lift : Outcome A → Eff W A
  lift r s = (r, s)

  -- The end of the scope that owns the string at `p`, on every way out.
  unfoldable pub owning : ℕ → Eff W A → Eff W A
  owning p m s = let (r, s') = m s in (r, record s' { memory = release p s'.memory })

module _ {W A B : Type 0} where
  abbrev continue : Outcome A → (A → Eff W B) → Eff W B
  continue (returns a) f s = f a s
  continue (fails e) f s = (fails e, s)
  continue (panics p) f s = (panics p, s)

  infixl 10 ◌>>=◌ ◌>>◌
  unfoldable pub ◌>>=◌ : Eff W A → (A → Eff W B) → Eff W B
  unfolding pure lift
  ◌>>=◌ m f s = let (r, s') = m s in continue r f s'

  abbrev pub ◌>>◌ : Eff W A → Eff W B → Eff W B
  m >> n = m >>= λ _. n

module _ {W : Type 0} where
  -- A call of a C function, with an out-parameter of type `A` that is written beside the return value.
  unfoldable pub call : {A : Type 0} → (W → A × W) → Eff W A
  call f s = let (a, w) = f s.world in (returns a, record s { world = w })

  -- A call that is given a `const char *`.
  unfoldable pub call_with : {A : Type 0} → (CArg → W → A × W) → ℕ → Eff W A
  call_with f p s = let (a, w) = f (view s.memory p) s.world in (returns a, record s { world = w })

  -- `sd_try!(f(..))`
  unfoldable pub sd_try : Eff W ℤ → Eff W ℤ
  unfolding ◌>>=◌ ffi_result
  sd_try m = do ret ← m; lift (ffi_result ret)

  -- `CString::new(b).unwrap()`, its address.
  unfoldable pub new_c_string : Bytes → Eff W ℕ
  unfolding has_nul
  new_c_string b s =
      if has_nul b
      then (panics unwrap_nul, s)
      else (let (p, m) = alloc (b ++ 0 ∷ []) s.memory in (returns p, record s { memory = m }))

  -- `char_or_null!(path)`: the `CString` is a temporary of the match arm, which ends before the call.
  unfoldable pub char_or_null : Option Bytes → Eff W ℕ
  unfolding new_c_string owning ◌>>=◌
  char_or_null none = pure 0
  char_or_null (some path) = do p ← new_c_string path; owning p (pure p)
