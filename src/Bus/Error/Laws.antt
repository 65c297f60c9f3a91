-- ===== src/Bus/Error/Laws.antt =====
-- What an `Error` of src/bus/mod.rs tells of the texts that it was made from.
use rust_systemd.Base.{
  ℕ, ◌+◌, ◌-◌, ◌≡◌, false, none, some, [], ◌∷◌, ◌++◌, arith, Bytes, ◌==◌, Lacks, take-append,
  length, ap, sym, subst,
}
use rust_systemd.Ffi.Heap.{Memory, at, view}
use rust_systemd.Names.CStr.{up_to_nul-append}
use rust_systemd.Bus.Library.{SdError, Utf8CStr, from_raw_parts, c_text, text_of, IsUtf8CStr}
use rust_systemd.Bus.RawError
use rust_systemd.Bus.RawError.{RawError, ptr_or_null}
use rust_systemd.Bus.Error.{Error, from_raw, new, name, message, description}

-- sd_bus_error_set(3) on an error that is not set: the strings are copied, and no message stays none.
pub record CopiesStrings (lib : SdError) : Type 0 where
  pub copies_name :
      (n p : ℕ) (m : Memory) (b : Bytes)
      → view m n ≡ at (b ++ 0 ∷ [])
      → view
          (lib.sd_bus_error_set RawError.default.inner n p m).1
          (lib.sd_bus_error_set RawError.default.inner n p m).0.name
        ≡ at (b ++ 0 ∷ [])
  pub copies_message :
      (n p : ℕ) (m : Memory) (b : Bytes)
      → view m p ≡ at (b ++ 0 ∷ [])
      → view
          (lib.sd_bus_error_set RawError.default.inner n p m).1
          (lib.sd_bus_error_set RawError.default.inner n p m).0.message
        ≡ at (b ++ 0 ∷ [])
  pub keeps_null :
      (n : ℕ) (m : Memory) → (lib.sd_bus_error_set RawError.default.inner n 0 m).0.message ≡ 0

pub c_text-at : (b : Bytes) → Lacks 0 b → c_text (at (b ++ 0 ∷ [])) ≡ some b
unfolding c_text
c_text-at b h = ap (λ (x : Bytes). some x) (up_to_nul-append b [] h)

less_one : (n : ℕ) → n + 1 - 1 ≡ n
less_one n = omega arith

pub text_of-parts :
    (m : Memory) (p n : ℕ) (b : Bytes)
    → view m p ≡ at (b ++ 0 ∷ [])
    → n ≡ length b
    → text_of m (from_raw_parts p (n + 1)) ≡ some b
unfolding text_of
text_of-parts m p n b stands measured =
    rw (stands, less_one n, measured) (ap (λ (x : Bytes). some x) (take-append b (0 ∷ [])))

pub not_null : (m : Memory) (p : ℕ) (b : Bytes) → view m p ≡ at b → (p == 0) ≡ false
unfolding view
not_null m p b h = ground arith

pub description-message : (e : Error) (z : Utf8CStr) → message e ≡ some z → description e ≡ z
unfolding description
description-message e z h = ground arith

pub description-no_message : (e : Error) → message e ≡ none → description e ≡ name e
unfolding description
description-no_message e h = ground arith

module _ (lib : SdError) (copies : CopiesStrings lib) (m : Memory) (x : Utf8CStr) (n : Bytes)
    (named : IsUtf8CStr m x n) where
  -- A new error without a message has the name's text and no message, it is described by its name, and
  -- it is what `from_raw` makes of its C part; this holds where `sd_bus_error_set` copies its strings.
  pub new_without_message :
      (text_of (new lib x none m).1 (name (new lib x none m).0) ≡ some n)
      × (message (new lib x none m).0 ≡ none)
      × (text_of (new lib x none m).1 (description (new lib x none m).0) ≡ some n)
      × (from_raw (new lib x none m).0.raw (new lib x none m).1 ≡ some (new lib x none m).0)
  unfolding new name message description from_raw
  new_without_message =
      let stands = copies.copies_name x.ptr 0 m n named.stands in
      let none_there = copies.keeps_null x.ptr m in
      let text = text_of-parts _ _ x.len n stands named.measured in
      (
        text,
        rw none_there,
        rw none_there text,
        rw (none_there, stands, c_text-at n named.no_nul, named.measured),
      )

  -- A new error with a message has both texts, it is described by its message, and it is what `from_raw`
  -- makes of its C part; this holds where `sd_bus_error_set` copies its strings.
  pub new_with_message :
      (y : Utf8CStr) (t : Bytes)
      → IsUtf8CStr m y t
      → (text_of (new lib x (some y) m).1 (name (new lib x (some y) m).0) ≡ some n)
        × ((z : Utf8CStr) × (message (new lib x (some y) m).0 ≡ some z)
            × (text_of (new lib x (some y) m).1 z ≡ some t))
        × (text_of (new lib x (some y) m).1 (description (new lib x (some y) m).0) ≡ some t)
        × (from_raw (new lib x (some y) m).0.raw (new lib x (some y) m).1
            ≡ some (new lib x (some y) m).0)
  unfolding new name message from_raw
  new_with_message y t told =
      let stands = copies.copies_name x.ptr y.ptr m n named.stands in
      let stands' = copies.copies_message x.ptr y.ptr m t told.stands in
      let there = not_null _ _ _ stands' in
      let text = text_of-parts _ _ y.len t stands' told.measured in
      let z : Utf8CStr = from_raw_parts (new lib x (some y) m).0.raw.inner.message (y.len + 1) in
      let has_message : message (new lib x (some y) m).0 ≡ some z = rw (there, message) in
      (
        text_of-parts _ _ x.len n stands named.measured,
        (z, has_message, text),
        subst (λ d. text_of (new lib x (some y) m).1 d ≡ some t)
            (sym (description-message _ z has_message)) text,
        rw (
          there,
          stands,
          stands',
          c_text-at n named.no_nul,
          c_text-at t told.no_nul,
          named.measured,
          told.measured,
        ),
      )
