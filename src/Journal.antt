-- ===== src/Journal.antt =====
-- src/journal.rs: reading the journal, over sd-journal(3).
pub mod Library
pub mod Open
pub mod Fields
pub mod Seek
pub mod Records
pub mod Strings
pub mod Cursors
mod Tests
use rust_systemd.Base.{
  ℕ, zero, suc, ◌+◌, ◌-◌, ◌*◌, ◌/◌, ◌%◌, ◌^◌, ◌≤◌, ◌<◌, ◌≡◌, ◌≢◌, ◌⊎◌, inl, inr, ◌↔◌, Bool, true,
  false, not, ◌&&◌, ◌||◌, Option, none, some, List, [], ◌∷◌, ◌++◌, arith, Bytes, ◌==◌, ltb,
  ltb-eq-false, if◌then◌else◌, All, length, length-append, Result, ok, err, refl, c_codes, codes,
  ap, sym, subst, ◌∙◌, append_assoc, map,
}
use Prim.Native.Nat.{bit_or}
use rust_systemd.Base.Int.{ℤ, pos, is_nonzero}
use rust_systemd.Ffi.{
  Outcome, returns, fails, panics, unwrap_none, nul_error, custom, invalid_data, Eff, pure, lift,
  owning, call, call_with, has_nul, new_c_string, ffi_result, sd_try, ◌>>=◌, ◌>>◌,
}
use rust_systemd.Id128.{Id128, as_bytes}
use Library.{
  SdJournal, sd_journal_local_only, sd_journal_runtime_only, sd_journal_system,
  sd_journal_current_user,
}

pub record Journal : Type 0 where
  pub j : ℕ

pub data JournalFiles : Type 0 where
  system current_user all : JournalFiles

pub data JournalSeek : Type 0 where
  head current tail : JournalSeek
  clock_monotonic : Id128 → ℕ → JournalSeek
  clock_realtime : ℕ → JournalSeek
  cursor : Bytes → JournalSeek

-- `flags |= match files { .. }`
files_flag : JournalFiles → ℕ
files_flag system = sd_journal_system
files_flag current_user = sd_journal_current_user
files_flag all = 0

-- The flags that `Journal::open` computes.
unfoldable pub open_flags : JournalFiles → Bool → Bool → ℕ
unfolding files_flag
open_flags files runtime_only local_only =
    let flags : ℕ = 0 in
    let flags' = if runtime_only then bit_or flags sd_journal_runtime_only else flags in
    let flags'' = if local_only then bit_or flags' sd_journal_local_only else flags' in
    bit_or flags'' (files_flag files)

-- `field.splitn(2, '=')`: the text before the first '=' and the text behind it, or the whole text.
unfoldable pub split_field : Bytes → Bytes × Option Bytes
split_field [] = ([], none)
split_field (c ∷ s) =
    let (name, value) = split_field s in if c == b'=' then ([], some s) else (c ∷ name, value)

-- `name_value.next().unwrap()`, twice.
field_of : Bytes × Option Bytes → Outcome (Option (Bytes × Bytes))
field_of (name, some value) = returns (some (name, value))
field_of (name, none) = panics unwrap_none

-- `sd_try!(..) > 0`
is_positive : ℤ → Bool
is_positive (pos (suc n)) = true
is_positive _ = false

-- `cs.or(Err(io::Error::new(InvalidData, "invalid cursor")))` and `to_string()`
cursor_string : Option Bytes → Outcome Bytes
cursor_string (some text) = returns text
cursor_string none = fails (custom invalid_data (codes "invalid cursor"))

module _ {W : Type 0} where
  -- `try!(CString::new(cursor))`
  try_c_string : Bytes → Eff W ℕ
  unfolding new_c_string
  try_c_string text = if has_nul text then lift (fails nul_error) else new_c_string text

module _ {W : Type 0} (lib : SdJournal W) where
  unfoldable pub open_journal : JournalFiles → Bool → Bool → Eff W Journal
  unfolding call ffi_result ◌>>=◌ open_flags
  open_journal files runtime_only local_only = do
    (ret, j) ← call (lib.sd_journal_open (pos (open_flags files runtime_only local_only)))
    lift (ffi_result ret)
    pure (record { j = j })

  unfoldable pub get_next_field : Journal → Eff W (Option (Bytes × Bytes))
  unfolding call ffi_result ◌>>=◌ is_positive field_of split_field
  get_next_field self = do
    (ret, field) ← call (lib.sd_journal_enumerate_data self.j)
    r ← lift (ffi_result ret)
    if is_positive r then lift (field_of (split_field field)) else pure none

  unfoldable pub previous_record : Journal → Eff W (Option ℤ)
  unfolding sd_try call
  previous_record self = do
    r ← sd_try (call (lib.sd_journal_previous self.j))
    call (lib.sd_journal_restart_data self.j)
    pure (if is_nonzero r then some r else none)

  -- The `match seek` of `seek`.
  unfoldable pub position : Journal → JournalSeek → Eff W ℤ
  unfolding sd_try call call_with try_c_string owning
  position self head = sd_try (call (lib.sd_journal_seek_head self.j))
  position self current = pure (pos 0)
  position self tail = sd_try (call (lib.sd_journal_seek_tail self.j))
  position self (clock_monotonic boot_id usec) =
      sd_try (call (lib.sd_journal_seek_monotonic_usec self.j (as_bytes boot_id) usec))
  position self (clock_realtime usec) =
      sd_try (call (lib.sd_journal_seek_realtime_usec self.j usec))
  position self (cursor text) = do
    c ← try_c_string text
    owning c (sd_try (call_with (lib.sd_journal_seek_cursor self.j) c))

  -- `sd_try!(sd_journal_get_cursor(self.j, &c))` and what follows it, in `seek` and in `cursor`.
  unfoldable pub current_cursor : Journal → Eff W Bytes
  unfolding call ffi_result ◌>>=◌ cursor_string
  current_cursor self = do
    (ret, c) ← call (lib.sd_journal_get_cursor self.j)
    lift (ffi_result ret)
    lift (cursor_string (lib.mstring_from_raw c))

  -- The cursor that the first call wrote, or after an error the one of the next entry.
  realigned : Journal → ℤ × Option Bytes → Eff W Bytes
  unfolding sd_try call current_cursor cursor_string
  realigned self (ret, c) =
      if is_nonzero ret
      then (sd_try (call (lib.sd_journal_next self.j)) >> current_cursor self)
      else lift (cursor_string (lib.mstring_from_raw c))

  unfoldable pub seek : Journal → JournalSeek → Eff W Bytes
  unfolding call ◌>>=◌ realigned
  seek self to = do
    position self to
    first ← call (lib.sd_journal_get_cursor self.j)
    realigned self first
