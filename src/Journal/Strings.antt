-- ===== src/Journal/Strings.antt =====
-- The C string of `Journal::seek` of src/journal.rs: it is freed on every way out.
use rust_systemd.Base.{ℕ, Bool, true, false, Bytes, Option, if◌then◌else◌}
use rust_systemd.Base.Int.{ℤ}
use rust_systemd.Ffi.{Eff, owning, new_c_string, lift, ◌>>=◌, fails, nul_error}
use rust_systemd.Ffi.Scoped.{IsScoped, scoping, new_c_string-IsScoped, fails-IsScoped}
use rust_systemd.Journal.Library.{SdJournal}
use rust_systemd.Journal.{
  Journal, JournalSeek, head, current, tail, clock_monotonic, clock_realtime, cursor, position,
  current_cursor, realigned, seek, try_c_string,
}

module _ {W A : Type 0} (k : ℕ → Eff W A) (inside : (p : ℕ) → IsScoped (k p)) where
  refuse_or_make-IsScoped :
      (b : Bool) (text : Bytes)
      → IsScoped ((if b then lift (fails nul_error) else new_c_string text) >>= λ c. owning c (k c))
  refuse_or_make-IsScoped true text = fails-IsScoped nul_error (λ c. owning c (k c))
  refuse_or_make-IsScoped false text = new_c_string-IsScoped text k inside

module _ {W : Type 0} (lib : SdJournal W) (self : Journal) where
  position-IsScoped : (to : JournalSeek) → IsScoped (position lib self to)
  unfolding position try_c_string
  position-IsScoped head = search scoping
  position-IsScoped current = search scoping
  position-IsScoped tail = search scoping
  position-IsScoped (clock_monotonic id usec) = search scoping
  position-IsScoped (clock_realtime usec) = search scoping
  position-IsScoped (cursor text) = search (scoping, refuse_or_make-IsScoped)

  current_cursor-IsScoped : IsScoped (current_cursor lib self)
  unfolding current_cursor
  current_cursor-IsScoped = search scoping

  realigned-IsScoped : (a : ℤ × Option Bytes) → IsScoped (realigned lib self a)
  unfolding realigned
  realigned-IsScoped (ret, c) = search (scoping, current_cursor-IsScoped)

  pub seek-IsScoped : (to : JournalSeek) → IsScoped (seek lib self to)
  unfolding seek
  seek-IsScoped to = search (scoping, position-IsScoped, realigned-IsScoped)
