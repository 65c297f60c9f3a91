-- ===== src/Journal/Seek.antt =====
-- `Journal::seek` and `Journal::cursor` of src/journal.rs.
use rust_systemd.Base.{
  ℕ, suc, ◌+◌, ◌≡◌, ◌≢◌, ◌⊎◌, inl, inr, true, false, Option, [], ◌∷◌, ◌++◌, arith, Bytes,
}
use rust_systemd.Base.Int.{ℤ-cases, ℤ, pos, negsuc, neg_c_int}
use rust_systemd.Ffi.{
  IoError, ffi_result, returns, fails, raw_os_error, nul_error, Machine, has_nul,
}
use rust_systemd.Ffi.Heap.{IsSound, at, view-alloc, release-alloc}
use rust_systemd.Journal.Library.{SdJournal}
use rust_systemd.Journal.{Journal, JournalSeek, cursor, position, current_cursor, seek, realigned}

module _ {W : Type 0} (lib : SdJournal W) (self : Journal) (to : JournalSeek)
    (s t : Machine W) where
  -- The first answer about the cursor, after the position is set.
  abbrev pub asked : (ℤ × Option Bytes) × W
  asked = lib.sd_journal_get_cursor self.j t.world

  -- The answer to the move to the next entry, after that.
  abbrev pub moved : ℤ × W
  moved = lib.sd_journal_next self.j asked.1

  seek_positioned :
      {r : ℤ}
      → position lib self to s ≡ (returns r, t)
      → seek lib self to s ≡ realigned lib self asked.0 (record t { world = asked.1 })
  unfolding seek
  seek_positioned h = rw h

  first_read :
      {r : ℤ}
      → asked.0.0 ≡ pos 0
      → position lib self to s ≡ (returns r, t)
      → seek lib self to s ≡ current_cursor lib self t
  unfolding realigned
  first_read e h = rw (seek_positioned h) (unfold current_cursor in ground arith)

  pub moved_on :
      {r : ℤ}
      → asked.0.0 ≢ pos 0
      → position lib self to s ≡ (returns r, t)
      → ((n : ℕ) × (moved.0 ≡ pos n)
          × (seek lib self to s ≡ current_cursor lib self (record t { world = moved.1 })))
        ⊎ ((n : ℕ) × (moved.0 ≡ negsuc n)
            × (seek lib self to s
                ≡ (fails (raw_os_error (neg_c_int (negsuc n))), record t { world = moved.1 })))
  unfolding realigned
  moved_on ne h = elim (ℤ-cases moved.0) [
    | inl (n, e) ↦ inl (suc n, e, rw (seek_positioned h) (ground arith))
    | inr (inl e) ↦ inl (0, e, rw (seek_positioned h) (ground arith))
    | inr (inr (n, e)) ↦ inr (n, e, rw (seek_positioned h) (ground arith))
  ]

  -- Once the position is set, `seek` does what `cursor` does there if C answers 0 about the cursor; if
  -- not, what `cursor` does after a move to the next entry, or fails with the error of that move.
  pub seek-eq-cursor :
      {r : ℤ}
      → position lib self to s ≡ (returns r, t)
      → ((asked.0.0 ≡ pos 0) × (seek lib self to s ≡ current_cursor lib self t))
        ⊎ ((asked.0.0 ≢ pos 0)
            × (((n : ℕ) × (moved.0 ≡ pos n)
                  × (seek lib self to s ≡ current_cursor lib self (record t { world = moved.1 })))
                ⊎ ((n : ℕ) × (moved.0 ≡ negsuc n)
                    × (seek lib self to s ≡ (
                      fails (raw_os_error (neg_c_int (negsuc n))),
                      record t { world = moved.1 },
                    )))))
  seek-eq-cursor h = elim (ℤ-cases asked.0.0) [
    | inl (n, e) ↦ inr (λ z. cc, moved_on (λ z. cc) h)
    | inr (inl e) ↦ inl (e, first_read e h)
    | inr (inr (n, e)) ↦ inr (λ z. cc, moved_on (λ z. cc) h)
  ]

  -- An error on the way to the position is the error of `seek`, and nothing else is called.
  pub seek_fails :
      (e : IoError) → position lib self to s ≡ (fails e, t) → seek lib self to s ≡ (fails e, t)
  unfolding seek
  seek_fails e h = rw h

module _ {W : Type 0} (lib : SdJournal W) (self : Journal) (text : Bytes) (s : Machine W) where
  -- The answer about a cursor that can be read at the call.
  abbrev pub sought : ℤ × W
  sought = lib.sd_journal_seek_cursor self.j (at (text ++ 0 ∷ [])) s.world

  -- In a sound memory, `seek` gives a cursor without '\0' to the C function as a string that can be read
  -- at the call and is freed after it, and the return value decides the result.
  pub position-cursor :
      IsSound s.memory
      → has_nul text ≡ false
      → position lib self (cursor text) s ≡ (
        ffi_result sought.0,
        record { memory = record s.memory { next = s.memory.next + 1 }; world = sought.1 },
      )
  unfolding position
  position-cursor sound plain = rw plain (
      ground (
        arith,
        view-alloc (text ++ 0 ∷ []) s.memory sound,
        release-alloc (text ++ 0 ∷ []) s.memory sound,
      ))

  -- One with '\0' is an error, and nothing is called.
  pub position-has_nul :
      has_nul text ≡ true → position lib self (cursor text) s ≡ (fails nul_error, s)
  unfolding position
  position-has_nul nul = rw nul
