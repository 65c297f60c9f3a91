-- ===== src/Journal/Cursors.antt =====
-- A journal as a list of entries with cursors and a read pointer, on which `seek` and `cursor` of
-- src/journal.rs are stated.
pub mod Positions
use rust_systemd.Base.{ℕ, suc, List, [], ◌∷◌, ◌++◌, Option, none, some, Bytes, ◌≡◌}
use rust_systemd.Base.Int.{ℤ, pos, negsuc}
use rust_systemd.Ffi.Heap.{at}
use rust_systemd.Journal.{Journal}
use rust_systemd.Journal.Library.{SdJournal}

-- An entry, of which only the cursor matters here.
pub record Entry : Type 0 where
  pub entry_cursor : Bytes

-- sd_journal_seek_head(3), sd_journal_next(3) and sd_journal_get_cursor(3): the entries, oldest first,
-- the one that the read pointer is on, and those behind the pointer. A seek only puts the pointer in front
-- of an entry; `next` moves it onto that; off an entry there is no cursor, which is EADDRNOTAVAIL.
pub record Ordered {W : Type 0} (lib : SdJournal W) (self : Journal) : Type 0 where
  pub entries : W → List Entry
  pub on : W → Option Entry
  pub ahead : W → List Entry
  pub heads :
      (w : W)
      → ((lib.sd_journal_seek_head self.j w).0 ≡ pos 0)
        × (on (lib.sd_journal_seek_head self.j w).1 ≡ none)
        × (ahead (lib.sd_journal_seek_head self.j w).1 ≡ entries w)
  pub tails :
      (w : W)
      → ((lib.sd_journal_seek_tail self.j w).0 ≡ pos 0)
        × (on (lib.sd_journal_seek_tail self.j w).1 ≡ none)
        × (ahead (lib.sd_journal_seek_tail self.j w).1 ≡ [])
  pub finds :
      (w : W) (xs ys : List Entry) (e : Entry)
      → entries w ≡ xs ++ e ∷ ys
      → ((lib.sd_journal_seek_cursor self.j (at (e.entry_cursor ++ 0 ∷ [])) w).0 ≡ pos 0)
        × (on (lib.sd_journal_seek_cursor self.j (at (e.entry_cursor ++ 0 ∷ [])) w).1 ≡ none)
        × ((f : Entry) × (fs : List Entry) × (ahead
                (lib.sd_journal_seek_cursor self.j (at (e.entry_cursor ++ 0 ∷ [])) w).1
              ≡ f ∷ fs)
            × (f.entry_cursor ≡ e.entry_cursor))
  pub advances :
      (w : W) (e : Entry) (es : List Entry)
      → ahead w ≡ e ∷ es
      → (n : ℕ) × ((lib.sd_journal_next self.j w).0 ≡ pos (suc n))
        × (on (lib.sd_journal_next self.j w).1 ≡ some e)
  pub at_last :
      (w : W)
      → ahead w ≡ []
      → ((lib.sd_journal_next self.j w).0 ≡ pos 0) × (on (lib.sd_journal_next self.j w).1 ≡ on w)
  pub on_entry :
      (w : W) (e : Entry)
      → on w ≡ some e
      → ((lib.sd_journal_get_cursor self.j w).0 ≡ (pos 0, some e.entry_cursor))
        × (lib.mstring_from_raw (some e.entry_cursor) ≡ some e.entry_cursor)
  pub off_entry :
      (w : W)
      → on w ≡ none
      → ((lib.sd_journal_get_cursor self.j w).0.0 ≡ negsuc 98)
        × (on (lib.sd_journal_get_cursor self.j w).1 ≡ none)
        × (ahead (lib.sd_journal_get_cursor self.j w).1 ≡ ahead w)
