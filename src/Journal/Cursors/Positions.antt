-- ===== src/Journal/Cursors/Positions.antt =====
-- `seek` and `cursor` of src/journal.rs over a journal that is a list of entries.
use rust_systemd.Base.{
  List, [], ◌∷◌, ◌++◌, none, some, Bytes, ◌≡◌, refl, arith, ap, ◌∙◌, ◌⊎◌, inl, inr, false,
}
use rust_systemd.Base.Int.{ℤ, pos}
use rust_systemd.Ffi.{Machine, Outcome, returns, fails, raw_os_error, has_nul, ffi_result}
use rust_systemd.Ffi.Heap.{IsSound}
use rust_systemd.Journal.{Journal, JournalSeek, head, tail, cursor, position, current_cursor, seek}
use rust_systemd.Journal.Library.{SdJournal}
use rust_systemd.Journal.Seek.{asked, moved_on, position-cursor}
use rust_systemd.Journal.Cursors.{Entry, Ordered}

first_entry : (es : List Entry) → ((e : Entry) × (fs : List Entry) × (es ≡ e ∷ fs)) ⊎ (es ≡ [])
first_entry [] = inr refl
first_entry (e ∷ es) = inl (e, es, refl)

module _ {W : Type 0} (lib : SdJournal W) (self : Journal) (ordered : Ordered lib self) where
  open ordered use {entries, on, ahead}

  current_cursor-on :
      (e : Entry) (s : Machine W)
      → on s.world ≡ some e
      → (current_cursor lib self s).0 ≡ returns e.entry_cursor
  unfolding current_cursor
  current_cursor-on e s h =
      let (given, read) = ordered.on_entry s.world e h in rw (given, read) refl

  current_cursor-off :
      (s : Machine W)
      → on s.world ≡ none
      → (current_cursor lib self s).0 ≡ fails (raw_os_error (pos 99))
  unfolding current_cursor
  current_cursor-off s h = let (given, _, _) = ordered.off_entry s.world h in ground arith

  module _ (to : JournalSeek) (s t : Machine W) {r : ℤ}
      (there : position lib self to s ≡ (returns r, t)) (off : on t.world ≡ none) where
    -- In front of an entry, `seek` gives the cursor of that.
    seek-before :
        (e : Entry) (es : List Entry)
        → ahead t.world ≡ e ∷ es
        → (seek lib self to s).0 ≡ returns e.entry_cursor
    seek-before e es h =
        let (answer, _, kept) = ordered.off_entry t.world off in
        let (n, went, lands) = ordered.advances (asked lib self to s t).1 e es (kept ∙ h) in
        elim (moved_on lib self to s t (λ z. cc) there) [
          | inl (_, _, same) ↦ rw same (current_cursor-on e _ lands)
          | inr (_, bad, _) ↦ absurd cc
        ]

    -- Behind the last one, it has none to give.
    seek-behind : ahead t.world ≡ [] → (seek lib self to s).0 ≡ fails (raw_os_error (pos 99))
    seek-behind h =
        let (answer, still, kept) = ordered.off_entry t.world off in
        let (went, stays) = ordered.at_last (asked lib self to s t).1 (kept ∙ h) in
        elim (moved_on lib self to s t (λ z. cc) there) [
          | inl (_, _, same) ↦ rw same (current_cursor-off _ (stays ∙ still))
          | inr (_, bad, _) ↦ absurd cc
        ]

  position-head :
      (s : Machine W)
      → position lib self head s
        ≡ (returns (pos 0), record s { world = (lib.sd_journal_seek_head self.j s.world).1 })
  unfolding position
  position-head s = let (moves, _, _) = ordered.heads s.world in ground arith

  position-tail :
      (s : Machine W)
      → position lib self tail s
        ≡ (returns (pos 0), record s { world = (lib.sd_journal_seek_tail self.j s.world).1 })
  unfolding position
  position-tail s = let (moves, _, _) = ordered.tails s.world in ground arith

  answered :
      {t : Machine W} {ret : ℤ}
      → ret ≡ pos 0
      → ◌≡◌ {A = Outcome ℤ × Machine W} (ffi_result ret, t) (returns (pos 0), t)
  unfolding ffi_result
  answered h = rw h refl

  -- In a journal with entries, `seek` to the head gives the cursor of the oldest entry, whatever the
  -- position was; in an empty one it fails with EADDRNOTAVAIL. To the tail, behind which C finds no entry
  -- to move on to, it fails with EADDRNOTAVAIL in any journal.
  pub seek_ends :
      (s : Machine W)
      → (((e : Entry) × (es : List Entry) × (entries s.world ≡ e ∷ es)
            × ((seek lib self head s).0 ≡ returns e.entry_cursor))
          ⊎ ((entries s.world ≡ []) × ((seek lib self head s).0 ≡ fails (raw_os_error (pos 99)))))
        × ((seek lib self tail s).0 ≡ fails (raw_os_error (pos 99)))
  seek_ends s =
      let (_, off, all) = ordered.heads s.world in
      let (_, off', none_left) = ordered.tails s.world in
      (
        elim (first_entry (entries s.world)) [
          | inl (e, es, h) ↦
              inl (e, es, h, seek-before head s _ (position-head s) off e es (all ∙ h))
          | inr h ↦ inr (h, seek-behind head s _ (position-head s) off (all ∙ h))
        ],
        seek-behind tail s _ (position-tail s) off' none_left,
      )

  -- A cursor that `cursor` gave of an entry is found again: `seek` to it, from any position and at any
  -- time at which the journal still has the entry, gives the same cursor. This holds where a cursor has no
  -- '\0', the memory is sound, and C finds entries by their cursors.
  pub seek-current_cursor :
      (e : Entry) (xs ys : List Entry) (s r : Machine W)
      → on s.world ≡ some e
      → entries r.world ≡ xs ++ e ∷ ys
      → IsSound r.memory
      → has_nul e.entry_cursor ≡ false
      → (c : Bytes) × ((current_cursor lib self s).0 ≡ returns c)
        × ((seek lib self (cursor c) r).0 ≡ returns c)
  seek-current_cursor e xs ys s r here listed sound plain =
      let (moves, off, (f, fs, before, same)) = ordered.finds r.world xs ys e listed in
      let there = position-cursor lib self e.entry_cursor r sound plain in
      (
        e.entry_cursor,
        current_cursor-on e s here,
        seek-before (cursor e.entry_cursor) r _ (there ∙ answered moves) off f fs before
            ∙ ap returns same,
      )
