-- ===== src/Journal/Tests/Cursors.antt =====
-- A journal of entries with cursors, on which `seek` and `cursor` of src/journal.rs are tried.
use rust_systemd.Base.{
  List, [], ◌∷◌, ◌++◌, false, same_bytes, same_bytes_refl, same_bytes-eq, Bool-cases, Option, none,
  some, Bytes, ◌≡◌, ◌⊎◌, refl, codes, arith, if◌then◌else◌, inl, inr,
}
use mathlib.Core.List.{append_cancel_right}
use rust_systemd.Base.Int.{ℤ, pos, negsuc}
use rust_systemd.Ffi.{Machine, returns, fails, raw_os_error, has_nul}
use rust_systemd.Ffi.Heap.{CArg, at, IsSound}
use rust_systemd.Journal.{Journal, head, tail, cursor, seek, current_cursor}
use rust_systemd.Journal.Library.{SdJournal}
use rust_systemd.Journal.Cursors.{Entry, Ordered}
use rust_systemd.Journal.Cursors.Positions.{seek_ends, seek-current_cursor}

record Shelf : Type 0 where
  entries : List Entry
  on : Option Entry
  ahead : List Entry

-- The entries from the first one on that has the cursor.
abbrev from_cursor : Bytes → List Entry → List Entry
from_cursor b [] = []
from_cursor b (e ∷ es) =
    if same_bytes (e.entry_cursor ++ 0 ∷ []) b then e ∷ es else from_cursor b es

abbrev sought : CArg → List Entry → List Entry
sought (at b) es = from_cursor b es
sought _ es = []

abbrev forward : Shelf → ℤ × Shelf
forward w = elim w.ahead [
  | [] ↦ (pos 0, w)
  | e ∷ es ↦ (pos 1, record w { on = some e; ahead = es })
]

abbrev where_now : Shelf → (ℤ × Option Bytes) × Shelf
where_now w = elim w.on [
  | none ↦ ((negsuc 98, none), w)
  | some e ↦ ((pos 0, some e.entry_cursor), w)
]

abbrev shelf_lib : SdJournal Shelf
shelf_lib = record {
  sd_journal_open = λ flags w. ((pos 0, 5), w);
  sd_journal_enumerate_data = λ j w. ((pos 0, []), w);
  sd_journal_restart_data = λ j w. (tt, w);
  sd_journal_previous = λ j w. (pos 0, w);
  sd_journal_next = λ j w. forward w;
  sd_journal_seek_head = λ j w. (pos 0, record w { on = none; ahead = w.entries });
  sd_journal_seek_tail = λ j w. (pos 0, record w { on = none; ahead = [] });
  sd_journal_seek_monotonic_usec = λ j id usec w. (pos 0, w);
  sd_journal_seek_realtime_usec = λ j usec w. (pos 0, w);
  sd_journal_seek_cursor =
      λ j text w. (pos 0, record w { on = none; ahead = sought text w.entries });
  sd_journal_get_cursor = λ j w. where_now w;
  mstring_from_raw = λ text. text;
}

abbrev self : Journal
self = record { j = 5 }

from_cursor_lem :
    (e : Entry) (xs ys : List Entry)
    → (f : Entry) × (fs : List Entry) × (from_cursor (e.entry_cursor ++ 0 ∷ []) (xs ++ e ∷ ys)
        ≡ f ∷ fs)
      × (f.entry_cursor ≡ e.entry_cursor)
from_cursor_lem e [] ys = (e, ys, rw (same_bytes_refl (e.entry_cursor ++ 0 ∷ [])) refl, refl)
from_cursor_lem e (x ∷ xs) ys =
    let (f, fs, given, same) = from_cursor_lem e xs ys in
    elim (Bool-cases (same_bytes (x.entry_cursor ++ 0 ∷ []) (e.entry_cursor ++ 0 ∷ []))) [
      | inl h ↦ (x, xs ++ e ∷ ys, rw h refl, append_cancel_right _ _ (0 ∷ []) (same_bytes-eq _ _ h))
      | inr h ↦ (f, fs, rw h given, same)
    ]

abbrev ordered : Ordered shelf_lib self
ordered = record {
  entries = λ w. w.entries;
  on = λ w. w.on;
  ahead = λ w. w.ahead;
  heads = λ w. (refl, refl, refl);
  tails = λ w. (refl, refl, refl);
  finds = λ w xs ys e h. (refl, refl, rw h (from_cursor_lem e xs ys));
  advances = λ w e es h. (0, rw h refl, rw h refl);
  at_last = λ w h. (rw h refl, rw h refl);
  on_entry = λ w e h. (rw h refl, refl);
  off_entry = λ w h. (rw h refl, rw h refl, rw h refl);
}

abbrev first : Entry
first = record { entry_cursor = codes "s=1" }

abbrev second : Entry
second = record { entry_cursor = codes "s=2" }

-- On the second entry, and some time later in front of both.
abbrev reading : Machine Shelf
reading = record {
  memory = record { next = 1; live = [] };
  world = record { entries = first ∷ second ∷ []; on = some second; ahead = [] };
}

abbrev later : Machine Shelf
later = record {
  memory = record { next = 1; live = [] };
  world = record { entries = first ∷ second ∷ []; on = none; ahead = first ∷ second ∷ [] };
}

later-IsSound : IsSound later.memory
later-IsSound = record { positive = omega arith; handed_out = tt }

no_nul : has_nul second.entry_cursor ≡ false
unfolding has_nul
no_nul = refl

seek_ends_example :
    (((e : Entry) × (es : List Entry) × (first ∷ second ∷ [] ≡ e ∷ es)
        × ((seek shelf_lib self head reading).0 ≡ returns e.entry_cursor))
      ⊎ ((first ∷ second ∷ [] ≡ [])
          × ((seek shelf_lib self head reading).0 ≡ fails (raw_os_error (pos 99)))))
    × ((seek shelf_lib self tail reading).0 ≡ fails (raw_os_error (pos 99)))
seek_ends_example = seek_ends shelf_lib self ordered reading

seek-current_cursor_example :
    (c : Bytes) × ((current_cursor shelf_lib self reading).0 ≡ returns c)
    × ((seek shelf_lib self (cursor c) later).0 ≡ returns c)
seek-current_cursor_example =
    seek-current_cursor shelf_lib self ordered second (first ∷ []) [] reading later refl refl
      later-IsSound no_nul
