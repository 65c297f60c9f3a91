-- ===== src/Journal/Tests/Records.antt =====
-- A journal that is a list of entries, read by the loops over src/journal.rs.
use rust_systemd.Base.{List, [], ◌∷◌, none, some, Bytes, ◌≡◌, refl, codes, arith}
use rust_systemd.Base.Int.{ℤ, pos, negsuc}
use rust_systemd.Ffi.{Machine, returns}
use rust_systemd.Journal.{Journal}
use rust_systemd.Journal.Library.{SdJournal}
use rust_systemd.Journal.Records.{Field, Holds, all_records}
use rust_systemd.Journal.Records.Backwards.{stored, all_records_lem}

record Log : Type 0 where
  before : List (List Bytes)
  entry : List Bytes
  left : List Bytes

abbrev back : Log → ℤ × Log
back w = elim w.before [
  | [] ↦ (pos 0, w)
  | e ∷ es ↦ (pos 1, record { before = es; entry = e; left = [] })
]

abbrev take_field : Log → (ℤ × Bytes) × Log
take_field w = elim w.left [ [] ↦ ((pos 0, []), w) | d ∷ ds ↦ ((pos 1, d), record w { left = ds }) ]

abbrev log_lib : SdJournal Log
log_lib = record {
  sd_journal_open = λ flags w. ((pos 0, 5), w);
  sd_journal_enumerate_data = λ j w. take_field w;
  sd_journal_restart_data = λ j w. (tt, record w { left = w.entry });
  sd_journal_previous = λ j w. back w;
  sd_journal_next = λ j w. (pos 0, w);
  sd_journal_seek_head = λ j w. (pos 0, w);
  sd_journal_seek_tail = λ j w. (pos 0, w);
  sd_journal_seek_monotonic_usec = λ j id usec w. (pos 0, w);
  sd_journal_seek_realtime_usec = λ j usec w. (pos 0, w);
  sd_journal_seek_cursor = λ j text w. (pos 0, w);
  sd_journal_get_cursor = λ j w. ((negsuc 98, none), w);
  mstring_from_raw = λ text. text;
}

abbrev self : Journal
self = record { j = 5 }

abbrev holds : Holds log_lib self
holds = record {
  before = λ w. w.before;
  entry = λ w. w.entry;
  left = λ w. w.left;
  goes_back = λ w e es h. (0, rw h refl, rw h refl, rw h refl);
  at_first = λ w h. rw h refl;
  restarts = λ w. (refl, refl);
  enumerates = λ w d ds h. (0, rw h refl, rw h refl, rw h refl);
  exhausted = λ w h. (rw h refl, rw h refl);
}

abbrev two_records : List (List Field)
two_records = ((codes "A", codes "1=2") ∷ (codes "B", []) ∷ []) ∷ ((codes "C", codes "x") ∷ []) ∷ []

abbrev at_tail : Machine Log
at_tail = record {
  memory = record { next = 1; live = [] };
  world = record { before = stored two_records; entry = []; left = [] };
}

all_records_lem_example : (all_records log_lib self 5 5 at_tail).0 ≡ returns (some two_records)
all_records_lem_example =
    all_records_lem log_lib self holds two_records 5 5 at_tail (omega arith) (omega arith)
      (ground arith) refl
