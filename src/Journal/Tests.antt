-- ===== src/Journal/Tests.antt =====
-- Runs of src/journal.rs on a concrete journal, and instances of the theorems.
mod Records
mod Cursors
use rust_systemd.Base.{
  ℕ, zero, suc, ◌+◌, ◌*◌, List, [], ◌∷◌, ◌++◌, ◌≡◌, ◌≢◌, ◌↔◌, ◌⊎◌, Bytes, codes, refl, none, some,
  Lacks, arith, true, false,
}
use rust_systemd.Base.Int.{ℤ, pos, negsuc, neg_c_int}
use rust_systemd.Ffi.{
  IoError, Machine, returns, fails, panics, unwrap_none, has_nul, ffi_result, raw_os_error,
}
use rust_systemd.Ffi.Heap.{IsSound}
use rust_systemd.Journal.Library.{SdJournal}
use rust_systemd.Journal.{
  Journal, system, tail, cursor, open_flags, get_next_field, previous_record, position,
  current_cursor, seek,
}
use rust_systemd.Journal.Open.{open_flags_bits, bit, is_system, is_current_user}
use rust_systemd.Journal.Fields.{answer, field, get_next_field_lem, stepped, previous_record_lem}
use rust_systemd.Journal.Seek.{asked, moved, sought, seek-eq-cursor, position-cursor}

-- Entries before the position, and the data that is still to be enumerated.
record World : Type 0 where
  before : ℕ
  data_left : List Bytes

abbrev enumerate : World → (ℤ × Bytes) × World
enumerate w = elim w.data_left [
  | [] ↦ ((pos 0, []), w)
  | d ∷ rest ↦ ((pos 1, d), record w { data_left = rest })
]

abbrev step_back : World → ℤ × World
step_back w = elim w.before [ zero ↦ (pos 0, w) | suc n ↦ (pos 1, record w { before = n }) ]

abbrev test_lib : SdJournal World
test_lib = record {
  sd_journal_open = λ flags w. ((pos 0, 5), w);
  sd_journal_enumerate_data = λ j w. enumerate w;
  sd_journal_restart_data = λ j w. (tt, record w { data_left = codes "A=1=2" ∷ codes "bad" ∷ [] });
  sd_journal_previous = λ j w. step_back w;
  sd_journal_next = λ j w. (pos 1, w);
  sd_journal_seek_head = λ j w. (pos 0, record w { before = 0 });
  sd_journal_seek_tail = λ j w. (pos 0, record w { before = 3 });
  sd_journal_seek_monotonic_usec = λ j id usec w. (pos 0, w);
  sd_journal_seek_realtime_usec = λ j usec w. (pos 0, w);
  sd_journal_seek_cursor = λ j text w. (pos 0, w);
  sd_journal_get_cursor = λ j w. ((pos 0, some (codes "s=1")), w);
  mstring_from_raw = λ text. text;
}

abbrev self : Journal
self = record { j = 5 }

abbrev start : Machine World
start = record {
  memory = record { next = 1; live = [] };
  world = record { before = 1; data_left = codes "A=1=2" ∷ codes "bad" ∷ [] };
}

-- At the end of the first field.
abbrev at_bad : Machine World
at_bad = record start { world = record { before = 1; data_left = codes "bad" ∷ [] } }

first_field : (get_next_field test_lib self start).0 ≡ returns (some (codes "A", codes "1=2"))
unfolding get_next_field
first_field = refl

seek_tail : (seek test_lib self tail start).0 ≡ returns (codes "s=1")
unfolding seek position
seek_tail = refl

abbrev an_errno : IoError
an_errno = raw_os_error (pos 5)

get_next_field_lem_example :
    (((get_next_field test_lib self at_bad).0 ≡ returns (some (codes "A", codes "1=2"))) ↔ (
      Lacks b'=' (codes "A")
      × (field test_lib self at_bad ≡ codes "A" ++ b'=' ∷ codes "1=2")
      × ((n : ℕ) × (answer test_lib self at_bad ≡ pos (suc n)))))
    × (((get_next_field test_lib self at_bad).0 ≡ returns none)
        ↔ (answer test_lib self at_bad ≡ pos 0))
    × (((get_next_field test_lib self at_bad).0 ≡ fails an_errno) ↔ (
        (n : ℕ) × (answer test_lib self at_bad ≡ negsuc n)
        × (an_errno ≡ raw_os_error (neg_c_int (negsuc n)))))
    × (((get_next_field test_lib self at_bad).0 ≡ panics unwrap_none) ↔ (
        Lacks b'=' (field test_lib self at_bad)
        × ((n : ℕ) × (answer test_lib self at_bad ≡ pos (suc n)))))
get_next_field_lem_example =
    get_next_field_lem test_lib self at_bad (codes "A") (codes "1=2") an_errno

abbrev at_tail : Machine World
at_tail = record start {
  world = record { before = 3; data_left = codes "A=1=2" ∷ codes "bad" ∷ [] };
}

tail_position : position test_lib self tail start ≡ (returns (pos 0), at_tail)
unfolding position
tail_position = refl

start-IsSound : IsSound start.memory
start-IsSound = record { positive = omega arith; handed_out = tt }

no_nul : has_nul (codes "s=1") ≡ false
unfolding has_nul
no_nul = refl
