-- ===== src/Journal/Records/Backwards.antt =====
-- A loop over a journal with src/journal.rs ends, and has read every record, the last one first.
use rust_systemd.Base.{
  ℕ, zero, suc, ◌<◌, List, [], ◌∷◌, none, some, Bytes, ◌≡◌, refl, ap, ◌∙◌, map, length, All, arith,
}
use rust_systemd.Base.Int.{ℤ, pos}
use rust_systemd.Ffi.{Machine, returns}
use rust_systemd.Journal.{Journal, get_next_field, previous_record}
use rust_systemd.Journal.Library.{SdJournal}
use rust_systemd.Journal.Fields.{get_next_field_iff, get_next_field-none}
use rust_systemd.Journal.Records.{Field, data_of, IsNamed, Holds, all_fields, all_records}

-- Entries as C keeps them.
abbrev pub stored : List (List Field) → List (List Bytes)
stored = map (λ fs. map data_of fs)

module _ {W : Type 0} (lib : SdJournal W) (self : Journal) (s : Machine W) where
  next-world :
      (get_next_field lib self s).1.world ≡ (lib.sd_journal_enumerate_data self.j s.world).1
  unfolding get_next_field
  next-world = ground arith

  previous-none :
      (lib.sd_journal_previous self.j s.world).0 ≡ pos 0
      → (previous_record lib self s).0 ≡ returns none
  unfolding previous_record
  previous-none e = ground arith

  previous-some :
      (n : ℕ)
      → (lib.sd_journal_previous self.j s.world).0 ≡ pos (suc n)
      → ((previous_record lib self s).0 ≡ returns (some (pos (suc n))))
        × ((previous_record lib self s).1.world
            ≡ (lib.sd_journal_restart_data self.j (lib.sd_journal_previous self.j s.world).1).1)
  unfolding previous_record
  previous-some n e = (ground arith, ground arith)

module _ {W : Type 0} (lib : SdJournal W) (self : Journal) (holds : Holds lib self) where
  open holds use {before, entry, left}

  all_fields_lem :
      (fs : List Field) (fuel : ℕ) (s : Machine W)
      → length fs < fuel
      → All IsNamed fs
      → left s.world ≡ map data_of fs
      → ((all_fields lib self fuel s).0 ≡ returns (some fs))
        × (before (all_fields lib self fuel s).1.world ≡ before s.world)
  unfolding all_fields
  all_fields_lem fs zero s enough named e = absurd (omega arith)
  all_fields_lem [] (suc fuel) s enough named e =
      let (over, kept) = holds.exhausted s.world e in
      let ended = (get_next_field-none lib self s).1 over in
      (rw ended refl, rw ended (ap before (next-world lib self s) ∙ kept))
  all_fields_lem ((name, value) ∷ fs) (suc fuel) s enough (lacks, named) e =
      let (n, answer, remain, kept) =
        holds.enumerates s.world (data_of (name, value)) (map data_of fs) e in
      let given =
        (get_next_field_iff lib self s name value).1
          (lacks, ap (λ (x : ℤ × Bytes). x.1) answer, (n, ap (λ (x : ℤ × Bytes). x.0) answer)) in
      let here = next-world lib self s in
      let (rest, kept') =
        all_fields_lem fs fuel (get_next_field lib self s).1 (omega arith) named
          (ap left here ∙ remain) in
      (rw (given, rest) refl, rw (given, rest) (kept' ∙ ap before here ∙ kept))

  -- The loop over `previous_record`, with the loop over `get_next_field` in each record, ends if the fuel
  -- of the outer is more than the number of entries in front of the position and that of the inner more
  -- than the number of fields of each. It has then read every field of every one of those entries, the
  -- nearest entry first. This holds where each field has '=' behind a name without '=', and C goes through
  -- entries and fields as documented.
  pub all_records_lem :
      (es : List (List Field)) (width fuel : ℕ) (s : Machine W)
      → length es < fuel
      → All (λ (fs : List Field). length fs < width) es
      → All (All IsNamed) es
      → before s.world ≡ stored es
      → (all_records lib self width fuel s).0 ≡ returns (some es)
  unfolding all_records
  all_records_lem es width zero s enough narrow named e = absurd (omega arith)
  all_records_lem [] width (suc fuel) s enough narrow named e =
      rw (previous-none lib self s (holds.at_first s.world e)) refl
  all_records_lem (fs ∷ es) width (suc fuel) s enough (short, narrow) (ok_fields, named) e =
      let (n, moved, back, on) = holds.goes_back s.world (map data_of fs) (stored es) e in
      let (given, here) = previous-some lib self s n moved in
      let (anew, kept) = holds.restarts (lib.sd_journal_previous self.j s.world).1 in
      let after = (previous_record lib self s).1 in
      let (read, kept') =
        all_fields_lem fs width after short ok_fields (ap left here ∙ anew ∙ on) in
      let rest =
        all_records_lem es width fuel (all_fields lib self width after).1 (omega arith) narrow named
          (kept' ∙ ap before here ∙ kept ∙ back) in
      rw (given, read, rest) refl
