-- ===== src/Journal/Records.antt =====
-- Reading a whole journal with src/journal.rs: loops of `get_next_field` and `previous_record`, over a
-- journal that is a list of entries.
pub mod Backwards
use rust_systemd.Base.{
  ℕ, zero, suc, List, [], ◌∷◌, ◌++◌, Option, none, some, Bytes, ◌≡◌, ◌<◌, map, length, All, Lacks,
  if◌then◌else◌,
}
use rust_systemd.Base.Int.{ℤ, pos}
use rust_systemd.Ffi.{Eff, pure, ◌>>=◌, ◌>>◌}
use rust_systemd.Journal.{Journal, get_next_field, previous_record}
use rust_systemd.Journal.Library.{SdJournal}

abbrev pub Field : Type 0
Field = Bytes × Bytes

-- The data that C hands out for a field.
abbrev pub data_of : Field → Bytes
data_of (name, value) = name ++ b'=' ∷ value

-- The first '=' of the data is the one behind the name.
abbrev pub IsNamed : Field → Type 0
IsNamed f = Lacks b'=' f.0

-- sd_journal_previous(3) and sd_journal_enumerate_data(3): the entries in front of the position, the
-- nearest first, the data of the entry that it is on, and what is still to be enumerated of that.
pub record Holds {W : Type 0} (lib : SdJournal W) (self : Journal) : Type 0 where
  pub before : W → List (List Bytes)
  pub entry : W → List Bytes
  pub left : W → List Bytes
  pub goes_back :
      (w : W) (e : List Bytes) (es : List (List Bytes))
      → before w ≡ e ∷ es
      → (n : ℕ) × ((lib.sd_journal_previous self.j w).0 ≡ pos (suc n))
        × (before (lib.sd_journal_previous self.j w).1 ≡ es)
        × (entry (lib.sd_journal_previous self.j w).1 ≡ e)
  pub at_first : (w : W) → before w ≡ [] → (lib.sd_journal_previous self.j w).0 ≡ pos 0
  pub restarts :
      (w : W)
      → (left (lib.sd_journal_restart_data self.j w).1 ≡ entry w)
        × (before (lib.sd_journal_restart_data self.j w).1 ≡ before w)
  pub enumerates :
      (w : W) (d : Bytes) (ds : List Bytes)
      → left w ≡ d ∷ ds
      → (n : ℕ) × ((lib.sd_journal_enumerate_data self.j w).0 ≡ (pos (suc n), d))
        × (left (lib.sd_journal_enumerate_data self.j w).1 ≡ ds)
        × (before (lib.sd_journal_enumerate_data self.j w).1 ≡ before w)
  pub exhausted :
      (w : W)
      → left w ≡ []
      → ((lib.sd_journal_enumerate_data self.j w).0.0 ≡ pos 0)
        × (before (lib.sd_journal_enumerate_data self.j w).1 ≡ before w)

module _ {W : Type 0} (lib : SdJournal W) (self : Journal) where
  -- `while let Some(f) = try!(j.get_next_field()) { .. }`; `none` if the fuel runs out.
  pub all_fields : ℕ → Eff W (Option (List Field))
  unfolding ◌>>=◌
  all_fields zero = pure none
  all_fields (suc fuel) = do
    r ← get_next_field lib self
    elim r [
      | none ↦ pure (some [])
      | some f ↦ (do fs ← all_fields fuel; pure (elim fs [ none ↦ none | some l ↦ some (f ∷ l) ]))
    ]

  -- `while let Some(_) = try!(j.previous_record()) { .. }`, with all fields of each record,
  -- of which there are fewer than `width`.
  pub all_records : ℕ → ℕ → Eff W (Option (List (List Field)))
  unfolding all_fields ◌>>=◌
  all_records width zero = pure none
  all_records width (suc fuel) = do
    r ← previous_record lib self
    elim r [
      | none ↦ pure (some [])
      | some _ ↦ (do
        fs ← all_fields width
        rs ← all_records width fuel
        pure (elim fs [ none ↦ none | some l ↦ elim rs [ none ↦ none | some ls ↦ some (l ∷ ls) ] ]))
    ]
