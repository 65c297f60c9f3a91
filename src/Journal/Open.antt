-- ===== src/Journal/Open.antt =====
-- What `Journal::open` of src/journal.rs asks for.
use rust_systemd.Base.{ℕ, ◌+◌, ◌*◌, ◌≡◌, Bool, true, false, arith, refl}
use rust_systemd.Journal.{JournalFiles, system, current_user, all, open_flags}

abbrev pub bit : Bool → ℕ
bit true = 1
bit false = 0

abbrev pub is_system : JournalFiles → Bool
is_system system = true
is_system _ = false

abbrev pub is_current_user : JournalFiles → Bool
is_current_user current_user = true
is_current_user _ = false

-- The flags of `open` have one bit for each thing that is asked for, and no other: bit 0 for local
-- entries only, bit 1 for this boot only, bit 2 for the system's files and bit 3 for the user's, neither
-- of which is set for all files.
pub open_flags_bits :
    (files : JournalFiles) (runtime_only local_only : Bool)
    → open_flags files runtime_only local_only
      ≡ bit local_only
        + 2 * bit runtime_only
        + 4 * bit (is_system files)
        + 8 * bit (is_current_user files)
unfolding open_flags
open_flags_bits system true true = refl
open_flags_bits system true false = refl
open_flags_bits system false true = refl
open_flags_bits system false false = refl
open_flags_bits current_user true true = refl
open_flags_bits current_user true false = refl
open_flags_bits current_user false true = refl
open_flags_bits current_user false false = refl
open_flags_bits all true true = refl
open_flags_bits all true false = refl
open_flags_bits all false true = refl
open_flags_bits all false false = refl

-- Two calls of `open` with the same flags have the same arguments.
pub open_flags_unique :
    (f g : JournalFiles) (r s l m : Bool)
    → open_flags f r l ≡ open_flags g s m
    → (f ≡ g) × (r ≡ s) × (l ≡ m)
open_flags_unique f g r s l m e = ground (arith, open_flags_bits f r l, open_flags_bits g s m)
