-- ===== src/Bus/Tests/Ownership.antt =====
-- A program over src/bus/mod.rs that makes an error, copies it, hands it to C and drops the copy.
use rust_systemd.Base.{
  Bool, true, false, not, ◌&&◌, ◌==◌, Bool-cases, inl, inr, ℕ, ◌+◌, ◌-◌, ◌≡◌, refl, [], ◌∷◌, List,
  Bytes, none, arith, if◌then◌else◌,
}
use rust_systemd.Base.Int.{ℤ, pos, is_nonzero}
use rust_systemd.Ffi.Heap.{Memory}
use rust_systemd.Bus.Library.{SdBusError, SdError, Utf8CStr}
use rust_systemd.Bus.RawError
use rust_systemd.Bus.RawError.{RawError}
use rust_systemd.Bus.Error
use rust_systemd.Bus.Error.{Error}
use rust_systemd.Bus.Error.Ownership.{
  Allocates, Program, make, copy, end, hand_over, copy_refused, IsUnset, weight, Reach, here, next,
  total, Owned, Reach-Owned,
}

-- Errors of which each has one allocated string.
abbrev drop_one : List (ℕ × Bytes) → List (ℕ × Bytes)
drop_one [] = []
drop_one (x ∷ xs) = xs

abbrev looks_unset : SdBusError → Bool
looks_unset e = e.name == 0 && (e.message == 0 && not (is_nonzero e.need_free))

abbrev copied : SdBusError → Memory → SdBusError × Memory
copied e m = (
  e,
  (if is_nonzero e.need_free
      then record { next = m.next + 1; live = (m.next, []) ∷ m.live }
      else m),
)

abbrev allocating : SdError
allocating = record {
  sd_bus_error_set = λ e n p m. (
    record { name = m.next; message = p; need_free = pos 1 },
    record { next = m.next + 1; live = (m.next, []) ∷ m.live },
  );
  sd_bus_error_free = λ e m. (
    record { name = 0; message = 0; need_free = pos 0 },
    (if is_nonzero e.need_free then record m { live = drop_one m.live } else m),
  );
  sd_bus_error_copy = λ d e m. if looks_unset d then copied e m else (d, m);
  sd_bus_error_get_errno = λ e m. pos 5;
}

abbrev count : List (ℕ × Bytes) → ℕ
count [] = 0
count (x ∷ xs) = 1 + count xs

count-drop_one : (xs : List (ℕ × Bytes)) → count (drop_one xs) ≡ count xs - 1
count-drop_one [] = refl
count-drop_one (x ∷ xs) = omega arith

IsUnset-looks_unset : (e : SdBusError) → IsUnset e → looks_unset e ≡ true
IsUnset-looks_unset e (n, p, f) = rw (n, p, f) refl

is_zero : (n : ℤ) → is_nonzero n ≡ false → n ≡ pos 0
is_zero n e = ground arith

looks_unset-set : (e : SdBusError) → ¬ IsUnset e → looks_unset e ≡ false
looks_unset-set e set = elim (Bool-cases (looks_unset e)) [
  | inl free ↦ absurd (set (ground (arith, is_zero e.need_free)))
  | inr taken ↦ taken
]

copied-weight :
    (e : SdBusError) (m : Memory) → count (copied e m).1.live ≡ count m.live + weight (copied e m).0
copied-weight e m = ground arith

allocates : Allocates allocating
allocates = record {
  allocated = λ m. count m.live;
  sets = λ n p m. ground arith;
  copies = λ d e m unset. rw (IsUnset-looks_unset d unset) (copied-weight e m);
  refuses = λ d e m set. rw (looks_unset-set d set) refl;
  frees = λ e m. ground (arith, count-drop_one m.live);
}

abbrev a_name : Utf8CStr
a_name = record { ptr = 9; len = 3 }

abbrev unset : SdBusError
unset = record { name = 0; message = 0; need_free = pos 0 }

abbrev garbage : SdBusError
garbage = record { name = 77; message = 5; need_free = pos 9 }

garbage-set : ¬ IsUnset garbage
garbage-set (n, _, _) = ground arith

-- The error that is made.
abbrev made : Error
made = record {
  raw = record { inner = record { name = 2; message = 0; need_free = pos 1 } };
  name_len = 4;
  message_len = 1;
}

abbrev one_string : SdBusError
one_string = record { name = 1; message = 0; need_free = pos 1 }

-- C has an error of its own, which is lost when the first one is written over it.
abbrev at_start : Program
at_start = record {
  memory = record { next = 2; live = (1, []) ∷ [] };
  held = [];
  of_c = 1;
  lost = 0;
  unwritten = [];
}

abbrev at_end : Program
at_end = record {
  memory = record { next = 4; live = (2, []) ∷ (1, []) ∷ [] };
  held = [];
  of_c = 1;
  lost = 1;
  unwritten = garbage ∷ [];
}

-- Made, copied twice, once over a value that looks set, the first one handed to C and the copy dropped.
run : Reach allocating allocates at_start at_end
unfolding Error.new RawError.with_name RawError.set RawError.default RawError.clone RawError.drop
    Error.move_into
run =
    let one = next here (make at_start a_name none) in
    let two = next one (copy _ [] [] unset made.raw refl (refl, refl, refl)) in
    let three =
      next two (copy_refused _ (made.raw.inner ∷ []) [] garbage made.raw refl garbage-set) in
    let four = next three (hand_over _ (made.raw.inner ∷ []) [] 0 one_string made refl refl) in
    next four (end _ [] [] made.raw refl)

Reach-Owned_example : Owned allocating allocates at_end
unfolding allocates total
Reach-Owned_example = Reach-Owned allocating allocates refl run
