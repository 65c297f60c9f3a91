-- ===== src/Bus/Error/Ownership.antt =====
-- Who frees the strings of an error: a step for each operation of `RawError` and `Error` of
-- src/bus/mod.rs that makes, copies, hands over or drops one.
use rust_systemd.Base.{
  ℕ, ◌+◌, ◌-◌, ◌≡◌, true, false, Option, List, [], ◌∷◌, ◌++◌, refl, arith, if◌then◌else◌, ap, ◌∙◌,
}
use rust_systemd.Base.Int.{pos, is_nonzero}
use rust_systemd.Ffi.Heap.{Memory}
use rust_systemd.Bus.Library.{SdBusError, SdError, Utf8CStr}
use rust_systemd.Bus.RawError
use rust_systemd.Bus.RawError.{RawError, ptr_or_null}
use rust_systemd.Bus.Error
use rust_systemd.Bus.Error.{Error}

-- Whether C allocated the strings.
abbrev pub weight : SdBusError → ℕ
weight e = if is_nonzero e.need_free then 1 else 0

-- A value that sd_bus_error_copy(3) takes as a destination.
abbrev pub IsUnset : SdBusError → Type 0
IsUnset e = (e.name ≡ 0) × (e.message ≡ 0) × (e.need_free ≡ pos 0)

-- sd_bus_error(3): `set` on an error that is not set, and `copy` to one, allocate the strings of an error
-- that needs to be freed, and `free` frees those. A `copy` to any other destination is refused and
-- changes nothing.
pub record Allocates (lib : SdError) : Type 0 where
  pub allocated : Memory → ℕ
  pub sets :
      (n p : ℕ) (m : Memory)
      → allocated (lib.sd_bus_error_set RawError.default.inner n p m).1
        ≡ allocated m + weight (lib.sd_bus_error_set RawError.default.inner n p m).0
  pub copies :
      (d e : SdBusError) (m : Memory)
      → IsUnset d
      → allocated (lib.sd_bus_error_copy d e m).1
        ≡ allocated m + weight (lib.sd_bus_error_copy d e m).0
  pub refuses : (d e : SdBusError) (m : Memory) → ¬ IsUnset d → lib.sd_bus_error_copy d e m ≡ (d, m)
  pub frees :
      (e : SdBusError) (m : Memory)
      → allocated (lib.sd_bus_error_free e m).1 ≡ allocated m - weight e

-- The errors that the program holds, how many allocated ones C holds, how many were lost when another was
-- written over them, and the values of clones that C refused to write.
pub record Program : Type 0 where
  pub memory : Memory
  pub held : List SdBusError
  pub of_c : ℕ
  pub lost : ℕ
  pub unwritten : List SdBusError

unfoldable pub total : List SdBusError → ℕ
total [] = 0
total (e ∷ es) = weight e + total es

total-middle :
    (e : SdBusError) (xs ys : List SdBusError) → total (xs ++ e ∷ ys) ≡ weight e + total (xs ++ ys)
unfolding total
total-middle e [] ys = refl
total-middle e (x ∷ xs) ys = omega (arith, total-middle e xs ys)

total-cons : (e : SdBusError) (es : List SdBusError) → total (e ∷ es) ≡ weight e + total es
unfolding total
total-cons e es = refl

module _ (lib : SdError) (allocates : Allocates lib) where
  open allocates use {allocated}

  pub data Step : Program → Program → Type 0 where
    -- `Error::new`
    make :
        (s : Program) (name : Utf8CStr) (message : Option Utf8CStr)
        → Step s (record s {
          memory = (Error.new lib name message s.memory).1;
          held = (Error.new lib name message s.memory).0.raw.inner ∷ s.held;
        })
    -- `clone`, over an uninitialised value that happens to be unset
    copy :
        (s : Program) (before after : List SdBusError) (d : SdBusError) (e : RawError)
        → s.held ≡ before ++ e.inner ∷ after
        → IsUnset d
        → Step s (record s {
          memory = (RawError.clone lib d e s.memory).1;
          held = (RawError.clone lib d e s.memory).0.inner ∷ s.held;
        })
    -- `clone`, over any other uninitialised value
    copy_refused :
        (s : Program) (before after : List SdBusError) (d : SdBusError) (e : RawError)
        → s.held ≡ before ++ e.inner ∷ after
        → ¬ IsUnset d
        → Step s (record s {
          memory = (RawError.clone lib d e s.memory).1;
          unwritten = (RawError.clone lib d e s.memory).0.inner ∷ s.unwritten;
        })
    -- `drop`
    end :
        (s : Program) (before after : List SdBusError) (e : RawError)
        → s.held ≡ before ++ e.inner ∷ after
        → Step s (record s { memory = RawError.drop lib e s.memory; held = before ++ after })
    -- `move_into`, as `raw_message_handler` does it, over the error `old` of C, which nothing frees then;
    -- C frees what it was given
    hand_over :
        (s : Program) (before after : List SdBusError) (k : ℕ) (old : SdBusError) (e : Error)
        → s.held ≡ before ++ e.raw.inner ∷ after
        → s.of_c ≡ k + weight old
        → Step s (record s {
          held = before ++ after;
          of_c = k + weight (Error.move_into e);
          lost = s.lost + weight old;
        })
    -- `sd_bus_call` sets the error of `call`
    take_over :
        (s : Program) (m' : Memory) (x : SdBusError)
        → allocated m' ≡ allocated s.memory + weight x
        → Step s (record s { memory = m'; held = x ∷ s.held })
    -- `into_result`: an error that is set stays, and one that is not is dropped
    stay_set :
        (s : Program) (before after : List SdBusError) (e : RawError)
        → s.held ≡ before ++ e.inner ∷ after
        → RawError.is_set e ≡ true
        → Step s (record s { memory = (Error.into_result lib e s.memory).1 })
    end_unset :
        (s : Program) (before after : List SdBusError) (e : RawError)
        → s.held ≡ before ++ e.inner ∷ after
        → RawError.is_set e ≡ false
        → Step s
            (record s { memory = (Error.into_result lib e s.memory).1; held = before ++ after })

  pub data Reach (s : Program) : Program → Type 0 where
    here : Reach s s
    next : {t u : Program} → Reach s t → Step t u → Reach s u

  -- All that is allocated is held by the program or by C, or lost, once; what a clone was refused is the
  -- uninitialised value, which no step frees.
  abbrev pub Owned : Program → Type 0
  Owned s = allocated s.memory ≡ s.of_c + s.lost + total s.held

  total-held :
      (s : Program) (before after : List SdBusError) (e : SdBusError)
      → s.held ≡ before ++ e ∷ after
      → total s.held ≡ weight e + total (before ++ after)
  total-held s before after e held = ap total held ∙ total-middle e before after

  Step-Owned : {s t : Program} → Step s t → Owned s → Owned t
  unfolding Error.new RawError.with_name RawError.set RawError.clone RawError.drop Error.move_into
      Error.into_result
  Step-Owned (make s name message) h = rw (allocates.sets, total-cons) (omega (arith, h))
  Step-Owned (copy s before after d e held unset) h =
      rw total-cons (omega (arith, h, allocates.copies d e.inner s.memory unset))
  Step-Owned (copy_refused s before after d e held set) h =
      ap (λ (x : SdBusError × Memory). allocated x.1) (allocates.refuses d e.inner s.memory set) ∙ h
  Step-Owned (end s before after e held) h =
      rw allocates.frees (omega (arith, h, total-held s before after e.inner held))
  Step-Owned (hand_over s before after k old e held of_c) h =
      omega (arith, h, of_c, total-held s before after e.raw.inner held)
  Step-Owned (take_over s m' x new) h = rw total-cons (omega (arith, h, new))
  Step-Owned (stay_set s before after e held set) h = rw set h
  Step-Owned (end_unset s before after e held unset) h =
      rw (unset, allocates.frees) (omega (arith, h, total-held s before after e.inner held))

  -- Whatever a program does with its errors, what C allocated for errors is what the program holds, what
  -- C holds, and what was lost where `move_into` wrote over an error that C held; a clone adds to it what
  -- it copied if the uninitialised value that C writes over happens to be unset, and nothing if it does
  -- not. This holds if it was so at the start, no such value is dropped that C did not write, and C
  -- allocates, frees and refuses as documented.
  pub Reach-Owned : {s t : Program} → Owned s → Reach s t → Owned t
  Reach-Owned h here = h
  Reach-Owned h (next r st) = Step-Owned st (Reach-Owned h r)
