-- ===== src/Bus/Handles/Owned.antt =====
-- What a handle of src/bus/mod.rs owns, and what sd-bus(3) says of counts.
use rust_systemd.Base.{
  ℕ, ◌+◌, ◌-◌, ◌≡◌, Bool, true, false, some, List, [], ◌∷◌, ◌++◌, arith, ◌==◌, if◌then◌else◌,
  eqb_refl, refl,
}
use rust_systemd.Base.Int.{ℤ, pos, negsuc}
use rust_systemd.Ffi.{Outcome, returns}
use rust_systemd.Ffi.Heap.{CArg, Memory}
use rust_systemd.Bus.Library.{SdBusError}
use rust_systemd.Bus.SdBus.{SdBus}
use rust_systemd.Bus.Handles.{Bus, Message}
use rust_systemd.Bus.Message.{CallResult, replied}

-- What a handle owns a count of.
pub data Object : Type 0 where
  bus message : ℕ → Object

abbrev pub same : Object → Object → Bool
same (bus p) (bus q) = p == q
same (message p) (message q) = p == q
same _ _ = false

-- How many handles own a count of `o`.
unfoldable pub owned : Object → List Object → ℕ
owned o [] = 0
owned o (h ∷ hs) = (if same o h then 1 else 0) + owned o hs

pub owned-append : (o : Object) (xs ys : List Object) → owned o (xs ++ ys) ≡ owned o xs + owned o ys
unfolding owned
owned-append o [] ys = omega arith
owned-append o (x ∷ xs) ys = omega (arith, owned-append o xs ys)

pub owned-cons :
    (o h : Object) (hs : List Object) → owned o (h ∷ hs) ≡ (if same o h then 1 else 0) + owned o hs
unfolding owned
owned-cons o h hs = refl

pub owned-middle :
    (o h : Object) (xs ys : List Object)
    → owned o (xs ++ h ∷ ys) ≡ (if same o h then 1 else 0) + owned o (xs ++ ys)
owned-middle o h xs ys =
    omega (arith, owned-append o xs (h ∷ ys), owned-append o xs ys, owned-cons o h ys)

pub same_refl : (o : Object) → same o o ≡ true
same_refl (bus p) = eqb_refl p
same_refl (message p) = eqb_refl p

-- One count of `h` if a call returned a number that is not negative.
abbrev pub gained : ℤ → Object → Object → ℕ
gained (pos _) h o = if same o h then 1 else 0
gained (negsuc _) h o = 0

-- The counts that are held from outside of C, by sd_bus_ref(3) and sd_bus_message_ref(3), which count one
-- up and return their argument, by the two `unref`, which count one down, and by the functions that hand
-- out a bus or a message, which leave one count of it to the caller if they do not fail. What C holds of
-- its own, as of a message that is sent, is not counted.
pub record Counted {W : Type 0} (lib : SdBus W) : Type 0 where
  pub count : W → Object → ℕ
  pub ref_same : (p : ℕ) (w : W) → (lib.sd_bus_ref p w).0 ≡ p
  pub ref_counts :
      (p : ℕ) (w : W) (o : Object)
      → count (lib.sd_bus_ref p w).1 o ≡ count w o + (if same o (bus p) then 1 else 0)
  pub unref_counts :
      (p : ℕ) (w : W) (o : Object)
      → count (lib.sd_bus_unref p w).1 o ≡ count w o - (if same o (bus p) then 1 else 0)
  pub message_ref_same : (p : ℕ) (w : W) → (lib.sd_bus_message_ref p w).0 ≡ p
  pub message_ref_counts :
      (p : ℕ) (w : W) (o : Object)
      → count (lib.sd_bus_message_ref p w).1 o ≡ count w o + (if same o (message p) then 1 else 0)
  pub message_unref_counts :
      (p : ℕ) (w : W) (o : Object)
      → count (lib.sd_bus_message_unref p w).1 o ≡ count w o - (if same o (message p) then 1 else 0)
  pub opens :
      (w : W) (o : Object)
      → count (lib.sd_bus_default w).1 o
        ≡ count w o + gained (lib.sd_bus_default w).0.0 (bus (lib.sd_bus_default w).0.1) o
  pub opens_user :
      (w : W) (o : Object)
      → count (lib.sd_bus_default_user w).1 o
        ≡ count w o + gained (lib.sd_bus_default_user w).0.0 (bus (lib.sd_bus_default_user w).0.1) o
  pub opens_system :
      (w : W) (o : Object)
      → count (lib.sd_bus_default_system w).1 o
        ≡ count w o
          + gained (lib.sd_bus_default_system w).0.0 (bus (lib.sd_bus_default_system w).0.1) o
  pub makes_signal :
      (b : ℕ) (x y z : CArg) (w : W) (o : Object)
      → count (lib.sd_bus_message_new_signal b x y z w).1 o
        ≡ count w o
          + gained
              (lib.sd_bus_message_new_signal b x y z w).0.0
              (message (lib.sd_bus_message_new_signal b x y z w).0.1)
              o
  pub makes_call :
      (b : ℕ) (d x y z : CArg) (w : W) (o : Object)
      → count (lib.sd_bus_message_new_method_call b d x y z w).1 o
        ≡ count w o
          + gained
              (lib.sd_bus_message_new_method_call b d x y z w).0.0
              (message (lib.sd_bus_message_new_method_call b d x y z w).0.1)
              o
  pub makes_error :
      (m : ℕ) (e : SdBusError) (w : W) (o : Object)
      → count (lib.sd_bus_message_new_method_error m e w).1 o
        ≡ count w o
          + gained
              (lib.sd_bus_message_new_method_error m e w).0.0
              (message (lib.sd_bus_message_new_method_error m e w).0.1)
              o
  pub makes_return :
      (m : ℕ) (w : W) (o : Object)
      → count (lib.sd_bus_message_new_method_return m w).1 o
        ≡ count w o
          + gained
              (lib.sd_bus_message_new_method_return m w).0.0
              (message (lib.sd_bus_message_new_method_return m w).0.1)
              o
  pub replies :
      (m usec p : ℕ) (e : SdBusError) (h : Memory) (w : W) (o : Object)
      → (lib.sd_bus_call m usec e h w).reply ≡ some p
      → count (lib.sd_bus_call m usec e h w).world o
        ≡ count w o + gained (lib.sd_bus_call m usec e h w).ret (message p) o
  pub gives_no_reply :
      (m usec n : ℕ) (e : SdBusError) (h : Memory) (w : W) (o : Object)
      → (lib.sd_bus_call m usec e h w).ret ≡ negsuc n
      → count (lib.sd_bus_call m usec e h w).world o ≡ count w o

-- The handles that an operation gives to the program.
abbrev pub new_bus : Outcome Bus → List Object
new_bus (returns b) = bus b.raw ∷ []
new_bus _ = []

abbrev pub new_message : Outcome Message → List Object
new_message (returns m) = message m.raw ∷ []
new_message _ = []

abbrev pub new_reply : CallResult → List Object
new_reply (replied m) = message m.raw ∷ []
new_reply _ = []
