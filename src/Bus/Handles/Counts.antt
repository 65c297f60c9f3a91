-- ===== src/Bus/Handles/Counts.antt =====
-- The counts of buses and messages under the handles of src/bus/mod.rs: the balance between handles and
-- counts over the steps of Handles/Steps.
use rust_systemd.Base.{ℕ, ◌+◌, ◌<◌, ◌≡◌, Bool, List, ◌∷◌, ◌++◌, arith, if◌then◌else◌, ap}
use rust_systemd.Ffi.{Machine}
use rust_systemd.Bus.SdBus.{SdBus}
use rust_systemd.Bus.Handles.{
  take_ptr, bus_from_ptr, clone_bus, drop_bus, message_to_owned, clone_message, drop_message,
}
use rust_systemd.Bus.Handles.Owned.{
  Object, bus, message, owned, owned-append, owned-cons, owned-middle, same_refl, Counted,
}
use rust_systemd.Bus.Handles.Gains.{
  opened, signal_made, call_made, error_made, return_made, reply_got,
}
use rust_systemd.Bus.Handles.Steps.{
  Program, Step, Reach, clone_a_bus, drop_a_bus, own_a_bus, clone_a_message, drop_a_message,
  own_a_message, open_default, open_user, open_system, make_signal, make_call, make_error,
  make_return, get_reply, other, here, next,
}

module _ {W : Type 0} (lib : SdBus W) (counted : Counted lib) where
  open counted use {count}

  -- The counts are those of the handles and `others`, which the program does not hold.
  abbrev pub Balanced : (Object → ℕ) → Program W → Type 0
  Balanced others s = (o : Object) → count s.world o ≡ others o + owned o s.handles

  grown :
      (others : Object → ℕ) (s : Machine W) (w' : W) (new hs : List Object) (o : Object)
      → count w' o ≡ count s.world o + owned o new
      → count s.world o ≡ others o + owned o hs
      → count w' o ≡ others o + owned o (new ++ hs)
  grown others s w' new hs o more h = omega (arith, more, h, owned-append o new hs)

  Step-Balanced :
      (others : Object → ℕ) {s t : Program W}
      → Step lib counted s t
      → Balanced others s
      → Balanced others t
  unfolding clone_bus drop_bus bus_from_ptr clone_message drop_message message_to_owned take_ptr
  Step-Balanced others (clone_a_bus w before after b) h o =
      rw (counted.ref_same, counted.ref_counts, owned-cons) (omega (arith, h o))
  Step-Balanced others (drop_a_bus w before after b) h o =
      rw counted.unref_counts (omega (arith, h o, owned-middle o (bus b.raw) before after))
  Step-Balanced others (own_a_bus w hs r) h o =
      rw (counted.ref_same, counted.ref_counts, owned-cons) (omega (arith, h o))
  Step-Balanced others (clone_a_message w before after m) h o =
      rw (counted.message_ref_same, counted.message_ref_counts, owned-cons) (omega (arith, h o))
  Step-Balanced others (drop_a_message w before after m) h o =
      rw counted.message_unref_counts
        (omega (arith, h o, owned-middle o (message m.raw) before after))
  Step-Balanced others (own_a_message w hs r) h o =
      rw (counted.message_ref_same, counted.message_ref_counts, owned-cons) (omega (arith, h o))
  Step-Balanced others (open_default s hs) h o =
      grown others s _ _ hs o (opened lib counted s o).0 (h o)
  Step-Balanced others (open_user s hs) h o =
      grown others s _ _ hs o (opened lib counted s o).1 (h o)
  Step-Balanced others (open_system s hs) h o =
      grown others s _ _ hs o (opened lib counted s o).2 (h o)
  Step-Balanced others (make_signal s hs b path interface member) h o =
      grown others s _ _ hs o (signal_made lib counted s b path interface member o) (h o)
  Step-Balanced others (make_call s hs b dest path interface member) h o =
      grown others s _ _ hs o (call_made lib counted s b dest path interface member o) (h o)
  Step-Balanced others (make_error s hs m e) h o =
      grown others s _ _ hs o (error_made lib counted s m e o) (h o)
  Step-Balanced others (make_return s hs m) h o =
      grown others s _ _ hs o (return_made lib counted s m o) (h o)
  Step-Balanced others (get_reply s hs m usec errors answer) h o =
      grown others s _ _ hs o (reply_got lib counted s m usec errors answer o) (h o)
  Step-Balanced others (other w w' hs same_count) h o = omega (arith, h o, same_count o)

  -- Whatever a program does with its handles, the count of every bus and message stays the number of
  -- handles that it holds of it and the counts that are owed to others, if it was so at the start
  -- and C counts by one where it hands out or takes back.
  pub Reach-Balanced :
      (others : Object → ℕ) {s t : Program W}
      → Balanced others s
      → Reach lib counted s t
      → Balanced others t
  Reach-Balanced others h here = h
  Reach-Balanced others h (next r st) = Step-Balanced others st (Reach-Balanced others h r)

  -- While a program holds a handle, what the handle points to has a count of at least one, whatever the
  -- program did before, if the counts balanced at the start and C counts by one where it hands out or
  -- takes back.
  pub held_is_alive :
      (others : Object → ℕ) {s t : Program W}
      → Balanced others s
      → Reach lib counted s t
      → (before after : List Object) (o : Object) → t.handles ≡ before ++ o ∷ after
      → 0 < count t.world o
  held_is_alive others h r before after o e = omega (
    arith,
    Reach-Balanced others h r o,
    ap (owned o) e,
    owned-middle o o before after,
    ap {B = ℕ} (λ (x : Bool). if x then 1 else 0) (same_refl o),
  )
