-- ===== src/Bus/Handles/Gains.antt =====
-- What each operation of src/bus/mod.rs that hands out a handle adds to the counts.
use rust_systemd.Base.{ℕ, ◌+◌, ◌≡◌, inl, inr, arith}
use rust_systemd.Base.Int.{ℤ, ℤ-cases}
use rust_systemd.Ffi.{Machine, pure, ◌>>=◌}
use rust_systemd.Names.ObjectPath.{ObjectPath}
use rust_systemd.Names.InterfaceName.{InterfaceName}
use rust_systemd.Names.BusName.{BusName}
use rust_systemd.Names.MemberName.{MemberName}
use rust_systemd.Ffi.Heap.{at}
use rust_systemd.Bus.Library.{SdError}
use rust_systemd.Bus.RawError
use rust_systemd.Bus.Error
use rust_systemd.Bus.Error.{Error}
use rust_systemd.Bus.SdBus.{SdBus}
use rust_systemd.Bus.Handles.{take_ptr, connect, default_bus, default_user, default_system}
use rust_systemd.Bus.Handles.Owned.{
  Object, bus, message, owned, gained, Counted, new_bus, new_message, new_reply,
}
use rust_systemd.Bus.Message.{
  written, new_signal, new_method_call, new_method_error, new_method_return, call_method,
}
use rust_systemd.Bus.Message.Worlds.{call_method-world}
use rust_systemd.Bus.Message.Call.{IsAnswered, answered, call_method_lem}

module _ {W : Type 0} (lib : SdBus W) (count : W → Object → ℕ) (f : W → (ℤ × ℕ) × W) (s : Machine W)
    (o : Object) where
  -- A message that C hands out is a handle more, and a failure none.
  made :
      count (f s.world).1 o ≡ count s.world o + gained (f s.world).0.0 (message (f s.world).0.1) o
      → count ((written f >>= λ m. pure (take_ptr m)) s).1.world o
        ≡ count s.world o + owned o (new_message ((written f >>= λ m. pure (take_ptr m)) s).0)
  unfolding written ◌>>=◌ owned take_ptr
  made c = elim (ℤ-cases (f s.world).0.0) [
    | inl (n, e) ↦ ground arith
    | inr (inl e) ↦ ground arith
    | inr (inr (n, e)) ↦ ground arith
  ]

  connected :
      count (f s.world).1 o ≡ count s.world o + gained (f s.world).0.0 (bus (f s.world).0.1) o
      → count (connect lib f s).1.world o ≡ count s.world o + owned o (new_bus (connect lib f s).0)
  unfolding connect owned
  connected c = elim (ℤ-cases (f s.world).0.0) [
    | inl (n, e) ↦ ground arith
    | inr (inl e) ↦ ground arith
    | inr (inr (n, e)) ↦ ground arith
  ]

module _ {W : Type 0} (lib : SdBus W) (counted : Counted lib) where
  open counted use {count}

  module _ (s : Machine W) where
    pub opened :
        (o : Object)
        → (count (default_bus lib s).1.world o
            ≡ count s.world o + owned o (new_bus (default_bus lib s).0))
          × (count (default_user lib s).1.world o
              ≡ count s.world o + owned o (new_bus (default_user lib s).0))
          × (count (default_system lib s).1.world o
              ≡ count s.world o + owned o (new_bus (default_system lib s).0))
    unfolding default_bus default_user default_system
    opened o = (
      connected lib count lib.sd_bus_default s o (counted.opens s.world o),
      connected lib count lib.sd_bus_default_user s o (counted.opens_user s.world o),
      connected lib count lib.sd_bus_default_system s o (counted.opens_system s.world o),
    )

    pub signal_made :
        (b : ℕ) (path : ObjectPath) (interface : InterfaceName) (member : MemberName) (o : Object)
        → count (new_signal lib b path interface member s).1.world o
          ≡ count s.world o + owned o (new_message (new_signal lib b path interface member s).0)
    unfolding new_signal
    signal_made b path interface member o =
        made lib count
          (lib.sd_bus_message_new_signal b (at path.inner) (at interface.inner) (at member.inner)) s
          o
          (counted.makes_signal b (at path.inner) (at interface.inner) (at member.inner) s.world o)

    pub call_made :
        (b : ℕ) (dest : BusName) (path : ObjectPath) (interface : InterfaceName)
        (member : MemberName) (o : Object)
        → count (new_method_call lib b dest path interface member s).1.world o
          ≡ count s.world o
            + owned o (new_message (new_method_call lib b dest path interface member s).0)
    unfolding new_method_call
    call_made b dest path interface member o =
        made lib count
          (lib.sd_bus_message_new_method_call b (at dest.inner) (at path.inner) (at interface.inner)
            (at member.inner))
          s o
          (counted.makes_call b (at dest.inner) (at path.inner) (at interface.inner)
            (at member.inner) s.world o)

    pub error_made :
        (m : ℕ) (e : Error) (o : Object)
        → count (new_method_error lib m e s).1.world o
          ≡ count s.world o + owned o (new_message (new_method_error lib m e s).0)
    unfolding new_method_error
    error_made m e o =
        made lib count (lib.sd_bus_message_new_method_error m (Error.as_ptr e)) s o
          (counted.makes_error m (Error.as_ptr e) s.world o)

    pub return_made :
        (m : ℕ) (o : Object)
        → count (new_method_return lib m s).1.world o
          ≡ count s.world o + owned o (new_message (new_method_return lib m s).0)
    unfolding new_method_return
    return_made m o =
        made lib count (lib.sd_bus_message_new_method_return m) s o
          (counted.makes_return m s.world o)

    pub reply_got :
        (m usec : ℕ) (errors : SdError)
        → IsAnswered (answered lib errors m usec s)
        → (o : Object)
        → count (call_method lib m errors usec s).1.world o
          ≡ count s.world o + owned o (new_reply (call_method lib m errors usec s).0)
    unfolding owned
    reply_got m usec errors answer o =
        let here = call_method-world lib m s usec errors in
        elim (call_method_lem lib errors m usec s answer) [
          | inl (n, p, ret, reply, result) ↦
              (let law = counted.replies m usec p RawError.new.inner s.memory s.world o reply in
                rw (here, result, law, ret) (omega arith))
          | inr (n, e, ret, _, result) ↦
              (let law =
                  counted.gives_no_reply m usec n RawError.new.inner s.memory s.world o ret in
                rw (here, result, law) (omega arith))
        ]
