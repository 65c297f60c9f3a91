-- ===== src/Bus/Handles/Steps.antt =====
-- A step for each operation of src/bus/mod.rs that makes or drops a handle.
use rust_systemd.Base.{ℕ, ◌≡◌, List, ◌∷◌, ◌++◌}
use rust_systemd.Ffi.{Machine}
use rust_systemd.Names.ObjectPath.{ObjectPath}
use rust_systemd.Names.InterfaceName.{InterfaceName}
use rust_systemd.Names.BusName.{BusName}
use rust_systemd.Names.MemberName.{MemberName}
use rust_systemd.Bus.Library.{SdError}
use rust_systemd.Bus.Error.{Error}
use rust_systemd.Bus.SdBus.{SdBus}
use rust_systemd.Bus.Handles.{
  Bus, Message, bus_from_ptr, clone_bus, drop_bus, message_to_owned, clone_message, drop_message,
  default_bus, default_user, default_system,
}
use rust_systemd.Bus.Handles.Owned.{Object, bus, message, Counted, new_bus, new_message, new_reply}
use rust_systemd.Bus.Message.{
  new_signal, new_method_call, new_method_error, new_method_return, call_method,
}
use rust_systemd.Bus.Message.Call.{IsAnswered, answered}

-- The handles that a program holds, beside the state of the C library.
pub record Program (W : Type 0) : Type 0 where
  pub world : W
  pub handles : List Object

module _ {W : Type 0} (lib : SdBus W) (counted : Counted lib) where
  open counted use {count}

  -- One operation. A dropped handle is one that the program holds, and a cloned one too.
  pub data Step : Program W → Program W → Type 0 where
    clone_a_bus :
        (w : W) (before after : List Object) (b : Bus)
        → Step
            (record { world = w; handles = before ++ bus b.raw ∷ after })
            (record {
              world = (clone_bus lib b w).1;
              handles = bus (clone_bus lib b w).0.raw ∷ (before ++ bus b.raw ∷ after);
            })
    drop_a_bus :
        (w : W) (before after : List Object) (b : Bus)
        → Step
            (record { world = w; handles = before ++ bus b.raw ∷ after })
            (record { world = drop_bus lib b w; handles = before ++ after })
    own_a_bus :
        (w : W) (hs : List Object) (r : ℕ)
        → Step
            (record { world = w; handles = hs })
            (record {
              world = (bus_from_ptr lib r w).1;
              handles = bus (bus_from_ptr lib r w).0.raw ∷ hs;
            })
    clone_a_message :
        (w : W) (before after : List Object) (m : Message)
        → Step
            (record { world = w; handles = before ++ message m.raw ∷ after })
            (record {
              world = (clone_message lib m w).1;
              handles = message (clone_message lib m w).0.raw ∷ (before ++ message m.raw ∷ after);
            })
    drop_a_message :
        (w : W) (before after : List Object) (m : Message)
        → Step
            (record { world = w; handles = before ++ message m.raw ∷ after })
            (record { world = drop_message lib m w; handles = before ++ after })
    own_a_message :
        (w : W) (hs : List Object) (r : ℕ)
        → Step
            (record { world = w; handles = hs })
            (record {
              world = (message_to_owned lib r w).1;
              handles = message (message_to_owned lib r w).0.raw ∷ hs;
            })
    open_default :
        (s : Machine W) (hs : List Object)
        → Step
            (record { world = s.world; handles = hs })
            (record {
              world = (default_bus lib s).1.world;
              handles = new_bus (default_bus lib s).0 ++ hs;
            })
    open_user :
        (s : Machine W) (hs : List Object)
        → Step
            (record { world = s.world; handles = hs })
            (record {
              world = (default_user lib s).1.world;
              handles = new_bus (default_user lib s).0 ++ hs;
            })
    open_system :
        (s : Machine W) (hs : List Object)
        → Step
            (record { world = s.world; handles = hs })
            (record {
              world = (default_system lib s).1.world;
              handles = new_bus (default_system lib s).0 ++ hs;
            })
    make_signal :
        (s : Machine W) (hs : List Object) (b : ℕ) (path : ObjectPath) (interface : InterfaceName)
        (member : MemberName)
        → Step
            (record { world = s.world; handles = hs })
            (record {
              world = (new_signal lib b path interface member s).1.world;
              handles = new_message (new_signal lib b path interface member s).0 ++ hs;
            })
    make_call :
        (s : Machine W) (hs : List Object) (b : ℕ) (dest : BusName) (path : ObjectPath)
        (interface : InterfaceName) (member : MemberName)
        → Step
            (record { world = s.world; handles = hs })
            (record {
              world = (new_method_call lib b dest path interface member s).1.world;
              handles = new_message (new_method_call lib b dest path interface member s).0 ++ hs;
            })
    make_error :
        (s : Machine W) (hs : List Object) (m : ℕ) (e : Error)
        → Step
            (record { world = s.world; handles = hs })
            (record {
              world = (new_method_error lib m e s).1.world;
              handles = new_message (new_method_error lib m e s).0 ++ hs;
            })
    make_return :
        (s : Machine W) (hs : List Object) (m : ℕ)
        → Step
            (record { world = s.world; handles = hs })
            (record {
              world = (new_method_return lib m s).1.world;
              handles = new_message (new_method_return lib m s).0 ++ hs;
            })
    -- the reply of `call`, if there is one
    get_reply :
        (s : Machine W) (hs : List Object) (m usec : ℕ) (errors : SdError)
        → IsAnswered (answered lib errors m usec s)
        → Step
            (record { world = s.world; handles = hs })
            (record {
              world = (call_method lib m errors usec s).1.world;
              handles = new_reply (call_method lib m errors usec s).0 ++ hs;
            })
    -- any call of C that hands out nothing and takes nothing back, as `send` and `append` do
    other :
        (w w' : W) (hs : List Object)
        → ((o : Object) → count w' o ≡ count w o)
        → Step (record { world = w; handles = hs }) (record { world = w'; handles = hs })

  pub data Reach (s : Program W) : Program W → Type 0 where
    here : Reach s s
    next : {t u : Program W} → Reach s t → Step t u → Reach s u
