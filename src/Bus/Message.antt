-- ===== src/Bus/Message.antt =====
-- The operations of `BusRef` and `MessageRef` of src/bus/mod.rs, over sd-bus(3).
pub mod Sealing
pub mod Worlds
pub mod Call
pub mod Relay
pub mod Arguments
use rust_systemd.Base.{
  ℕ, zero, suc, ◌+◌, ◌-◌, ◌*◌, ◌/◌, ◌%◌, ◌^◌, ◌≤◌, ◌<◌, ◌≡◌, ◌≢◌, ◌⊎◌, inl, inr, ◌↔◌, Bool, true,
  false, not, ◌&&◌, ◌||◌, Option, none, some, List, [], ◌∷◌, ◌++◌, arith, Bytes, ◌==◌, ltb,
  ltb-eq-false, if◌then◌else◌, All, Lacks, take, take-append, length, length-append, Result, ok,
  err, refl, c_codes, codes, ap, sym, subst, ◌∙◌, append_assoc, map,
}
use rust_systemd.Base.Int.{ℤ, pos, bool_c_int}
use rust_systemd.Ffi.{
  Eff, Machine, Outcome, returns, fails, panics, unwrap_err, pure, lift, call, ffi_result, sd_try,
  ◌>>=◌, ◌>>◌,
}
use rust_systemd.Ffi.Heap.{CArg, at}
use rust_systemd.Names.ObjectPath
use rust_systemd.Names.ObjectPath.{ObjectPath}
use rust_systemd.Names.InterfaceName
use rust_systemd.Names.InterfaceName.{InterfaceName}
use rust_systemd.Names.BusName
use rust_systemd.Names.BusName.{BusName}
use rust_systemd.Names.MemberName
use rust_systemd.Names.MemberName.{MemberName}
use rust_systemd.Names.CStr.{up_to_nul}
use rust_systemd.Bus.Library.{SdBusError, SdError}
use rust_systemd.Bus.RawError
use rust_systemd.Bus.RawError.{RawError}
use rust_systemd.Bus.Error
use rust_systemd.Bus.Error.{Error}
use rust_systemd.Bus.SdBus.{SdBus, Basic, CallAnswer}
use rust_systemd.Bus.Handles.{Message, MessageIter, iter_as_mut_ptr, iter_at, take_ptr}

-- `Result<Message>` of `call`; `undefined` where an uninitialised reply or an unreadable error is used.
pub data CallResult : Type 0 where
  replied : Message → CallResult
  failed : Error → CallResult
  undefined : CallResult

-- What the callback of a handler is, over the bus that it runs on.
abbrev pub Callback : Type 0 → Type 0
Callback W = ℕ → Machine W → Result Error (Unit {0}) × Machine W

handled : Result Error (Unit {0}) → SdBusError → ℤ × SdBusError
handled (err e) ret_error = (pos 0, Error.move_into e)
handled (ok _) ret_error = (pos 0, ret_error)

module _ {W : Type 0} where
  -- `sd_try!(f(..)); Ok(())`
  unfoldable pub done : (W → ℤ × W) → Eff W (Unit {0})
  unfolding call sd_try
  done f = do sd_try (call f); pure tt

  -- `sd_try!(f(.., &mut out)); Ok(out)`
  unfoldable pub written : {A : Type 0} → (W → (ℤ × A) × W) → Eff W A
  unfolding call ffi_result ◌>>=◌
  written f = do (ret, out) ← call f; lift (ffi_result ret); pure out

  -- `raw_message_handler`: the return value, and `*ret_error` behind it.
  unfoldable pub raw_message_handler :
      Callback W → ℕ → SdBusError → Machine W → (ℤ × SdBusError) × Machine W
  unfolding handled Error.move_into
  raw_message_handler callback msg ret_error s =
      let (e, s') = callback msg s in (handled e ret_error, s')

-- `BusRef`
module _ {W : Type 0} (lib : SdBus W) (self : ℕ) where
  unfoldable pub events : Eff W ℤ
  unfolding sd_try call
  events = sd_try (call (lib.sd_bus_get_events self))

  unfoldable pub timeout : Eff W ℕ
  unfolding written
  timeout = written (lib.sd_bus_get_timeout self)

  unfoldable pub fd : Eff W ℤ
  unfolding sd_try call
  fd = sd_try (call (lib.sd_bus_get_fd self))

  -- `as_raw_fd`: `self.fd().unwrap()`
  unfoldable pub as_raw_fd : Eff W ℤ
  unfolding fd
  as_raw_fd s =
      let (r, s') = fd s in
      (elim r [ returns n ↦ returns n | fails e ↦ panics unwrap_err | panics p ↦ panics p ], s')

  unfoldable pub unique_name : Eff W BusName
  unfolding written ◌>>=◌
  unique_name = do
    e ← written (lib.sd_bus_get_unique_name self)
    pure (BusName.from_ptr_unchecked e)

  unfoldable pub new_signal : ObjectPath → InterfaceName → MemberName → Eff W Message
  unfolding written ◌>>=◌ take_ptr
  new_signal path interface member = do
    m ← written (
        lib.sd_bus_message_new_signal self (at (ObjectPath.deref path))
          (at (InterfaceName.deref interface)) (at (MemberName.deref member)))
    pure (take_ptr m)

  unfoldable pub new_method_call : BusName → ObjectPath → InterfaceName → MemberName → Eff W Message
  unfolding written ◌>>=◌ take_ptr
  new_method_call dest path interface member = do
    m ← written (
        lib.sd_bus_message_new_method_call self (at (BusName.deref dest))
          (at (ObjectPath.deref path)) (at (InterfaceName.deref interface))
          (at (MemberName.deref member)))
    pure (take_ptr m)

  unfoldable pub request_name : BusName → ℕ → Eff W (Unit {0})
  unfolding done
  request_name name flags = done (lib.sd_bus_request_name self (at (BusName.deref name)) flags)

  unfoldable pub release_name : BusName → Eff W (Unit {0})
  unfolding done
  release_name name = done (lib.sd_bus_release_name self (at (BusName.deref name)))

  -- `cb` is the address of the callback.
  unfoldable pub add_object : ObjectPath → ℕ → Eff W (Unit {0})
  unfolding done
  add_object path cb = done (lib.sd_bus_add_object self (at (ObjectPath.deref path)) cb)

  unfoldable pub add_object_manager : ObjectPath → Eff W (Unit {0})
  unfolding done
  add_object_manager path = done (lib.sd_bus_add_object_manager self (at (ObjectPath.deref path)))

-- `MessageRef`
module _ {W : Type 0} (lib : SdBus W) (self : ℕ) where
  -- `bus`: the address of the bus, which is borrowed.
  unfoldable pub message_bus : W → ℕ × W
  message_bus w = lib.sd_bus_message_get_bus self w

  unfoldable pub set_destination : BusName → Eff W (Unit {0})
  unfolding done
  set_destination dest = done (lib.sd_bus_message_set_destination self (at (BusName.deref dest)))

  unfoldable pub set_auto_start : Bool → Eff W (Unit {0})
  unfolding done
  set_auto_start on = done (lib.sd_bus_message_set_auto_start self (bool_c_int on))

  -- The reply cookie.
  unfoldable pub send : Eff W ℕ
  unfolding written
  send = written (lib.sd_bus_send self true)

  unfoldable pub send_no_reply : Eff W (Unit {0})
  unfolding written ◌>>=◌
  send_no_reply = do written (lib.sd_bus_send self false); pure tt

  unfoldable pub send_to : BusName → Eff W ℕ
  unfolding written
  send_to dest = written (lib.sd_bus_send_to self (at (BusName.deref dest)) true)

  unfoldable pub send_to_no_reply : BusName → Eff W (Unit {0})
  unfolding written ◌>>=◌
  send_to_no_reply dest = do
    written (lib.sd_bus_send_to self (at (BusName.deref dest)) false)
    pure tt

  -- `call`: the return value of `sd_bus_call` is not read.
  unfoldable pub call_method : SdError → ℕ → Machine W → CallResult × Machine W
  unfolding RawError.new Error.into_result take_ptr
  call_method errors usec s =
      let answer = lib.sd_bus_call self usec (RawError.as_ptr RawError.new) s.memory s.world in
      let (e, memory) = Error.into_result errors (record { inner = answer.error }) answer.memory in
      (
        elim e [
          | none ↦ undefined
          | some (err x) ↦ failed x
          | some (ok _) ↦ elim answer.reply [ none ↦ undefined | some p ↦ replied (take_ptr p) ]
        ],
        record { memory = memory; world = answer.world },
      )

  -- `callback` is the address of the callback.
  unfoldable pub call_async : ℕ → ℕ → Eff W (Unit {0})
  unfolding done
  call_async callback usec = done (lib.sd_bus_call_async self callback usec)

  unfoldable pub new_method_error : Error → Eff W Message
  unfolding written ◌>>=◌ take_ptr
  new_method_error error = do
    m ← written (lib.sd_bus_message_new_method_error self (Error.as_ptr error))
    pure (take_ptr m)

  unfoldable pub new_method_return : Eff W Message
  unfolding written ◌>>=◌ take_ptr
  new_method_return = do m ← written (lib.sd_bus_message_new_method_return self); pure (take_ptr m)

  unfoldable pub append_basic_raw : ℕ → Basic → Eff W (Unit {0})
  unfolding done
  append_basic_raw dbus_type v = done (lib.sd_bus_message_append_basic self dbus_type v)

  -- The probe of `iter` is `sd_bus_message_peek_type` with nowhere to write.
  unfoldable pub iter : Eff W MessageIter
  unfolding written ◌>>=◌
  iter = do written (lib.sd_bus_message_peek_type self); pure (iter_at self)

module _ {W : Type 0} (lib : SdBus W) (self : MessageIter) where
  unfoldable pub read_basic_raw : {T : Type 0} → ℕ → (Basic → T) → Eff W (Option T)
  unfolding call ffi_result ◌>>=◌
  read_basic_raw dbus_type cons = do
    (ret, v) ← call (lib.sd_bus_message_read_basic (iter_as_mut_ptr self) dbus_type)
    r ← lift (ffi_result ret)
    pure (elim r [ pos (suc zero) ↦ some (cons v) | _ ↦ none ])

  -- The contents are "" for null.
  unfoldable pub peek_type : Eff W (ℕ × Bytes)
  unfolding written ◌>>=◌ up_to_nul
  peek_type = do
    (t, cont) ← written (lib.sd_bus_message_peek_type (iter_as_mut_ptr self))
    pure (t, elim cont [ none ↦ [] | some b ↦ up_to_nul b ])
