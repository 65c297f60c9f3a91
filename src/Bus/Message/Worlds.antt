-- ===== src/Bus/Message/Worlds.antt =====
-- What the operations of messages of src/bus/mod.rs leave of the state of the C library: what the one C
-- function that each calls makes of it, whether it failed or not.
use rust_systemd.Base.{ℕ, ◌≡◌, true, false, refl, arith, inl, inr, Bool}
use rust_systemd.Base.Int.{ℤ, ℤ-cases, bool_c_int}
use rust_systemd.Ffi.{Machine, pure, ◌>>=◌}
use rust_systemd.Ffi.Heap.{at}
use rust_systemd.Names.BusName.{BusName}
use rust_systemd.Bus.Library.{SdError}
use rust_systemd.Bus.RawError
use rust_systemd.Bus.SdBus.{SdBus, Basic}
use rust_systemd.Bus.Message.{
  done, written, append_basic_raw, set_destination, set_auto_start, send, send_no_reply, send_to,
  send_to_no_reply, call_method, call_async,
}

module _ {W : Type 0} where
  done-world : (f : W → ℤ × W) (s : Machine W) → (done f s).1.world ≡ (f s.world).1
  unfolding done
  done-world f s = elim (ℤ-cases (f s.world).0) [
    | inl (n, e) ↦ ground arith
    | inr (inl e) ↦ ground arith
    | inr (inr (n, e)) ↦ ground arith
  ]

  written-world :
      {A : Type 0} (f : W → (ℤ × A) × W) (s : Machine W) → (written f s).1.world ≡ (f s.world).1
  unfolding written
  written-world f s = elim (ℤ-cases (f s.world).0.0) [
    | inl (n, e) ↦ ground arith
    | inr (inl e) ↦ ground arith
    | inr (inr (n, e)) ↦ ground arith
  ]

  -- The cookie is not asked for.
  no_cookie-world :
      (f : W → (ℤ × ℕ) × W) (s : Machine W)
      → ((written f >>= λ _. pure tt) s).1.world ≡ (f s.world).1
  unfolding written ◌>>=◌
  no_cookie-world f s = elim (ℤ-cases (f s.world).0.0) [
    | inl (n, e) ↦ ground arith
    | inr (inl e) ↦ ground arith
    | inr (inr (n, e)) ↦ ground arith
  ]

module _ {W : Type 0} (lib : SdBus W) (m : ℕ) (s : Machine W) where
  pub append_basic_raw-world :
      (t : ℕ) (v : Basic)
      → (append_basic_raw lib m t v s).1.world ≡ (lib.sd_bus_message_append_basic m t v s.world).1
  unfolding append_basic_raw
  append_basic_raw-world t v = done-world (lib.sd_bus_message_append_basic m t v) s

  pub set_destination-world :
      (d : BusName)
      → (set_destination lib m d s).1.world
        ≡ (lib.sd_bus_message_set_destination m (at d.inner) s.world).1
  unfolding set_destination
  set_destination-world d = done-world (lib.sd_bus_message_set_destination m (at d.inner)) s

  pub set_auto_start-world :
      (on : Bool)
      → (set_auto_start lib m on s).1.world
        ≡ (lib.sd_bus_message_set_auto_start m (bool_c_int on) s.world).1
  unfolding set_auto_start
  set_auto_start-world on = done-world (lib.sd_bus_message_set_auto_start m (bool_c_int on)) s

  pub send-world : (send lib m s).1.world ≡ (lib.sd_bus_send m true s.world).1
  unfolding send
  send-world = written-world (lib.sd_bus_send m true) s

  pub send_no_reply-world : (send_no_reply lib m s).1.world ≡ (lib.sd_bus_send m false s.world).1
  unfolding send_no_reply
  send_no_reply-world = no_cookie-world (lib.sd_bus_send m false) s

  pub send_to-world :
      (d : BusName)
      → (send_to lib m d s).1.world ≡ (lib.sd_bus_send_to m (at d.inner) true s.world).1
  unfolding send_to
  send_to-world d = written-world (lib.sd_bus_send_to m (at d.inner) true) s

  pub send_to_no_reply-world :
      (d : BusName)
      → (send_to_no_reply lib m d s).1.world ≡ (lib.sd_bus_send_to m (at d.inner) false s.world).1
  unfolding send_to_no_reply
  send_to_no_reply-world d = no_cookie-world (lib.sd_bus_send_to m (at d.inner) false) s

  pub call_method-world :
      (usec : ℕ) (errors : SdError)
      → (call_method lib m errors usec s).1.world
        ≡ (lib.sd_bus_call m usec RawError.new.inner s.memory s.world).world
  unfolding call_method
  call_method-world usec errors = refl

  pub call_async-world :
      (cb usec : ℕ)
      → (call_async lib m cb usec s).1.world ≡ (lib.sd_bus_call_async m cb usec s.world).1
  unfolding call_async
  call_async-world cb usec = done-world (lib.sd_bus_call_async m cb usec) s
