-- ===== src/Bus/Message/Sealing.antt =====
-- Messages of src/bus/mod.rs after they were sent: C has sealed them, and the wrappers say so.
use rust_systemd.Base.{inl, inr, ℕ, suc, ◌≡◌, Bool, true, refl, ap, ◌∙◌, arith}
use rust_systemd.Base.Int.{ℤ, pos, negsuc, ℤ-cases, bool_c_int}
use rust_systemd.Ffi.{Machine, returns, fails, raw_os_error}
use rust_systemd.Ffi.Heap.{CArg, at}
use rust_systemd.Names.BusName.{BusName}
use rust_systemd.Bus.SdBus.{SdBus, Basic}
use rust_systemd.Bus.Message.{
  written, send, send_to, append_basic_raw, set_destination, set_auto_start,
}

-- sd_bus_send(3) seals what it sends, and sd_bus_message_append_basic(3),
-- sd_bus_message_set_destination(3) and sd_bus_message_set_auto_start(3) refuse a sealed message with
-- -EPERM, which is -1.
pub record Seals {W : Type 0} (lib : SdBus W) : Type 0 where
  pub is_sealed : ℕ → W → Bool
  pub send_seals :
      (m : ℕ) (c : Bool) (w : W) (n : ℕ)
      → (lib.sd_bus_send m c w).0.0 ≡ pos n
      → is_sealed m (lib.sd_bus_send m c w).1 ≡ true
  pub send_to_seals :
      (m : ℕ) (d : CArg) (c : Bool) (w : W) (n : ℕ)
      → (lib.sd_bus_send_to m d c w).0.0 ≡ pos n
      → is_sealed m (lib.sd_bus_send_to m d c w).1 ≡ true
  pub append_refuses :
      (m t : ℕ) (v : Basic) (w : W)
      → is_sealed m w ≡ true
      → (lib.sd_bus_message_append_basic m t v w).0 ≡ negsuc 0
  pub destination_refuses :
      (m : ℕ) (d : CArg) (w : W)
      → is_sealed m w ≡ true
      → (lib.sd_bus_message_set_destination m d w).0 ≡ negsuc 0
  pub auto_start_refuses :
      (m : ℕ) (b : ℤ) (w : W)
      → is_sealed m w ≡ true
      → (lib.sd_bus_message_set_auto_start m b w).0 ≡ negsuc 0

-- A call that gives what C wrote did not fail.
written-returns :
    {W A : Type 0} (f : W → (ℤ × A) × W) (s : Machine W) (a : A)
    → (written f s).0 ≡ returns a
    → (n : ℕ) × ((f s.world).0.0 ≡ pos n) × ((written f s).1.world ≡ (f s.world).1)
unfolding written
written-returns f s a h = elim (ℤ-cases (f s.world).0.0) [
  | inl (n, e) ↦ (suc n, e, rw e refl)
  | inr (inl e) ↦ (0, e, rw e refl)
  | inr (inr (n, e)) ↦ (let h' = rw e at h in ground arith)
]

module _ {W : Type 0} (lib : SdBus W) (seals : Seals lib) (m : ℕ) where
  open seals use {is_sealed}

  -- The three changes of a message fail, whatever they are to write.
  abbrev pub Refused : Machine W → ℕ → Basic → BusName → Bool → Type 0
  Refused s t v d b =
      ((append_basic_raw lib m t v s).0 ≡ fails (raw_os_error (pos 1)))
      × ((set_destination lib m d s).0 ≡ fails (raw_os_error (pos 1)))
      × ((set_auto_start lib m b s).0 ≡ fails (raw_os_error (pos 1)))

  pub sealed-Refused :
      (s : Machine W) (t : ℕ) (v : Basic) (d : BusName) (b : Bool)
      → is_sealed m s.world ≡ true
      → Refused s t v d b
  unfolding append_basic_raw set_destination set_auto_start
  sealed-Refused s t v d b h = (
    rw (seals.append_refuses m t v s.world h) refl,
    rw (seals.destination_refuses m (at d.inner) s.world h) refl,
    rw (seals.auto_start_refuses m (bool_c_int b) s.world h) refl,
  )

  -- A message that was sent is sealed.
  pub send-sealed :
      (s : Machine W) (c : ℕ)
      → (send lib m s).0 ≡ returns c
      → is_sealed m (send lib m s).1.world ≡ true
  unfolding send
  send-sealed s c h =
      let (n, sent, there) = written-returns (lib.sd_bus_send m true) s c h in
      ap (is_sealed m) there ∙ seals.send_seals m true s.world n sent

  module _ (s : Machine W) (c t : ℕ) (v : Basic) (d : BusName) (b : Bool) where
    -- After `send` gave a cookie, a value cannot be appended and neither the destination nor the
    -- auto-start flag can be changed: each answers EPERM; this holds where C seals what it sends.
    pub send-Refused : (send lib m s).0 ≡ returns c → Refused (send lib m s).1 t v d b
    send-Refused h = sealed-Refused (send lib m s).1 t v d b (send-sealed s c h)

    -- The same holds after `send_to`.
    pub send_to-Refused :
        (to : BusName) → (send_to lib m to s).0 ≡ returns c → Refused (send_to lib m to s).1 t v d b
    unfolding send_to
    send_to-Refused to h =
        let (n, sent, there) = written-returns (lib.sd_bus_send_to m (at to.inner) true) s c h in
        sealed-Refused (send_to lib m to s).1 t v d b
          (ap (is_sealed m) there ∙ seals.send_to_seals m (at to.inner) true s.world n sent)
