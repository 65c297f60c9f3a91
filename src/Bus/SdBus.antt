-- ===== src/Bus/SdBus.antt =====
-- sd-bus(3), which src/bus/mod.rs only calls: the C functions over the state `W` that they keep. Buses
-- and messages are pointers; a string argument is what the function finds behind it.
use rust_systemd.Base.{ℕ, Bool, Option, Bytes}
use rust_systemd.Base.Int.{ℤ}
use rust_systemd.Ffi.Heap.{CArg, Memory}
use rust_systemd.Bus.Library.{SdBusError}

-- What `void *` points to in `append_basic` and `read_basic`: a number, with the bytes that it takes in
-- memory, or a string.
pub data Basic : Type 0 where
  bits : (size n : ℕ) → Basic
  text : Bytes → Basic

-- What `sd_bus_call` does: its return value, the error and the reply that it writes, and the heap.
pub record CallAnswer (W : Type 0) : Type 0 where
  pub ret : ℤ
  pub error : SdBusError
  pub reply : Option ℕ
  pub memory : Memory
  pub world : W

-- An out-parameter that C did not write is `none`, as the source leaves it uninitialised.
pub record SdBus (W : Type 0) : Type 0 where
  pub sd_bus_default : W → (ℤ × ℕ) × W
  pub sd_bus_default_user : W → (ℤ × ℕ) × W
  pub sd_bus_default_system : W → (ℤ × ℕ) × W
  pub sd_bus_ref : ℕ → W → ℕ × W
  pub sd_bus_unref : ℕ → W → Unit {0} × W
  pub sd_bus_get_events : ℕ → W → ℤ × W
  pub sd_bus_get_timeout : ℕ → W → (ℤ × ℕ) × W
  pub sd_bus_get_fd : ℕ → W → ℤ × W
  -- the bytes at the pointer that is written
  pub sd_bus_get_unique_name : ℕ → W → (ℤ × Bytes) × W
  pub sd_bus_message_new_signal : ℕ → CArg → CArg → CArg → W → (ℤ × ℕ) × W
  pub sd_bus_message_new_method_call : ℕ → CArg → CArg → CArg → CArg → W → (ℤ × ℕ) × W
  pub sd_bus_message_new_method_error : ℕ → SdBusError → W → (ℤ × ℕ) × W
  pub sd_bus_message_new_method_return : ℕ → W → (ℤ × ℕ) × W
  pub sd_bus_request_name : ℕ → CArg → ℕ → W → ℤ × W
  pub sd_bus_release_name : ℕ → CArg → W → ℤ × W
  pub sd_bus_add_object_manager : ℕ → CArg → W → ℤ × W
  pub sd_bus_message_ref : ℕ → W → ℕ × W
  pub sd_bus_message_unref : ℕ → W → Unit {0} × W
  pub sd_bus_message_get_bus : ℕ → W → ℕ × W
  pub sd_bus_message_set_destination : ℕ → CArg → W → ℤ × W
  pub sd_bus_message_set_auto_start : ℕ → ℤ → W → ℤ × W
  -- the Boolean says whether a cookie is asked for
  pub sd_bus_send : ℕ → Bool → W → (ℤ × ℕ) × W
  pub sd_bus_send_to : ℕ → CArg → Bool → W → (ℤ × ℕ) × W
  pub sd_bus_call : ℕ → ℕ → SdBusError → Memory → W → CallAnswer W
  -- the last pointer is the callback, which is handed to `raw_message_handler`
  pub sd_bus_call_async : ℕ → ℕ → ℕ → W → ℤ × W
  pub sd_bus_add_object : ℕ → CArg → ℕ → W → ℤ × W
  pub sd_bus_message_append_basic : ℕ → ℕ → Basic → W → ℤ × W
  pub sd_bus_message_read_basic : ℕ → ℕ → W → (ℤ × Basic) × W
  -- the type and the contents that are written
  pub sd_bus_message_peek_type : ℕ → W → (ℤ × (ℕ × Option Bytes)) × W
