-- ===== src/Bus/Tests/Sharing.antt =====
-- A message of src/bus/mod.rs and its clone, both with an iterator.
use rust_systemd.Base.{List, [], ◌∷◌, refl, map}
use rust_systemd.Bus.Types.{u32}
use rust_systemd.Bus.Types.Body.{Value, number_value, field}
use rust_systemd.Bus.Handles.{Message, clone_message}
use rust_systemd.Bus.Types.Body.Sharing.{RefShares, Interleaved, clones_share_reading}
use rust_systemd.Bus.Tests.{World, start, reader, test_lib, stores, peeks}
use rust_systemd.Bus.Tests.Values.{flag, fits_u32}

-- Message 7, with two values to read, and its clone.
abbrev flag_and_number : List Value
flag_and_number = flag ∷ number_value u32 (record { value = 70000; fits = fits_u32 }) ∷ []

abbrev a_message : Message
a_message = record { raw = 7 }

abbrev message_cloned : Message × World
message_cloned = clone_message test_lib a_message (reader (map field flag_and_number)).world

shares : RefShares test_lib stores
shares = record { same_message = λ p w. refl; same_unread = λ p w. refl }

clones_share_reading_example :
    Interleaved test_lib 7 message_cloned.0.raw flag
      (number_value u32 (record { value = 70000; fits = fits_u32 }))
      (record { memory = start.memory; world = message_cloned.1 })
clones_share_reading_example =
    clones_share_reading test_lib stores peeks flag
      (number_value u32 (record { value = 70000; fits = fits_u32 })) [] tt tt shares a_message
      start.memory (reader (map field flag_and_number)).world refl
