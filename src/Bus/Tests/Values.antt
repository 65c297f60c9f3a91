-- ===== src/Bus/Tests/Values.antt =====
-- Values of src/bus/types.rs that are sent and read.
use rust_systemd.Base.{
  ◌<◌, ◌*◌, ◌^◌, List, [], ◌∷◌, ◌++◌, ◌≡◌, ◌≢◌, codes, c_codes, refl, Lacks, All, arith, true, map,
  some,
}
use rust_systemd.Base.Int.{pos}
use rust_systemd.Ffi.{Machine, returns, fails, raw_os_error}
use rust_systemd.Names.CStr.{up_to_nul}
use rust_systemd.Names.ObjectPath.{ObjectPath}
use rust_systemd.Bus.SdBus.{bits}
use rust_systemd.Bus.Types.{u32, size_of}
use rust_systemd.Bus.Types.Stores.{GivesNone, no_more, one_byte}
use rust_systemd.Bus.Types.Body.{
  Value, number_value, bool_value, path_value, text_value, bool_kind, text_kind, kind_of, arrives,
  IsSendable, IsValidValue, field, next_value, append_value, append_all, next_all,
}
use rust_systemd.Bus.Types.Body.Reader.{read_message, read_message-append_all}
use rust_systemd.Names.BusName.{BusName}
use rust_systemd.Bus.Message.{send, set_auto_start}
use rust_systemd.Bus.Message.Sealing.{Refused}
use rust_systemd.Bus.Types.Body.Sent.{Later, at_once, appended, flagged, sent, sent_is_final}
use rust_systemd.Bus.Types.Body.Delivery.{delivered, wrong_kind}
use rust_systemd.Bus.Tests.{World, start, reader, test_lib, stores, seals, leaves, peeks, peeks_end}

plain : Lacks 0 (codes "/a")
plain = ground arith

abbrev a_path : ObjectPath
a_path = record { inner = codes "/a" ++ 0 ∷ [] }

pub fits_u32 : 70000 < 2 ^ (8 * size_of u32)
unfolding size_of
fits_u32 = omega arith

-- A sender's body of every type, with the text "hi" and the path "/a".
abbrev some_values : List Value
some_values =
    number_value u32 (record { value = 70000; fits = fits_u32 })
    ∷ path_value a_path
    ∷ bool_value true
    ∷ text_value (record { inner = codes "hi" ++ 0 ∷ [] })
    ∷ []

some_values-IsSendable : All IsSendable some_values
some_values-IsSendable =
    (tt, ((codes "/a", refl, plain), (tt, ((codes "hi", refl, ground arith), tt))))

some_values-IsValidValue : All IsValidValue some_values
unfolding up_to_nul
some_values-IsValidValue = (
  tt,
  (
    (codes "a" ∷ [], (ground arith, tt), refl),
    (tt, (one_byte 104 (omega arith) (one_byte 105 (omega arith) no_more), tt)),
  ),
)

-- A reader of the message that the sender wrote.
abbrev arrived : Machine World
arrived = reader (append_all test_lib 7 some_values start).1.world.body

delivered_example :
    ((append_all test_lib 7 some_values start).0 ≡ returns tt)
    × ((append_all test_lib 7 some_values start).1.world.body ≡ map field some_values)
    × ((next_all test_lib 7 (map kind_of some_values) arrived).0
        ≡ returns (map (λ v. some (arrives v)) some_values))
    × GivesNone
        (next_value test_lib 7 bool_kind
          (next_all test_lib 7 (map kind_of some_values) arrived).1).0
delivered_example =
    delivered test_lib stores 7 some_values bool_kind start arrived refl refl some_values-IsSendable
      some_values-IsValidValue refl

abbrev pub flag : Value
flag = bool_value true

abbrev at_flag : Machine World
at_flag = reader (map field (flag ∷ []))

not_bool : text_kind ≢ kind_of flag
not_bool e = cc

wrong_kind_example :
    ((next_value test_lib 7 text_kind at_flag).0 ≡ fails (raw_os_error (pos 6)))
    × ((next_value test_lib 7 bool_kind (next_value test_lib 7 text_kind at_flag).1).0
        ≡ returns (some flag))
wrong_kind_example = wrong_kind test_lib stores 7 text_kind flag [] at_flag not_bool tt refl

read_message-append_all_example :
    ((append_all test_lib 7 some_values start).0 ≡ returns tt)
    × ((read_message test_lib 7 5 arrived).0 ≡ returns (some (map arrives some_values)))
read_message-append_all_example =
    read_message-append_all test_lib stores peeks peeks_end 7 some_values 5 start arrived
      (omega arith) refl refl some_values-IsSendable some_values-IsValidValue refl

-- After the send, the program appends, changes the flag and sends again.
abbrev body_written : Machine World
body_written = (append_all test_lib 7 some_values start).1

abbrev was_sent : Machine World
was_sent = (send test_lib 7 body_written).1

abbrev appended_to : Machine World
appended_to = (append_value test_lib 7 flag was_sent).1

abbrev sent_again : Machine World
sent_again = (send test_lib 7 (set_auto_start test_lib 7 true appended_to).1).1

three_more : Later test_lib 7 was_sent sent_again
three_more = sent (flagged (appended at_once flag) true)

abbrev a_dest : BusName
a_dest = record { inner = c_codes "a.b" }

gave_cookie : (send test_lib 7 body_written).0 ≡ returns 9
unfolding send
gave_cookie = refl

sent_is_final_example :
    Refused test_lib seals 7 sent_again b'y' (bits 1 3) a_dest true
    × ((next_all test_lib 7 (map kind_of some_values) (reader sent_again.world.body)).0
        ≡ returns (map (λ v. some (arrives v)) some_values))
    × ((next_all test_lib 7 (map kind_of some_values) (reader sent_again.world.body)).1.world.cursor
        ≡ [])
sent_is_final_example =
    sent_is_final test_lib stores seals leaves 7 some_values 9 b'y' (bits 1 3) a_dest true start
      sent_again (reader sent_again.world.body) refl refl some_values-IsSendable
      some_values-IsValidValue gave_cookie three_more refl
