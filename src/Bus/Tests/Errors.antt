-- ===== src/Bus/Tests/Errors.antt =====
-- Instances of the theorems on errors, on `call` and on handlers of src/bus/mod.rs.
use rust_systemd.Base.{ℕ, [], ◌∷◌, ◌++◌, ◌≡◌, ◌⊎◌, codes, c_codes, refl, none, some, Lacks, arith}
use rust_systemd.Base.Int.{pos, negsuc}
use rust_systemd.Ffi.Heap.{at, Memory, view}
use rust_systemd.Bus.Library.{SdError, Utf8CStr, IsUtf8CStr, text_of}
use rust_systemd.Bus.RawError
use rust_systemd.Bus.RawError.{RawError, gives}
use rust_systemd.Bus.RawError.Readings.{printed, message_reads_name}
use rust_systemd.Bus.Error
use rust_systemd.Bus.Error.{Error}
use rust_systemd.Bus.Error.Laws.{CopiesStrings}
use rust_systemd.Bus.Message.{call_method, replied, failed}
use rust_systemd.Bus.Message.Call.{IsAnswered, answered, call_method_lem}
use rust_systemd.Bus.Tests.{start, test_lib}

-- Errors that keep the pointers to the caller's strings.
abbrev pub test_errors : SdError
test_errors = record {
  sd_bus_error_set = λ e n p m. (record { name = n; message = p; need_free = pos 0 }, m);
  sd_bus_error_free = λ e m. (record { name = 0; message = 0; need_free = pos 0 }, m);
  sd_bus_error_copy = λ d e m. (e, m);
  sd_bus_error_get_errno = λ e m. pos 5;
}

pub copies : CopiesStrings test_errors
copies = record {
  copies_name = λ n p m b h. h;
  copies_message = λ n p m b h. h;
  keeps_null = λ n m. refl;
}

abbrev pub two_strings : Memory
two_strings = record { next = 3; live = (1, c_codes "a.b") ∷ (2, c_codes "bad") ∷ [] }

abbrev pub a_name : Utf8CStr
a_name = record { ptr = 1; len = 3 }

abbrev pub a_message : Utf8CStr
a_message = record { ptr = 2; len = 3 }

pub a_name-IsUtf8CStr : IsUtf8CStr two_strings a_name (codes "a.b")
unfolding view
a_name-IsUtf8CStr = record { stands = refl; no_nul = ground arith; measured = refl }

pub a_message-IsUtf8CStr : IsUtf8CStr two_strings a_message (codes "bad")
unfolding view
a_message-IsUtf8CStr = record { stands = refl; no_nul = ground arith; measured = refl }

abbrev pub told : Error × Memory
told = Error.new test_errors a_name (some a_message) two_strings

abbrev untold : Error × Memory
untold = Error.new test_errors a_name none two_strings

test_lib-IsAnswered : IsAnswered (answered test_lib test_errors 7 100 start)
unfolding RawError.new
test_lib-IsAnswered = record { on_failure = λ n e. cc; on_success = λ n e. (refl, (8, refl)) }

call_method_lem_example :
    ((n p : ℕ) × ((answered test_lib test_errors 7 100 start).ret ≡ pos n)
      × ((answered test_lib test_errors 7 100 start).reply ≡ some p)
      × ((call_method test_lib 7 test_errors 100 start).0 ≡ replied (record { raw = p })))
    ⊎ ((n : ℕ) × (e : Error) × ((answered test_lib test_errors 7 100 start).ret ≡ negsuc n)
        × (e.raw.inner ≡ (answered test_lib test_errors 7 100 start).error)
        × ((call_method test_lib 7 test_errors 100 start).0 ≡ failed e))
call_method_lem_example = call_method_lem test_lib test_errors 7 100 start test_lib-IsAnswered

abbrev pub an_error : Error
an_error = record {
  raw = record { inner = record { name = 1; message = 2; need_free = pos 0 } };
  name_len = 4;
  message_len = 4;
}

a_name-Lacks : Lacks 0 (codes "a.b")
a_name-Lacks = ground arith

named : view two_strings 1 ≡ at (codes "a.b" ++ 0 ∷ [])
unfolding view
named = refl

message_reads_name_example :
    (RawError.name an_error.raw two_strings ≡ gives (record { inner = codes "a.b" ++ 0 ∷ [] }))
    × ((z : Utf8CStr) × (RawError.message an_error.raw two_strings ≡ gives z)
        × (text_of two_strings z ≡ some (codes "a.b"))
        × (RawError.display an_error.raw two_strings
            ≡ printed an_error.raw two_strings
                (gives (record { inner = codes "a.b" ++ 0 ∷ [] }))
                (gives z))
        × (RawError.debug an_error.raw two_strings
            ≡ printed an_error.raw two_strings
                (gives (record { inner = codes "a.b" ++ 0 ∷ [] }))
                (gives z)))
message_reads_name_example =
    message_reads_name an_error.raw two_strings (codes "a.b") a_name-Lacks named
