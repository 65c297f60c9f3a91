-- ===== src/Login/Tests.antt =====
-- Runs of src/login.rs, and an instance of its theorem.
use rust_systemd.Base.{String, [], ◌≡◌, Bytes, codes, refl, Option, none, some}
use rust_systemd.Base.Int.{ℤ, pos, negsuc}
use rust_systemd.Ffi.{Machine, returns, panics, unwrap_err}
use rust_systemd.Login.{
  SdLogin, user_unit, system_unit, get_unit, get_slice, get_machine_name, get_cgroup,
}
use rust_systemd.Login.Answers.{Answers, answers}

abbrev answer : String → ℤ → Unit {0} → (ℤ × Option Bytes) × Unit {0}
answer name pid w = ((pos 0, some (codes name)), w)

-- A library that names each source, and fails for a machine with ENXIO.
abbrev test_lib : SdLogin (Unit {0})
test_lib = record {
  sd_pid_get_user_unit = answer "user";
  sd_pid_get_unit = answer "unit";
  sd_pid_get_user_slice = answer "user.slice";
  sd_pid_get_slice = answer "slice";
  sd_pid_get_machine_name = λ pid w. ((negsuc 5, none), w);
  sd_pid_get_cgroup = λ pid w. ((pos 0, none), w);
  mstring_from_raw = λ text. text;
}

abbrev start : Machine (Unit {0})
start = record { memory = record { next = 1; live = [] }; world = tt }

own_unit : get_unit test_lib system_unit none start ≡ (returns (codes "unit"), start)
unfolding get_unit
own_unit = refl

bad_text_panics : (get_cgroup test_lib none start).0 ≡ panics unwrap_err
unfolding get_cgroup
bad_text_panics = refl

answers_example :
    Answers test_lib start
      (answer "user" (pos 1) tt)
      (get_unit test_lib user_unit (some (pos 1)) start)
    × Answers test_lib start
        (answer "unit" (pos 1) tt)
        (get_unit test_lib system_unit (some (pos 1)) start)
    × Answers test_lib start
        (answer "user.slice" (pos 1) tt)
        (get_slice test_lib user_unit (some (pos 1)) start)
    × Answers test_lib start
        (answer "slice" (pos 1) tt)
        (get_slice test_lib system_unit (some (pos 1)) start)
    × Answers test_lib start ((negsuc 5, none), tt) (get_machine_name test_lib (some (pos 1)) start)
    × Answers test_lib start ((pos 0, none), tt) (get_cgroup test_lib (some (pos 1)) start)
answers_example = answers test_lib start (some (pos 1))
