-- ===== src/Login/Answers.antt =====
-- What the functions of src/login.rs make of an answer of sd-login(3).
use rust_systemd.Base.{ℕ, ◌≡◌, ◌↔◌, Option, none, some, arith, Bytes}
use rust_systemd.Base.Int.{ℤ, pos, negsuc, neg_c_int}
use rust_systemd.Ffi.{Outcome, returns, fails, panics, unwrap_err, raw_os_error, Machine}
use rust_systemd.Login.{
  user_unit, system_unit, SdLogin, get_string, get_unit, get_slice, get_machine_name, get_cgroup,
}

-- The process that C is asked for.
abbrev pub process : Option ℤ → ℤ
process none = pos 0
process (some pid) = pid

module _ {W : Type 0} (lib : SdLogin W) (s : Machine W) where
  -- A string is returned exactly if the call succeeded and its string can be converted; a panic comes
  -- exactly if it succeeded with one that cannot; and every error is the errno of a failed call.
  pub record Answers (c : (ℤ × Option Bytes) × W) (r : Outcome Bytes × Machine W) : Type 0 where
    pub returned :
        (text : Bytes)
        → (r.0 ≡ returns text)
          ↔ ((lib.mstring_from_raw c.0.1 ≡ some text) × ((n : ℕ) × (c.0.0 ≡ pos n)))
    pub panicked :
        (r.0 ≡ panics unwrap_err)
        ↔ ((lib.mstring_from_raw c.0.1 ≡ none) × ((n : ℕ) × (c.0.0 ≡ pos n)))
    pub failed : (n : ℕ) → c.0.0 ≡ negsuc n → r.0 ≡ fails (raw_os_error (neg_c_int (negsuc n)))
    pub kept : r.1 ≡ record s { world = c.1 }

  get_string-Answers : (f : W → (ℤ × Option Bytes) × W) → Answers (f s.world) (get_string lib f s)
  unfolding get_string
  get_string-Answers f = record {
    returned = λ t. (λ h. ground arith, λ (e, (n, q)). ground arith);
    panicked = (λ h. ground arith, λ (e, (n, q)). ground arith);
    failed = λ n q. ground arith;
    kept = ground arith;
  }

  -- Each function returns a string exactly if its C function succeeded and the string that it wrote
  -- can be converted, panics exactly if it succeeded with one that cannot, and else fails with the
  -- errno; `UserUnit` and `SystemUnit` choose the C function, which is asked for the process 0, the
  -- calling one, where no process id is given.
  pub answers :
      (pid : Option ℤ)
      → let p = process pid in
        Answers (lib.sd_pid_get_user_unit p s.world) (get_unit lib user_unit pid s)
        × Answers (lib.sd_pid_get_unit p s.world) (get_unit lib system_unit pid s)
        × Answers (lib.sd_pid_get_user_slice p s.world) (get_slice lib user_unit pid s)
        × Answers (lib.sd_pid_get_slice p s.world) (get_slice lib system_unit pid s)
        × Answers (lib.sd_pid_get_machine_name p s.world) (get_machine_name lib pid s)
        × Answers (lib.sd_pid_get_cgroup p s.world) (get_cgroup lib pid s)
  unfolding get_unit get_slice get_machine_name get_cgroup
  answers pid = (
    get_string-Answers (lib.sd_pid_get_user_unit (process pid)),
    get_string-Answers (lib.sd_pid_get_unit (process pid)),
    get_string-Answers (lib.sd_pid_get_user_slice (process pid)),
    get_string-Answers (lib.sd_pid_get_slice (process pid)),
    get_string-Answers (lib.sd_pid_get_machine_name (process pid)),
    get_string-Answers (lib.sd_pid_get_cgroup (process pid)),
  )
