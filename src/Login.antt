-- ===== src/Login.antt =====
-- src/login.rs: the unit, slice, machine and control group of a process, over sd-login(3).
pub mod Answers
mod Tests
use rust_systemd.Base.{
  ℕ, zero, suc, ◌+◌, ◌-◌, ◌*◌, ◌/◌, ◌%◌, ◌^◌, ◌≤◌, ◌<◌, ◌≡◌, ◌≢◌, ◌⊎◌, inl, inr, ◌↔◌, Bool, true,
  false, not, ◌&&◌, ◌||◌, Option, none, some, List, [], ◌∷◌, ◌++◌, arith, Bytes, ◌==◌, ltb,
  ltb-eq-false, if◌then◌else◌, All, length, length-append, Result, ok, err, refl, c_codes, codes,
  ap, sym, subst, ◌∙◌, append_assoc, map,
}
use rust_systemd.Base.Int.{ℤ, pos}
use rust_systemd.Ffi.{
  Outcome, returns, panics, unwrap_err, Eff, lift, call, ffi_result, ◌>>=◌, ◌>>◌,
}

pub data UnitType : Type 0 where
  user_unit system_unit : UnitType

-- The C functions: a return value, and what stands at the pointer that they wrote, null if `none`.
-- `mstring_from_raw` is `MString::from_raw` of the crate mbox: a string, or an error.
pub record SdLogin (W : Type 0) : Type 0 where
  pub sd_pid_get_user_unit : ℤ → W → (ℤ × Option Bytes) × W
  pub sd_pid_get_unit : ℤ → W → (ℤ × Option Bytes) × W
  pub sd_pid_get_user_slice : ℤ → W → (ℤ × Option Bytes) × W
  pub sd_pid_get_slice : ℤ → W → (ℤ × Option Bytes) × W
  pub sd_pid_get_machine_name : ℤ → W → (ℤ × Option Bytes) × W
  pub sd_pid_get_cgroup : ℤ → W → (ℤ × Option Bytes) × W
  pub mstring_from_raw : Option Bytes → Option Bytes

-- `pid.unwrap_or(0)`
abbrev pid_or_zero : Option ℤ → ℤ
pid_or_zero none = pos 0
pid_or_zero (some p) = p

-- `unwrap().to_string()`
unfoldable pub unwrap_string : Option Bytes → Outcome Bytes
unwrap_string (some text) = returns text
unwrap_string none = panics unwrap_err

module _ {W : Type 0} (lib : SdLogin W) where
  -- `sd_try!(f(p, &mut c)); MString::from_raw(c).unwrap().to_string()`
  get_string : (W → (ℤ × Option Bytes) × W) → Eff W Bytes
  unfolding call ffi_result ◌>>=◌ unwrap_string
  get_string f = do
    (ret, c) ← call f
    lift (ffi_result ret)
    lift (unwrap_string (lib.mstring_from_raw c))

  unfoldable pub get_unit : UnitType → Option ℤ → Eff W Bytes
  unfolding get_string
  get_unit user_unit pid = get_string (lib.sd_pid_get_user_unit (pid_or_zero pid))
  get_unit system_unit pid = get_string (lib.sd_pid_get_unit (pid_or_zero pid))

  unfoldable pub get_slice : UnitType → Option ℤ → Eff W Bytes
  unfolding get_string
  get_slice user_unit pid = get_string (lib.sd_pid_get_user_slice (pid_or_zero pid))
  get_slice system_unit pid = get_string (lib.sd_pid_get_slice (pid_or_zero pid))

  unfoldable pub get_machine_name : Option ℤ → Eff W Bytes
  unfolding get_string
  get_machine_name pid = get_string (lib.sd_pid_get_machine_name (pid_or_zero pid))

  unfoldable pub get_cgroup : Option ℤ → Eff W Bytes
  unfolding get_string
  get_cgroup pid = get_string (lib.sd_pid_get_cgroup (pid_or_zero pid))
