-- ===== src/Daemon/Notify.antt =====
-- What `notify` and `pid_notify` of src/daemon.rs send.
use rust_systemd.Base.{
  ◌+◌, ◌≡◌, ◌≢◌, Bool, true, false, [], ◌∷◌, ◌++◌, arith, Bytes, All, Lacks, refl,
}
use rust_systemd.Base.Int.{ℤ, bool_c_int}
use rust_systemd.Ffi.{Outcome, panics, unwrap_nul, Machine, has_nul}
use rust_systemd.Ffi.Heap.{at, IsSound, view-alloc, release-alloc}
use rust_systemd.Daemon.Library.{SdDaemon}
use rust_systemd.Daemon.State.{
  StateMap, state_text, read_state, IsPlain, read_state-state_text, Lacks-state_text,
}
use rust_systemd.Daemon.Pointers.{as_bool}
use rust_systemd.Daemon.{notify, pid_notify}

has_nul-Lacks : (s : Bytes) → Lacks 0 s → has_nul s ≡ false
unfolding has_nul
has_nul-Lacks [] h = refl
has_nul-Lacks (c ∷ s) (h, hs) = ground (arith, has_nul-Lacks s hs)

abbrev pub NoNul : Bytes × Bytes → Type 0
NoNul e = Lacks 0 e.0 × Lacks 0 e.1

module _ {W : Type 0} (lib : SdDaemon W) (unset_environment : Bool) (state : StateMap)
    (s : Machine W) where
  -- The state after a call that got the string `text`: the world of the C function, and the memory as
  -- before, one address used up.
  abbrev pub Sent : Bytes → (ℤ × W) → Outcome Bool × Machine W → Type 0
  Sent text c r =
      (r.0 ≡ as_bool c.0)
      × (r.1.world ≡ c.1)
      × (r.1.memory ≡ record s.memory { next = s.memory.next + 1 })

  notify_text :
      has_nul (state_text state) ≡ false
      → IsSound s.memory
      → Sent
          (state_text state)
          (lib.sd_notify (bool_c_int unset_environment) (at (state_text state ++ 0 ∷ [])) s.world)
          (notify lib unset_environment state s)
  unfolding notify
  notify_text plain sound = rw plain (
      ground (
        arith,
        view-alloc (state_text state ++ 0 ∷ []) s.memory sound,
        release-alloc (state_text state ++ 0 ∷ []) s.memory sound,
      ))

  pid_notify_text :
      (pid : ℤ)
      → has_nul (state_text state) ≡ false
      → IsSound s.memory
      → Sent
          (state_text state)
          (lib.sd_pid_notify pid
            (bool_c_int unset_environment)
            (at (state_text state ++ 0 ∷ []))
            s.world)
          (pid_notify lib pid unset_environment state s)
  unfolding pid_notify
  pid_notify_text pid plain sound = rw plain (
      ground (
        arith,
        view-alloc (state_text state ++ 0 ∷ []) s.memory sound,
        release-alloc (state_text state ++ 0 ∷ []) s.memory sound,
      ))

  -- `notify` and `pid_notify` give the C function one C string that can be read at the call, and free
  -- it whatever the call returns; its reader gets the entries back. This holds for a state with an
  -- entry whose keys hold no '=', and whose keys and values hold neither a line break nor '\0'.
  pub notify_lem :
      (pid : ℤ)
      → state ≢ []
      → All IsPlain state
      → All NoNul state
      → IsSound s.memory
      → (text : Bytes) × (read_state text ≡ state)
        × Sent text
            (lib.sd_notify (bool_c_int unset_environment) (at (text ++ 0 ∷ [])) s.world)
            (notify lib unset_environment state s)
        × Sent text
            (lib.sd_pid_notify pid (bool_c_int unset_environment) (at (text ++ 0 ∷ [])) s.world)
            (pid_notify lib pid unset_environment state s)
  notify_lem pid some_entry plain no_nul sound =
      let readable : has_nul (state_text state) ≡ false =
        has_nul-Lacks (state_text state)
          (Lacks-state_text 0 (omega arith) (omega arith) state no_nul) in
      (
        state_text state,
        read_state-state_text state some_entry plain,
        notify_text readable sound,
        pid_notify_text pid readable sound,
      )

  -- A '\0' in the text panics before the call, and nothing is left allocated.
  pub notify-has_nul :
      (pid : ℤ)
      → has_nul (state_text state) ≡ true
      → (notify lib unset_environment state s ≡ (panics unwrap_nul, s))
        × (pid_notify lib pid unset_environment state s ≡ (panics unwrap_nul, s))
  unfolding notify pid_notify
  notify-has_nul pid nul = (ground arith, ground arith)
