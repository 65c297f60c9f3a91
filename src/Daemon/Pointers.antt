-- ===== src/Daemon/Pointers.antt =====
-- Which strings of src/daemon.rs the C functions can read.
use rust_systemd.Base.{
  ◌≡◌, Bool, true, false, Option, none, some, [], ◌∷◌, ◌++◌, arith, Bytes, length, refl,
}
use rust_systemd.Base.Int.{ℤ, is_nonzero}
use rust_systemd.Ffi.{Outcome, returns, fails, panics, unwrap_nul, Machine, ffi_result, has_nul}
use rust_systemd.Ffi.Heap.{null, dangling, view, IsSound, view-release-alloc}
use rust_systemd.Daemon.Library.{SdDaemon}
use rust_systemd.Daemon.{
  is_fifo, is_special, is_mq, is_socket_unix, get_c_socktype, get_c_listening, SocketType,
  Listening,
}

-- What the wrapper returns for the C function's return value, an errno or a Boolean.
abbrev pub as_bool : ℤ → Outcome Bool
as_bool ret = elim (ffi_result ret) [
  | returns n ↦ returns (is_nonzero n)
  | fails e ↦ fails e
  | panics p ↦ panics p
]

module _ {W : Type 0} (lib : SdDaemon W) (fd : ℤ) (s : Machine W) where
  -- The result and the state behind the C functions after one call.
  abbrev pub Calls : (ℤ × W) → Outcome Bool × Machine W → Type 0
  Calls c r = (r.0 ≡ as_bool c.0) × (r.1.world ≡ c.1)

  -- The call went wrong before the C function: nothing but the panic.
  abbrev pub PanicsOnNul : Outcome Bool × Machine W → Type 0
  PanicsOnNul r = (r.0 ≡ panics unwrap_nul) × (r.1.world ≡ s.world)

  -- With a path that holds no '\0', `sd_is_fifo`, `sd_is_special`, `sd_is_mq` and `sd_is_socket_unix`
  -- are all called with a pointer to memory that has been freed, in any memory whose addresses were
  -- handed out; their return value decides the result.
  pub paths_dangle :
      (socktype : Option SocketType) (listening : Listening) (path : Bytes)
      → has_nul path ≡ false
      → IsSound s.memory
      → Calls (lib.sd_is_fifo fd dangling s.world) (is_fifo lib fd (some path) s)
        × Calls (lib.sd_is_special fd dangling s.world) (is_special lib fd (some path) s)
        × Calls (lib.sd_is_mq fd dangling s.world) (is_mq lib fd (some path) s)
        × Calls
            (lib.sd_is_socket_unix fd
              (get_c_socktype lib socktype)
              (get_c_listening listening)
              dangling
              (length path)
              s.world)
            (is_socket_unix lib fd socktype listening (some path) s)
  unfolding is_fifo is_special is_mq is_socket_unix
  paths_dangle socktype mode path plain sound =
      let gone = view-release-alloc (path ++ 0 ∷ []) s.memory sound in
      (ground (arith, gone), ground (arith, gone), ground (arith, gone), ground (arith, gone))

  -- With no path the four C functions get a null pointer, and a path that holds '\0' panics before
  -- the call.
  pub path_or_null :
      (socktype : Option SocketType) (listening : Listening) (path : Bytes)
      → has_nul path ≡ true
      → (Calls (lib.sd_is_fifo fd null s.world) (is_fifo lib fd none s)
          × PanicsOnNul (is_fifo lib fd (some path) s))
        × (Calls (lib.sd_is_special fd null s.world) (is_special lib fd none s)
            × PanicsOnNul (is_special lib fd (some path) s))
        × (Calls (lib.sd_is_mq fd null s.world) (is_mq lib fd none s)
            × PanicsOnNul (is_mq lib fd (some path) s))
        × (Calls
              (lib.sd_is_socket_unix fd
                (get_c_socktype lib socktype)
                (get_c_listening listening)
                null
                0
                s.world)
              (is_socket_unix lib fd socktype listening none s)
            × PanicsOnNul (is_socket_unix lib fd socktype listening (some path) s))
  unfolding is_fifo is_special is_mq is_socket_unix
  path_or_null socktype mode path nul = (
    (ground (arith, view-null), ground arith),
    (ground (arith, view-null), ground arith),
    (ground (arith, view-null), ground arith),
    (ground (arith, view-null), ground arith),
  )
    where
      view-null : view s.memory 0 ≡ null
      view-null = unfold view in refl
