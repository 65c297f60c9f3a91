-- ===== src/Bus/Message/Arguments.antt =====
-- What the constructors of messages of src/bus/mod.rs hand to C.
use rust_systemd.Base.{
  ℕ, ◌<◌, ◌≤◌, ◌≡◌, ◌⊎◌, inl, inr, List, ◌∷◌, ◌++◌, Bool, Bytes, All, length, ok, arith, suc,
}
use rust_systemd.Base.Int.{ℤ, pos, negsuc, neg_c_int, ℤ-cases}
use rust_systemd.Ffi.{Machine, Outcome, returns, fails, raw_os_error, pure, ◌>>=◌}
use rust_systemd.Ffi.Heap.{at}
use rust_systemd.Names.Chars.{IsNameChar, IsNameStart}
use rust_systemd.Names.CStr.{up_to_nul}
use rust_systemd.Names.Tail.{IsElement, spelled}
use rust_systemd.Names.ObjectPath
use rust_systemd.Names.ObjectPath.{ObjectPath}
use rust_systemd.Names.ObjectPath.Grammar.{IsPathElement, path_of}
use rust_systemd.Names.InterfaceName
use rust_systemd.Names.InterfaceName.{InterfaceName}
use rust_systemd.Names.InterfaceName.Grammar.{IsInterfaceElement}
use rust_systemd.Names.BusName
use rust_systemd.Names.BusName.{BusName}
use rust_systemd.Names.BusName.Grammar.{IsBusElement, prefix}
use rust_systemd.Names.MemberName
use rust_systemd.Names.MemberName.{MemberName}
use rust_systemd.Names.Pointer.{path_to_c, interface_to_c, bus_to_c, member_to_c}
use rust_systemd.Bus.SdBus.{SdBus}
use rust_systemd.Bus.Handles.{Message, take_ptr}
use rust_systemd.Bus.Message.{written, new_signal, new_method_call}

-- Texts of the D-Bus specification, without its limit of 255 bytes on an interface name.
abbrev pub IsPathText : Bytes → Type 0
IsPathText t = (es : List Bytes) × All IsPathElement es × (t ≡ path_of es)

abbrev pub IsInterfaceText : Bytes → Type 0
IsInterfaceText t =
    (first : Bytes) × (others : List Bytes) × All IsInterfaceElement (first ∷ others)
    × (0 < length others)
    × (t ≡ first ++ spelled b'.' others)

abbrev pub IsBusText : Bytes → Type 0
IsBusText t =
    (u : Bool) × (first : Bytes) × (others : List Bytes) × All (IsBusElement u) (first ∷ others)
    × (0 < length others)
    × (length t ≤ 255)
    × (t ≡ prefix u ++ (first ++ spelled b'.' others))

abbrev pub IsMemberText : Bytes → Type 0
IsMemberText t = IsElement IsNameStart IsNameChar t × (length t ≤ 255)

-- The message that C wrote, owned, or the errno of its return value.
abbrev pub OwnsOrFails :
    {W : Type 0} → Machine W → (ℤ × ℕ) × W → Outcome Message × Machine W → Type 0
OwnsOrFails s ((ret, m), w) r =
    ((n : ℕ) × (ret ≡ pos n) × (r ≡ (returns (take_ptr m), record s { world = w })))
    ⊎ ((n : ℕ) × (ret ≡ negsuc n)
        × (r ≡ (fails (raw_os_error (neg_c_int (negsuc n))), record s { world = w })))

module _ {W : Type 0} (f : W → (ℤ × ℕ) × W) (s : Machine W) where
  owned_or_failed : OwnsOrFails s (f s.world) ((written f >>= λ m. pure (take_ptr m)) s)
  unfolding written ◌>>=◌
  owned_or_failed = elim (ℤ-cases (f s.world).0.0) [
    | inl (n, e) ↦ inl (suc n, e, ground arith)
    | inr (inl e) ↦ inl (0, e, ground arith)
    | inr (inr (n, e)) ↦ inr (n, e, ground arith)
  ]

module _ {W : Type 0} (lib : SdBus W) (self : ℕ) (s : Machine W) (dest : BusName)
    (path : ObjectPath) (interface : InterfaceName) (member : MemberName) where
  abbrev pub signal_answer : (ℤ × ℕ) × W
  signal_answer =
      lib.sd_bus_message_new_signal self (at path.inner) (at interface.inner) (at member.inner)
        s.world

  abbrev pub call_answer : (ℤ × ℕ) × W
  call_answer =
      lib.sd_bus_message_new_method_call self (at dest.inner) (at path.inner) (at interface.inner)
        (at member.inner) s.world

  new_signal_lem : OwnsOrFails s signal_answer (new_signal lib self path interface member s)
  unfolding new_signal
  new_signal_lem =
      owned_or_failed
        (lib.sd_bus_message_new_signal self (at path.inner) (at interface.inner) (at member.inner))
        s

  new_method_call_lem :
      OwnsOrFails s call_answer (new_method_call lib self dest path interface member s)
  unfolding new_method_call
  new_method_call_lem =
      owned_or_failed
        (lib.sd_bus_message_new_method_call self (at dest.inner) (at path.inner)
          (at interface.inner) (at member.inner))
        s

  -- `new_signal` and `new_method_call` with names that `from_bytes` accepted: C reads a path of
  -- the specification, a bus name and a member name of the specification with its limit of 255 bytes, and
  -- two or more elements of an interface name with periods between, of any length, as no limit is checked
  -- there; the result owns the message that C wrote, or is the errno if the return value is negative.
  pub new_message_lem :
      (b₀ b₁ b₂ b₃ : Bytes)
      → BusName.from_bytes b₀ ≡ ok dest
      → ObjectPath.from_bytes b₁ ≡ ok path
      → InterfaceName.from_bytes b₂ ≡ ok interface
      → MemberName.from_bytes b₃ ≡ ok member
      → IsBusText (up_to_nul dest.inner)
        × IsPathText (up_to_nul path.inner)
        × IsInterfaceText (up_to_nul interface.inner)
        × IsMemberText (up_to_nul member.inner)
        × OwnsOrFails s signal_answer (new_signal lib self path interface member s)
        × OwnsOrFails s call_answer (new_method_call lib self dest path interface member s)
  new_message_lem b₀ b₁ b₂ b₃ h₀ h₁ h₂ h₃ = (
    bus_to_c b₀ dest h₀,
    path_to_c b₁ path h₁,
    interface_to_c b₂ interface h₂,
    member_to_c b₃ member h₃,
    new_signal_lem,
    new_method_call_lem,
  )
