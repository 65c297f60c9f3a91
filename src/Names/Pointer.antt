-- ===== src/Names/Pointer.antt =====
-- The names of src/bus/mod.rs behind a pointer: what a C function reads of a checked name, and what the
-- unchecked constructors make of a C string.
use rust_systemd.Base.{
  ℕ, ◌<◌, ◌≤◌, Bool, true, false, ◌≡◌, ◌≢◌, List, [], ◌∷◌, ◌++◌, arith, Bytes, All, Lacks, length,
  ok, ap, sym, subst, ◌∙◌, append_assoc, length-append,
}
use rust_systemd.Names.Chars.{IsNameChar, IsNameStart, IsBusChar}
use rust_systemd.Names.CStr
use rust_systemd.Names.CStr.{
  up_to_nul, up_to_nul-append, to_bytes-append, from_ptr-append, to_bytes_with_nul_lem,
}
use rust_systemd.Names.Tail.{
  IsElement, spelled, Lacks-element, Lacks-spelled, Lacks-element-spelled,
}
use rust_systemd.Names.ObjectPath
use rust_systemd.Names.ObjectPath.{ObjectPath}
use rust_systemd.Names.ObjectPath.Grammar.{IsPathElement, path_of, HoldsPath}
use rust_systemd.Names.InterfaceName
use rust_systemd.Names.InterfaceName.{InterfaceName}
use rust_systemd.Names.InterfaceName.Grammar.{IsInterfaceElement}
use rust_systemd.Names.BusName
use rust_systemd.Names.BusName.{BusName}
use rust_systemd.Names.BusName.Grammar.{IsStart, IsBusElement, prefix}
use rust_systemd.Names.MemberName
use rust_systemd.Names.MemberName.{MemberName}

module _ (text : Bytes) (last : ℕ) (junk : Bytes) where
  -- A C string of at least one byte, and what may stand behind it.
  abbrev pub whole : Bytes
  whole = text ++ last ∷ []

  abbrev pub found : Bytes
  found = whole ++ 0 ∷ junk

  -- Of a C string of at least one byte, `from_ptr_unchecked` of an interface name gives the whole as
  -- `to_bytes`, but that of an object path, a bus name or a member name gives it without its last byte.
  pub to_bytes-from_ptr_unchecked :
      Lacks 0 whole
      → (CStr.to_bytes (InterfaceName.from_ptr_unchecked found).inner ≡ whole)
        × (CStr.to_bytes (ObjectPath.from_ptr_unchecked found).inner ≡ text)
        × (CStr.to_bytes (BusName.from_ptr_unchecked found).inner ≡ text)
        × (CStr.to_bytes (MemberName.from_ptr_unchecked found).inner ≡ text)
  unfolding ObjectPath.from_ptr_unchecked InterfaceName.from_ptr_unchecked
      BusName.from_ptr_unchecked MemberName.from_ptr_unchecked
  to_bytes-from_ptr_unchecked h =
      let read = from_ptr-append whole junk h in
      (
        rw (read, to_bytes_with_nul_lem) (to_bytes-append whole 0),
        rw (read, to_bytes-append whole 0) (to_bytes-append text last),
        rw (read, to_bytes-append whole 0) (to_bytes-append text last),
        rw (read, to_bytes-append whole 0) (to_bytes-append text last),
      )

not_nul : (c : ℕ) → IsNameChar c → c ≢ 0
not_nul c h = ground arith

not_nul_start : (c : ℕ) → IsNameStart c → c ≢ 0
not_nul_start c h = ground arith

Lacks-path_of : (es : List Bytes) → All IsPathElement es → Lacks 0 (path_of es)
Lacks-path_of [] h = (omega arith, tt)
Lacks-path_of (e ∷ es) h = Lacks-spelled 0 b'/' (omega arith) not_nul not_nul (e ∷ es) h

-- What a C function reads of an accepted slice, which `spells` takes apart.
read_of : (b name junk : Bytes) → b ≡ name ++ 0 ∷ junk → Lacks 0 name → up_to_nul b ≡ name
read_of b name junk spells h = ap up_to_nul spells ∙ up_to_nul-append name junk h

-- What a C function reads of a path that `ObjectPath::from_bytes` accepted is a path of the
-- specification.
pub path_to_c :
    (b : Bytes) (p : ObjectPath)
    → ObjectPath.from_bytes b ≡ ok p
    → (es : List Bytes) × All IsPathElement es × (up_to_nul p.inner ≡ path_of es)
unfolding ObjectPath.from_bytes_unchecked
path_to_c b p h =
    let (e, holds) = (ObjectPath.Grammar.object_path_iff b p).0 h in
    (
      holds.elements,
      holds.are_elements,
      ap (λ (x : ObjectPath). up_to_nul x.inner) e
          ∙ read_of b _ holds.junk holds.spells (Lacks-path_of holds.elements holds.are_elements),
    )

-- What a C function reads of an interface name that `InterfaceName::from_bytes` accepted is two elements
-- or more, with periods between them.
pub interface_to_c :
    (b : Bytes) (p : InterfaceName)
    → InterfaceName.from_bytes b ≡ ok p
    → (first : Bytes) × (others : List Bytes) × All IsInterfaceElement (first ∷ others)
      × (0 < length others)
      × (up_to_nul p.inner ≡ first ++ spelled b'.' others)
unfolding InterfaceName.from_bytes_unchecked
interface_to_c b p h =
    let (e, holds) = InterfaceName.Grammar.from_bytes→HoldsInterface b h in
    (
      holds.first,
      holds.others,
      (holds.first_element, holds.other_elements),
      holds.at_least_two,
      ap (λ (x : InterfaceName). up_to_nul x.inner) e
          ∙ read_of b _ holds.junk (holds.spells ∙ sym (append_assoc holds.first _ _)) (
              Lacks-element-spelled 0 b'.' (omega arith) not_nul_start not_nul holds.first
                holds.others holds.first_element holds.other_elements),
    )

-- What it reads of a member name that was accepted is one element of at most 255 bytes.
pub member_to_c :
    (b : Bytes) (p : MemberName)
    → MemberName.from_bytes b ≡ ok p
    → IsElement IsNameStart IsNameChar (up_to_nul p.inner) × (length (up_to_nul p.inner) ≤ 255)
unfolding MemberName.from_bytes_unchecked
member_to_c b p h =
    let (e, holds) = (MemberName.Grammar.member_name_iff b p).0 h in
    let read : up_to_nul p.inner ≡ holds.name =
      ap (λ (x : MemberName). up_to_nul x.inner) e
      ∙ read_of b holds.name holds.junk holds.spells
          (Lacks-element 0 b'.' (omega arith) not_nul_start not_nul holds.name holds.is_element) in
    (
      subst (IsElement IsNameStart IsNameChar) (sym read) holds.is_element,
      omega (
        arith,
        holds.short,
        length-append holds.name (0 ∷ holds.junk),
        ap {B = ℕ} length holds.spells,
        ap {B = ℕ} length read,
      ),
    )

not_nul_bus : (c : ℕ) → IsBusChar c → c ≢ 0
not_nul_bus c h = ground arith

not_nul_bus_start : (u : Bool) (c : ℕ) → IsStart u c → c ≢ 0
not_nul_bus_start true c h = not_nul_bus c h
not_nul_bus_start false c h = ground arith

Lacks-prefix : (u : Bool) (s : Bytes) → Lacks 0 s → Lacks 0 (prefix u ++ s)
Lacks-prefix true s h = (omega arith, h)
Lacks-prefix false s h = h

regroup : (x y z r : Bytes) → x ++ (y ++ (z ++ r)) ≡ (x ++ (y ++ z)) ++ r
regroup x y z r = sym (append_assoc x (y ++ z) r ∙ ap (λ (s : Bytes). x ++ s) (append_assoc y z r))

-- What it reads of a bus name that was accepted is a unique or a well-known name of at most 255 bytes.
pub bus_to_c :
    (b : Bytes) (p : BusName)
    → BusName.from_bytes b ≡ ok p
    → (u : Bool) × (first : Bytes) × (others : List Bytes) × All (IsBusElement u) (first ∷ others)
      × (0 < length others)
      × (length (up_to_nul p.inner) ≤ 255)
      × (up_to_nul p.inner ≡ prefix u ++ (first ++ spelled b'.' others))
unfolding BusName.from_bytes_unchecked
bus_to_c b p h =
    let (e, holds) = (BusName.Grammar.bus_name_iff b p).0 h in
    let u = holds.is_unique in
    let name : Bytes = prefix u ++ (holds.first ++ spelled b'.' holds.others) in
    let clean : Lacks 0 name = Lacks-prefix u _ (
      Lacks-element-spelled 0 b'.' (omega arith) (not_nul_bus_start u) not_nul_bus holds.first
        holds.others holds.first_element holds.other_elements) in
    let spells : b ≡ name ++ 0 ∷ holds.junk =
      holds.spells ∙ regroup (prefix u) holds.first (spelled b'.' holds.others) (0 ∷ holds.junk) in
    let read : up_to_nul p.inner ≡ name =
      ap (λ (x : BusName). up_to_nul x.inner) e ∙ read_of b name holds.junk spells clean in
    (
      u,
      holds.first,
      holds.others,
      (holds.first_element, holds.other_elements),
      holds.at_least_two,
      omega (
        arith,
        holds.short,
        length-append name (0 ∷ holds.junk),
        ap {B = ℕ} length spells,
        ap {B = ℕ} length read,
      ),
      read,
    )
