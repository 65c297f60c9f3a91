-- ===== src/Names/UnitTests.antt =====
-- The unit tests of src/bus/mod.rs: which slices each check accepts.
use rust_systemd.Base.{[], ◌∷◌, ◌≡◌, refl, Bool, true, false, Result, ok, err, map, c_codes, codes}
use rust_systemd.Names.ObjectPath
use rust_systemd.Names.InterfaceName
use rust_systemd.Names.BusName
use rust_systemd.Names.MemberName

abbrev is_ok : {E A : Type 0} → Result E A → Bool
is_ok (ok a) = true
is_ok (err e) = false

t_path :
    map
      (λ b. is_ok (ObjectPath.from_bytes b))
      (c_codes "/"
        ∷ c_codes ""
        ∷ codes "/"
        ∷ c_codes "/h"
        ∷ c_codes "/hello"
        ∷ c_codes "/hello/"
        ∷ c_codes "/hello/goodbye/013/4/HA"
        ∷ c_codes "/hello/goodbye/013/4?/HA"
        ∷ [])
    ≡ true ∷ false ∷ false ∷ true ∷ true ∷ false ∷ true ∷ false ∷ []
unfolding ObjectPath.from_bytes
t_path = refl

t_interface :
    map
      (λ b. is_ok (InterfaceName.from_bytes b))
      (c_codes "12"
        ∷ c_codes "a"
        ∷ c_codes "a.b"
        ∷ c_codes "a.b.3"
        ∷ c_codes "A.Z.xar.yfds.d3490"
        ∷ c_codes "a.b.c"
        ∷ c_codes "a.b.c?"
        ∷ [])
    ≡ false ∷ false ∷ true ∷ false ∷ true ∷ true ∷ false ∷ []
unfolding InterfaceName.from_bytes
t_interface = refl

t_busname :
    map
      (λ b. is_ok (BusName.from_bytes b))
      (c_codes "a.b"
        ∷ codes "a.b"
        ∷ c_codes "a"
        ∷ c_codes "a.b?"
        ∷ c_codes "a.b-c.a0"
        ∷ c_codes "a.b-c.0a"
        ∷ c_codes ":a.b-c"
        ∷ c_codes ":a.b-c.1"
        ∷ [])
    ≡ true ∷ false ∷ false ∷ false ∷ true ∷ false ∷ true ∷ true ∷ []
unfolding BusName.from_bytes
t_busname = refl

t_member_name :
    map
      (λ b. is_ok (MemberName.from_bytes b))
      (c_codes "abc13"
        ∷ c_codes "abc.13"
        ∷ c_codes "1234abc"
        ∷ codes "abc"
        ∷ c_codes ""
        ∷ c_codes "a"
        ∷ [])
    ≡ true ∷ false ∷ false ∷ false ∷ false ∷ true ∷ []
unfolding MemberName.from_bytes
t_member_name = refl
