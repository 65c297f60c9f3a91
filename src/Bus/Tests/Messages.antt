-- ===== src/Bus/Tests/Messages.antt =====
-- A signal and a method call of src/bus/mod.rs with concrete names.
use rust_systemd.Base.{◌≡◌, c_codes, ok, refl}
use rust_systemd.Names.CStr.{up_to_nul}
use rust_systemd.Names.ObjectPath
use rust_systemd.Names.ObjectPath.{ObjectPath}
use rust_systemd.Names.InterfaceName
use rust_systemd.Names.InterfaceName.{InterfaceName}
use rust_systemd.Names.BusName
use rust_systemd.Names.BusName.{BusName}
use rust_systemd.Names.MemberName
use rust_systemd.Names.MemberName.{MemberName}
use rust_systemd.Bus.Message.{new_signal, new_method_call}
use rust_systemd.Bus.Message.Arguments.{
  IsBusText, IsPathText, IsInterfaceText, IsMemberText, OwnsOrFails, signal_answer, call_answer,
  new_message_lem,
}
use rust_systemd.Bus.Tests.{start, test_lib}

abbrev a_bus_name : BusName
a_bus_name = record { inner = c_codes ":1.5" }

abbrev pub a_path : ObjectPath
a_path = record { inner = c_codes "/a/b" }

abbrev pub an_interface : InterfaceName
an_interface = record { inner = c_codes "a.b" }

abbrev pub a_member : MemberName
a_member = record { inner = c_codes "Get" }

bus_name_ok : BusName.from_bytes a_bus_name.inner ≡ ok a_bus_name
unfolding BusName.from_bytes BusName.from_bytes_unchecked
bus_name_ok = refl

path_ok : ObjectPath.from_bytes a_path.inner ≡ ok a_path
unfolding ObjectPath.from_bytes ObjectPath.from_bytes_unchecked
path_ok = refl

interface_ok : InterfaceName.from_bytes an_interface.inner ≡ ok an_interface
unfolding InterfaceName.from_bytes InterfaceName.from_bytes_unchecked
interface_ok = refl

member_ok : MemberName.from_bytes a_member.inner ≡ ok a_member
unfolding MemberName.from_bytes MemberName.from_bytes_unchecked
member_ok = refl

new_message_lem_example :
    IsBusText (up_to_nul a_bus_name.inner)
    × IsPathText (up_to_nul a_path.inner)
    × IsInterfaceText (up_to_nul an_interface.inner)
    × IsMemberText (up_to_nul a_member.inner)
    × OwnsOrFails start
        (signal_answer test_lib 1 start a_bus_name a_path an_interface a_member)
        (new_signal test_lib 1 a_path an_interface a_member start)
    × OwnsOrFails start
        (call_answer test_lib 1 start a_bus_name a_path an_interface a_member)
        (new_method_call test_lib 1 a_bus_name a_path an_interface a_member start)
new_message_lem_example =
    new_message_lem test_lib 1 start a_bus_name a_path an_interface a_member a_bus_name.inner
      a_path.inner an_interface.inner a_member.inner bus_name_ok path_ok interface_ok member_ok
