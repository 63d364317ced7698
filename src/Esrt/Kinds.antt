-- ===== src/Esrt/Kinds.antt =====
-- esrt/mod.rs: the GUIDs of Framework's firmware resources.
use framework_system.Base.{[], ◌∷◌, Bool, ◌==◌, ◌&&◌, if◌then◌else◌}
use framework_system.Guid.{Guid}
use framework_system.Util.{same_bytes}

pub data FrameworkGuidKind : Type 0 where
  tgl_bios adl_bios rpl_bios mtl_bios : FrameworkGuidKind
  tgl_retimer01 tgl_retimer23 adl_retimer01 adl_retimer23 : FrameworkGuidKind
  rpl_retimer01 rpl_retimer23 mtl_retimer01 mtl_retimer23 : FrameworkGuidKind
  rpl_csme mtl_csme fl16_bios amd13_bios win_ux unknown : FrameworkGuidKind

abbrev pub tgl_bios_guid : Guid
tgl_bios_guid = record {
  a = 0xB3BDB2E4;
  b = 0xC5CB;
  c = 0x5C1B;
  d = 0xBD ∷ 0xC3 ∷ 0xE6 ∷ 0xFC ∷ 0x13 ∷ 0x24 ∷ 0x62 ∷ 0xFF ∷ [];
}

abbrev pub adl_bios_guid : Guid
adl_bios_guid = record {
  a = 0xA30A8CF3;
  b = 0x847F;
  c = 0x5E59;
  d = 0xBD ∷ 0x59 ∷ 0xF9 ∷ 0xEC ∷ 0x14 ∷ 0x5C ∷ 0x1A ∷ 0x8C ∷ [];
}

abbrev pub rpl_bios_guid : Guid
rpl_bios_guid = record {
  a = 0x13FD4ED2;
  b = 0xCBA9;
  c = 0x50BA;
  d = 0xBB ∷ 0x91 ∷ 0xAE ∷ 0xCE ∷ 0x0A ∷ 0xCB ∷ 0x4C ∷ 0xC3 ∷ [];
}

abbrev pub mtl_bios_guid : Guid
mtl_bios_guid = record {
  a = 0x72CECB9B;
  b = 0x2B37;
  c = 0x5EC2;
  d = 0xA9 ∷ 0xFF ∷ 0xC7 ∷ 0x39 ∷ 0xAA ∷ 0xBA ∷ 0xAD ∷ 0xF3 ∷ [];
}

abbrev pub tgl_retimer01_guid : Guid
tgl_retimer01_guid = record {
  a = 0x832AF090;
  b = 0x2EF9;
  c = 0x7C47;
  d = 0x8F ∷ 0x6D ∷ 0xB4 ∷ 0x05 ∷ 0xC8 ∷ 0xC7 ∷ 0xF1 ∷ 0x56 ∷ [];
}

abbrev pub tgl_retimer23_guid : Guid
tgl_retimer23_guid = record {
  a = 0x20EF4108;
  b = 0x6C64;
  c = 0xD049;
  d = 0xB6 ∷ 0xDE ∷ 0x11 ∷ 0xEE ∷ 0x35 ∷ 0x98 ∷ 0x0B ∷ 0x8F ∷ [];
}

abbrev pub adl_retimer01_guid : Guid
adl_retimer01_guid = record {
  a = 0xA9C91B0C;
  b = 0xC0B8;
  c = 0x463D;
  d = 0xA7 ∷ 0xDA ∷ 0xA5 ∷ 0xD6 ∷ 0xEC ∷ 0x64 ∷ 0x63 ∷ 0x33 ∷ [];
}

abbrev pub adl_retimer23_guid : Guid
adl_retimer23_guid = record {
  a = 0xBA2E4E6E;
  b = 0x3B0C;
  c = 0x4F25;
  d = 0x8A ∷ 0x59 ∷ 0x4C ∷ 0x55 ∷ 0x3F ∷ 0xC8 ∷ 0x6E ∷ 0xA2 ∷ [];
}

abbrev pub rpl_retimer01_guid : Guid
rpl_retimer01_guid = record {
  a = 0x0C42B824;
  b = 0x818F;
  c = 0x428F;
  d = 0x86 ∷ 0x87 ∷ 0x5E ∷ 0xFC ∷ 0xAF ∷ 0x05 ∷ 0x9B ∷ 0xEA ∷ [];
}

abbrev pub rpl_retimer23_guid : Guid
rpl_retimer23_guid = record {
  a = 0x268CCBDE;
  b = 0xE087;
  c = 0x420B;
  d = 0xBF ∷ 0x82 ∷ 0x22 ∷ 0x12 ∷ 0xBD ∷ 0x3F ∷ 0x9B ∷ 0xFC ∷ [];
}

abbrev pub mtl_retimer01_guid : Guid
mtl_retimer01_guid = record {
  a = 0xC57FD615;
  b = 0x2AC9;
  c = 0x4154;
  d = 0xBF ∷ 0x34 ∷ 0x4D ∷ 0xC7 ∷ 0x15 ∷ 0x34 ∷ 0x44 ∷ 0x08 ∷ [];
}

abbrev pub mtl_retimer23_guid : Guid
mtl_retimer23_guid = record {
  a = 0xBDFFCE36;
  b = 0x809C;
  c = 0x4FA6;
  d = 0xAE ∷ 0xCC ∷ 0x54 ∷ 0x53 ∷ 0x69 ∷ 0x22 ∷ 0xF0 ∷ 0xE0 ∷ [];
}

abbrev pub fl16_bios_guid : Guid
fl16_bios_guid = record {
  a = 0x6AE76AF1;
  b = 0xC002;
  c = 0x5D64;
  d = 0x8E ∷ 0x18 ∷ 0x65 ∷ 0x8D ∷ 0x20 ∷ 0x5A ∷ 0xCF ∷ 0x34 ∷ [];
}

abbrev pub amd13_bios_guid : Guid
amd13_bios_guid = record {
  a = 0xB5F7DCC1;
  b = 0x568C;
  c = 0x50F8;
  d = 0xA4 ∷ 0xDD ∷ 0xE3 ∷ 0x9D ∷ 0x1F ∷ 0x93 ∷ 0xFD ∷ 0xA1 ∷ [];
}

abbrev pub rpl_csme_guid : Guid
rpl_csme_guid = record {
  a = 0x865D322C;
  b = 0x6AC7;
  c = 0x4734;
  d = 0xB4 ∷ 0x3E ∷ 0x55 ∷ 0xDB ∷ 0x5A ∷ 0x55 ∷ 0x7D ∷ 0x63 ∷ [];
}

abbrev pub mtl_csme_guid : Guid
mtl_csme_guid = record {
  a = 0x32D8D677;
  b = 0xEEBC;
  c = 0x4947;
  d = 0x8F ∷ 0x8A ∷ 0x06 ∷ 0x93 ∷ 0xA4 ∷ 0x52 ∷ 0x40 ∷ 0xE5 ∷ [];
}

abbrev pub winux_guid : Guid
winux_guid = record {
  a = 0x3B8C8162;
  b = 0x188C;
  c = 0x46A4;
  d = 0xAE ∷ 0xC9 ∷ 0xBE ∷ 0x43 ∷ 0xF1 ∷ 0xD6 ∷ 0x56 ∷ 0x97 ∷ [];
}

-- `PartialEq` of `Guid`
abbrev pub same_guid : Guid → Guid → Bool
same_guid g h = g.a == h.a && g.b == h.b && g.c == h.c && same_bytes g.d h.d

unfoldable pub match_guid_kind : Guid → FrameworkGuidKind
unfolding same_bytes
match_guid_kind guid =
    if same_guid guid tgl_bios_guid
    then tgl_bios
    else if same_guid guid adl_bios_guid
    then adl_bios
    else if same_guid guid rpl_bios_guid
    then rpl_bios
    else if same_guid guid mtl_bios_guid
    then mtl_bios
    else if same_guid guid fl16_bios_guid
    then fl16_bios
    else if same_guid guid amd13_bios_guid
    then amd13_bios
    else if same_guid guid tgl_retimer01_guid
    then tgl_retimer01
    else if same_guid guid tgl_retimer23_guid
    then tgl_retimer23
    else if same_guid guid adl_retimer01_guid
    then adl_retimer01
    else if same_guid guid adl_retimer23_guid
    then adl_retimer23
    else if same_guid guid rpl_retimer01_guid
    then rpl_retimer01
    else if same_guid guid rpl_retimer23_guid
    then rpl_retimer23
    else if same_guid guid mtl_retimer01_guid
    then mtl_retimer01
    else if same_guid guid mtl_retimer23_guid
    then mtl_retimer23
    else if same_guid guid rpl_csme_guid
    then rpl_csme
    else if same_guid guid mtl_csme_guid
    then mtl_csme
    else if same_guid guid winux_guid
    then win_ux
    else unknown
