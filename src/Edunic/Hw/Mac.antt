-- ===== src/Edunic/Hw/Mac.antt =====
-- linux_nic_lab/driver/nic_hw.c: the station address in its two registers.
use linux_network_lab.Base.{ℕ, ◌+◌, ◌*◌, ◌/◌, ◌%◌, ◌^◌, ◌<◌, ◌≡◌, arith}
use linux_network_lab.Edunic.Adapter.{MacAddress, EdunicAdapter}

-- The masked shifts of the source.
abbrev pub byte_at : ℕ → ℕ → ℕ
byte_at shift word = word / 2 ^ shift % 256

unfoldable pub edunic_hw_get_mac : EdunicAdapter → MacAddress
edunic_hw_get_mac a = record {
  byte0 = byte_at 0 a.regs.mac_low;
  byte1 = byte_at 8 a.regs.mac_low;
  byte2 = byte_at 16 a.regs.mac_low;
  byte3 = byte_at 24 a.regs.mac_low;
  byte4 = byte_at 0 a.regs.mac_high;
  byte5 = byte_at 8 a.regs.mac_high;
}

-- The `|` of bytes shifted to places of their own is a sum.
abbrev low_word : MacAddress → ℕ
low_word m = m.byte0 + m.byte1 * 2 ^ 8 + m.byte2 * 2 ^ 16 + m.byte3 * 2 ^ 24

abbrev high_word : MacAddress → ℕ
high_word m = m.byte4 + m.byte5 * 2 ^ 8

unfoldable pub edunic_hw_set_mac : MacAddress → EdunicAdapter → EdunicAdapter
edunic_hw_set_mac m a = record a {
  regs = record a.regs { mac_low = low_word m; mac_high = high_word m };
}

-- An address of six bytes that is written to the registers is read back as it was.
pub get_mac-set_mac :
    (m : MacAddress) (a : EdunicAdapter)
    → m.byte0 < 256
    → m.byte1 < 256
    → m.byte2 < 256
    → m.byte3 < 256
    → m.byte4 < 256
    → m.byte5 < 256
    → edunic_hw_get_mac (edunic_hw_set_mac m a) ≡ m
unfolding edunic_hw_get_mac edunic_hw_set_mac
get_mac-set_mac m a h0 h1 h2 h3 h4 h5 =
    let e0 : byte_at 0 (low_word m) ≡ m.byte0 = omega arith in
    let e1 : byte_at 8 (low_word m) ≡ m.byte1 = omega arith in
    let e2 : byte_at 16 (low_word m) ≡ m.byte2 = omega arith in
    let e3 : byte_at 24 (low_word m) ≡ m.byte3 = omega arith in
    let e4 : byte_at 0 (high_word m) ≡ m.byte4 = omega arith in
    let e5 : byte_at 8 (high_word m) ≡ m.byte5 = omega arith in
    λ i. record {
      byte0 = e0 i;
      byte1 = e1 i;
      byte2 = e2 i;
      byte3 = e3 i;
      byte4 = e4 i;
      byte5 = e5 i;
    }
