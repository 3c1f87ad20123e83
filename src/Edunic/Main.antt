-- ===== src/Edunic/Main.antt =====
-- linux_nic_lab/driver/nic_main.c: the MTU, the address and the statistics.
use linux_network_lab.Base.{
  ℕ, ◌<◌, ◌≡◌, refl, Bool, List, [], ◌∷◌, Option, none, some, ℤ, if◌then◌else◌,
}
use linux_network_lab.Edunic.Adapter.{MacAddress, EdunicStats, EdunicAdapter}
use linux_network_lab.Edunic.Hw.Mac.{edunic_hw_get_mac, edunic_hw_set_mac, get_mac-set_mac}

-- `dev_set_mtu` has checked the range, and the result is always 0.
unfoldable pub edunic_change_mtu : ℤ → EdunicAdapter → EdunicAdapter
edunic_change_mtu new_mtu a = record a { mtu = new_mtu }

-- `eth_mac_addr` returns an error code or sets the address of the device.
unfoldable pub edunic_set_mac_address :
    Option ℕ → MacAddress → EdunicAdapter → Option ℕ × EdunicAdapter
edunic_set_mac_address (some error) address a = (some error, a)
edunic_set_mac_address none address a =
    let b = record a { dev_addr = address } in (none, edunic_hw_set_mac b.dev_addr b)

-- The counters as one round of the loop reads them, and whether `u64_stats_fetch_retry` asks for
-- another.
pub record StatsRead : Type 0 where
  pub counters : EdunicStats
  pub torn : Bool

-- The rounds that are read end with one that is not torn, or the function has not yet returned.
unfoldable pub edunic_get_stats64 : List StatsRead → Option EdunicStats
edunic_get_stats64 [] = none
edunic_get_stats64 (r ∷ rounds) =
    let rest = edunic_get_stats64 rounds in if r.torn then rest else some r.counters

-- After a change of the address that succeeds the chip and the device have the same address; one
-- that fails changes nothing.
pub set_mac_address_lem :
    (result : Option ℕ) (address : MacAddress) (a : EdunicAdapter)
    → address.byte0 < 256
    → address.byte1 < 256
    → address.byte2 < 256
    → address.byte3 < 256
    → address.byte4 < 256
    → address.byte5 < 256
    → edunic_hw_get_mac a ≡ a.dev_addr
    → let (r, b) = edunic_set_mac_address result address a in
      (r ≡ result) × (edunic_hw_get_mac b ≡ b.dev_addr)
unfolding edunic_set_mac_address edunic_hw_set_mac
set_mac_address_lem (some error) address a h0 h1 h2 h3 h4 h5 e = (refl, e)
set_mac_address_lem none address a h0 h1 h2 h3 h4 h5 e =
    (refl, get_mac-set_mac address (record a { dev_addr = address }) h0 h1 h2 h3 h4 h5)
