-- ===== src/MacFirewall/Tests.antt =====
-- netfilter/mac_firewall.c: a TCP packet to port 5001.
use linux_network_lab.Base.{◌+◌, ◌*◌, ◌/◌, ◌%◌, ◌≡◌, ◌↔◌, true, [], ◌∷◌, some, none, ◌==s◌, ==s_iff}
use linux_network_lab.MacFirewall.{Kernel, SkBuff, nf_drop, Firewall, mac_firewall_hook}
use linux_network_lab.MacFirewall.Verdicts.{Blocked, mac_firewall_hook-Blocked}

abbrev kernel : Kernel
kernel = record {
  ether_addr_equal = ◌==s◌;
  ntohs = λ x. x % 256 * 256 + x / 256;
  in_aton = λ text. 1010;
}

abbrev loaded : Firewall
loaded = record { blocked_ip = 1010; registered = true }

abbrev packet : SkBuff
packet = record {
  eth =
      some (record { h_source = 2 ∷ 0 ∷ 0 ∷ 0 ∷ 0 ∷ 1 ∷ []; h_dest = 2 ∷ 0 ∷ 0 ∷ 0 ∷ 0 ∷ 2 ∷ [] });
  ip = some (record { saddr = 7; protocol = 6 });
  tcp = some (record { source = 80; dest = 35091 });
  udp = none;
}

mac_firewall_hook-Blocked_example :
    (mac_firewall_hook kernel loaded (some packet) ≡ nf_drop) ↔ Blocked kernel loaded packet
mac_firewall_hook-Blocked_example = mac_firewall_hook-Blocked kernel ==s_iff loaded packet
