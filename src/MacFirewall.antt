-- ===== src/MacFirewall.antt =====
-- netfilter/mac_firewall.c: the Netfilter hook and its registration.
pub mod Verdicts
mod Tests
use linux_network_lab.Base.{
  ℕ, Bool, true, false, List, [], ◌∷◌, Option, none, some, ◌==◌, if◌then◌else◌, ℤ, pos, ◌==ℤ◌,
}

-- What is used of the kernel.
pub record Kernel : Type 0 where
  pub ether_addr_equal : List ℕ → List ℕ → Bool
  pub ntohs : ℕ → ℕ
  pub in_aton : List ℕ → ℕ

abbrev pub blocked_macs : List (List ℕ)
blocked_macs =
    (170 ∷ 187 ∷ 204 ∷ 221 ∷ 238 ∷ 255 ∷ [])
    ∷ (17 ∷ 34 ∷ 51 ∷ 68 ∷ 85 ∷ 102 ∷ [])
    ∷ (222 ∷ 173 ∷ 190 ∷ 239 ∷ 0 ∷ 1 ∷ [])
    ∷ []

pub record Ethhdr : Type 0 where
  pub h_source : List ℕ
  pub h_dest : List ℕ

pub record Iphdr : Type 0 where
  pub saddr : ℕ
  pub protocol : ℕ

-- The ports of `struct tcphdr` and of `struct udphdr`, in network order.
pub record Ports : Type 0 where
  pub source : ℕ
  pub dest : ℕ

-- What `eth_hdr`, `ip_hdr`, `tcp_hdr` and `udp_hdr` give; `none` is NULL.
pub record SkBuff : Type 0 where
  pub eth : Option Ethhdr
  pub ip : Option Iphdr
  pub tcp : Option Ports
  pub udp : Option Ports

pub data Verdict : Type 0 where
  nf_accept nf_drop : Verdict

abbrev pub ipproto_tcp : ℕ
ipproto_tcp = 6

abbrev pub ipproto_udp : ℕ
ipproto_udp = 17

-- "10.10.3.60"
abbrev pub example_ip : List ℕ
example_ip = 49 ∷ 48 ∷ 46 ∷ 49 ∷ 48 ∷ 46 ∷ 51 ∷ 46 ∷ 54 ∷ 48 ∷ []

-- The module's variables: `blocked_ip`, and whether the hook is registered.
pub record Firewall : Type 0 where
  pub blocked_ip : ℕ
  pub registered : Bool

module _ (k : Kernel) where
  -- The loop over the addresses that are left.
  unfoldable pub is_listed : List ℕ → List (List ℕ) → Bool
  is_listed mac [] = false
  is_listed mac (m ∷ ms) =
      let rest = is_listed mac ms in if k.ether_addr_equal mac m then true else rest

  unfoldable pub is_mac_blocked : List ℕ → Bool
  is_mac_blocked mac = is_listed mac blocked_macs

  unfoldable pub check_tcp : Option Ports → Verdict
  check_tcp none = nf_accept
  check_tcp (some tcph) = if k.ntohs tcph.dest == 5001 then nf_drop else nf_accept

  -- The ports of UDP are only printed.
  unfoldable pub check_udp : Option Ports → Verdict
  check_udp none = nf_accept
  check_udp (some udph) = nf_accept

  unfoldable pub check_protocol : SkBuff → Iphdr → Verdict
  check_protocol skb iph =
      if iph.protocol == ipproto_tcp
      then check_tcp skb.tcp
      else if iph.protocol == ipproto_udp
      then check_udp skb.udp
      else nf_accept

  unfoldable pub check_ip : Firewall → SkBuff → Option Iphdr → Verdict
  check_ip fw skb none = nf_accept
  check_ip fw skb (some iph) =
      if iph.saddr == fw.blocked_ip then nf_drop else check_protocol skb iph

  unfoldable pub check_eth : Firewall → SkBuff → Option Ethhdr → Verdict
  check_eth fw skb none = nf_accept
  check_eth fw skb (some eth) =
      if is_mac_blocked eth.h_source then nf_drop else check_ip fw skb skb.ip

  unfoldable pub mac_firewall_hook : Firewall → Option SkBuff → Verdict
  mac_firewall_hook fw none = nf_accept
  mac_firewall_hook fw (some skb) = check_eth fw skb skb.eth

  -- With what `nf_register_net_hook` returns.
  unfoldable pub mac_firewall_init : ℤ → Firewall → ℤ × Firewall
  mac_firewall_init ret fw =
      let blocked_ip = k.in_aton example_ip in
      if ret ==ℤ pos 0
      then (pos 0, record { blocked_ip = blocked_ip; registered = true })
      else (ret, record fw { blocked_ip = blocked_ip })

abbrev pub mac_firewall_exit : Firewall → Firewall
mac_firewall_exit fw = record fw { registered = false }
