-- ===== src/MacFirewall/Verdicts.antt =====
-- netfilter/mac_firewall.c: which packets are dropped.
use mathlib.Core.Bool.{false≢true}
use linux_network_lab.Base.{
  ℕ, Bool, true, false, ◌≡◌, ◌↔◌, ◌⊎◌, inl, inr, refl, sym, ap, ◌∙◌, List, [], ◌∷◌, Option, none,
  some, ◌==◌, ==_iff, Bool-cases,
}
use linux_network_lab.MacFirewall.{
  Kernel, blocked_macs, Ethhdr, Iphdr, Ports, SkBuff, Verdict, nf_accept, nf_drop, ipproto_tcp,
  Firewall, ipproto_udp, is_listed, is_mac_blocked, check_tcp, check_udp, check_protocol, check_ip,
  check_eth, mac_firewall_hook,
}

-- One of the addresses is the given one.
pub Listed : List ℕ → List (List ℕ) → Type 0
Listed mac [] = ⊥
Listed mac (m ∷ ms) = (mac ≡ m) ⊎ Listed mac ms

-- The three reasons to drop a packet. Each needs the headers up to the one that it looks at.
pub data Blocked (k : Kernel) (fw : Firewall) (skb : SkBuff) : Type 0 where
  by_mac : (eth : Ethhdr) → skb.eth ≡ some eth → Listed eth.h_source blocked_macs → Blocked k fw skb
  by_ip :
      (eth : Ethhdr) (iph : Iphdr)
      → skb.eth ≡ some eth
      → skb.ip ≡ some iph
      → iph.saddr ≡ fw.blocked_ip
      → Blocked k fw skb
  by_port :
      (eth : Ethhdr) (iph : Iphdr) (tcph : Ports)
      → skb.eth ≡ some eth
      → skb.ip ≡ some iph
      → iph.protocol ≡ ipproto_tcp
      → skb.tcp ≡ some tcph
      → k.ntohs tcph.dest ≡ 5001
      → Blocked k fw skb

abbrev is_drop : Verdict → Bool
is_drop nf_accept = false
is_drop nf_drop = true

accepted : {P : Type 0} → nf_accept ≡ nf_drop → P
accepted e = absurd (false≢true (ap is_drop e))

eq_test : (x y : ℕ) → x ≡ y → (x == y) ≡ true
eq_test x y e = (==_iff x y).1 e

module _ (k : Kernel)
    (ether_addr_equal_lem : (a b : List ℕ) → (k.ether_addr_equal a b ≡ true) ↔ (a ≡ b)) where
  is_listed_lem : (mac : List ℕ) (ms : List (List ℕ)) → (is_listed k mac ms ≡ true) ↔ Listed mac ms
  unfolding is_listed Listed
  is_listed_lem mac [] = (λ e. absurd (false≢true e), λ l. absurd l)
  is_listed_lem mac (m ∷ ms) = elim (Bool-cases (k.ether_addr_equal mac m)) [
    | inl hit ↦ (λ e. inl ((ether_addr_equal_lem mac m).0 hit), λ l. rw hit refl)
    | inr miss ↦ (
      λ e. inr ((is_listed_lem mac ms).0 (rw miss at e)),
      λ l. elim l [
        | inl same ↦ absurd (false≢true (sym miss ∙ (ether_addr_equal_lem mac m).1 same))
        | inr later ↦ rw miss ((is_listed_lem mac ms).1 later)
      ],
    )
  ]

  -- The port of a TCP header.
  Refused : SkBuff → Type 0
  Refused skb = (tcph : Ports) × (skb.tcp ≡ some tcph) × (k.ntohs tcph.dest ≡ 5001)

  check_tcp_drops :
      (skb : SkBuff) (o : Option Ports) → skb.tcp ≡ o → check_tcp k o ≡ nf_drop → Refused skb
  unfolding check_tcp Refused
  check_tcp_drops skb none e d = accepted d
  check_tcp_drops skb (some tcph) e d = elim (Bool-cases (k.ntohs tcph.dest == 5001)) [
    | inl port ↦ (tcph, e, (==_iff (k.ntohs tcph.dest) 5001).0 port)
    | inr other ↦ accepted (rw other at d)
  ]

  check_udp_accepts : (o : Option Ports) → check_udp k o ≡ nf_accept
  unfolding check_udp
  check_udp_accepts none = refl
  check_udp_accepts (some udph) = refl

  check_protocol_drops :
      (skb : SkBuff) (iph : Iphdr)
      → check_protocol k skb iph ≡ nf_drop
      → (iph.protocol ≡ ipproto_tcp) × Refused skb
  unfolding check_protocol
  check_protocol_drops skb iph d = elim (Bool-cases (iph.protocol == ipproto_tcp)) [
    | inl tcp ↦
        ((==_iff iph.protocol ipproto_tcp).0 tcp, check_tcp_drops skb skb.tcp refl (rw tcp at d))
    | inr not_tcp ↦ elim (Bool-cases (iph.protocol == ipproto_udp)) [
      | inl udp ↦ accepted (sym (check_udp_accepts skb.udp) ∙ rw (not_tcp, udp) at d)
      | inr other ↦ accepted (rw (not_tcp, other) at d)
    ]
  ]

  check_ip_drops :
      (fw : Firewall) (skb : SkBuff) (eth : Ethhdr) (o : Option Iphdr)
      → skb.eth ≡ some eth
      → skb.ip ≡ o
      → check_ip k fw skb o ≡ nf_drop
      → Blocked k fw skb
  unfolding check_ip Refused
  check_ip_drops fw skb eth none e f d = accepted d
  check_ip_drops fw skb eth (some iph) e f d = elim (Bool-cases (iph.saddr == fw.blocked_ip)) [
    | inl ip ↦ by_ip eth iph e f ((==_iff iph.saddr fw.blocked_ip).0 ip)
    | inr other ↦
        let (tcp, (tcph, g, port)) = check_protocol_drops skb iph (rw other at d) in
        by_port eth iph tcph e f tcp g port
  ]

  check_eth_drops :
      (fw : Firewall) (skb : SkBuff) (o : Option Ethhdr)
      → skb.eth ≡ o
      → check_eth k fw skb o ≡ nf_drop
      → Blocked k fw skb
  unfolding check_eth is_mac_blocked
  check_eth_drops fw skb none e d = accepted d
  check_eth_drops fw skb (some eth) e d = elim (Bool-cases (is_mac_blocked k eth.h_source)) [
    | inl mac ↦ by_mac eth e ((is_listed_lem eth.h_source blocked_macs).0 mac)
    | inr other ↦ check_ip_drops fw skb eth skb.ip e refl (rw other at d)
  ]

  -- Past the address tests, in either case.
  past_mac :
      (fw : Firewall) (skb : SkBuff) (eth : Ethhdr)
      → skb.eth ≡ some eth
      → check_ip k fw skb skb.ip ≡ nf_drop
      → mac_firewall_hook k fw (some skb) ≡ nf_drop
  unfolding mac_firewall_hook check_eth
  past_mac fw skb eth e d = elim (Bool-cases (is_mac_blocked k eth.h_source)) [
    | inl mac ↦ rw (e, check_eth) (rw mac refl)
    | inr other ↦ rw (e, check_eth) (rw other d)
  ]

  Blocked-drops :
      (fw : Firewall) (skb : SkBuff)
      → Blocked k fw skb
      → mac_firewall_hook k fw (some skb) ≡ nf_drop
  unfolding mac_firewall_hook check_eth is_mac_blocked check_ip check_protocol check_tcp
  Blocked-drops fw skb (by_mac eth e l) =
      let mac : is_mac_blocked k eth.h_source ≡ true =
        (is_listed_lem eth.h_source blocked_macs).1 l in
      rw (e, check_eth) (rw mac refl)
  Blocked-drops fw skb (by_ip eth iph e f same) =
      past_mac fw skb eth e (rw (f, check_ip) (rw (eq_test iph.saddr fw.blocked_ip same) refl))
  Blocked-drops fw skb (by_port eth iph tcph e f tcp g port) = past_mac fw skb eth e (
      rw (f, check_ip)
        (elim (Bool-cases (iph.saddr == fw.blocked_ip)) [
          | inl ip ↦ rw ip refl
          | inr other ↦ rw other (
              rw (eq_test iph.protocol ipproto_tcp tcp, check_protocol)
                (rw (g, check_tcp) (rw (eq_test (k.ntohs tcph.dest) 5001 port) refl)))
        ]))

  -- If `ether_addr_equal` compares addresses, the hook drops a packet exactly when it has an Ethernet
  -- header and a listed source address, or an IP header too and the blocked source address, or is
  -- TCP with its header and goes to port 5001.
  pub mac_firewall_hook-Blocked :
      (fw : Firewall) (skb : SkBuff)
      → (mac_firewall_hook k fw (some skb) ≡ nf_drop) ↔ Blocked k fw skb
  unfolding mac_firewall_hook
  mac_firewall_hook-Blocked fw skb = (check_eth_drops fw skb skb.eth refl, Blocked-drops fw skb)
