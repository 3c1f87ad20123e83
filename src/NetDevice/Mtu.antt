-- ===== src/NetDevice/Mtu.antt =====
-- net_device/simple_netdev.c: `my_change_mtu`.
use linux_network_lab.Base.{
  ℤ, pos, negsuc, ltℤ, ◌≡◌, Bool, false, ◌||◌, inl, inr, if◌then◌else◌, Bool-cases,
}

-- -EINVAL
abbrev einval : ℤ
einval = negsuc 21

abbrev pub refused_mtu : ℤ → Bool
refused_mtu new_mtu = ltℤ new_mtu (pos 68) || ltℤ (pos 9000) new_mtu

-- The result, and the MTU of the device, which was `mtu`.
unfoldable pub change_mtu : ℤ → ℤ → ℤ × ℤ
change_mtu new_mtu mtu = if refused_mtu new_mtu then (einval, mtu) else (pos 0, new_mtu)

-- The MTU stays within 68 and 9000.
pub change_mtu_lem :
    (new_mtu mtu : ℤ) → refused_mtu mtu ≡ false → refused_mtu (change_mtu new_mtu mtu).1 ≡ false
unfolding change_mtu
change_mtu_lem new_mtu mtu h = elim (Bool-cases (refused_mtu new_mtu)) [
  | inl e ↦ rw e h
  | inr e ↦ rw e e
]
