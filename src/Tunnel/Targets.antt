-- ===== src/Tunnel/Targets.antt =====
-- internal/tunnel/server.go: blockedForwardTarget, and what it lets through.
use cando.Base.{
  sym, ap, ◌∙◌, ◌*◌, ◌-◌, ℕ, suc, ◌+◌, ◌<◌, ◌≤◌, ◌≡◌, ◌↔◌, ◌⊎◌, inl, inr, Bool, true, false, ◌||◌,
  Option, some, none, Option-cases, Bool-cases, [], ◌∷◌, ◌++◌, drop, arith,
}
use cando.Base.Decimal.{is_digit}
use cando.Base.Bytes.{Bytes, bytes_eq, bytes_eq_iff}
use cando.Tunnel.Addresses.{
  has_byte, split_host_port, parse_ip, ipv4_loop, parse_ipv4, mapped, is_ipv4, is_unspecified,
  is_multicast, is_link_local_multicast, is_link_local_unicast, zeros, byte_at,
}

-- The test of the address.
unfoldable pub refused_ip : Bytes → Bool
unfolding is_unspecified is_multicast is_link_local_multicast is_link_local_unicast
refused_ip ip =
    is_link_local_unicast ip || is_link_local_multicast ip || is_multicast ip || is_unspecified ip

unfoldable pub blocked_host : Option Bytes → Bool
unfolding refused_ip
blocked_host none = false
blocked_host (some ip) = refused_ip ip

-- The host and the port, if the target has them.
unfoldable pub blocked_parts : Option (Bytes × Bytes) → Bool
unfolding blocked_host
blocked_parts none = true
blocked_parts (some (host, port)) = blocked_host (parse_ip host)

-- blockedForwardTarget
unfoldable pub blocked_forward_target : Bytes → Bool
unfolding blocked_parts
blocked_forward_target target = blocked_parts (split_host_port target)

-- The ranges that are refused: for an IPv4 address 169.254.0.0/16, 224.0.0.0/4 and 0.0.0.0, for an
-- IPv6 address fe80::/10, ff00::/8 and ::.
abbrev pub IsRefused4 : Bytes → Type 0
IsRefused4 ip =
    ((byte_at 12 ip ≡ 169) × (byte_at 13 ip ≡ 254))
    ⊎ (((224 ≤ byte_at 12 ip) × (byte_at 12 ip < 240)) ⊎ (drop 12 ip ≡ zeros 4))

abbrev pub IsRefused6 : Bytes → Type 0
IsRefused6 ip =
    ((byte_at 0 ip ≡ 254) × (128 ≤ byte_at 1 ip) × (byte_at 1 ip < 192))
    ⊎ ((byte_at 0 ip ≡ 255) ⊎ (ip ≡ zeros 16))

abbrev pub IsRefused : Bytes → Type 0
IsRefused ip = ((is_ipv4 ip ≡ true) × IsRefused4 ip) ⊎ ((is_ipv4 ip ≡ false) × IsRefused6 ip)

-- Of the unspecified addresses only `::` is not an IPv4 address.
ipv4_not_unspecified6 : (ip : Bytes) → is_ipv4 ip ≡ true → bytes_eq ip (zeros 16) ≡ false
unfolding zeros is_ipv4 bytes_eq
ipv4_not_unspecified6 ip e = elim (Bool-cases (bytes_eq ip (zeros 16))) [
  | inr q ↦ q
  | inl q ↦
      let u : is_ipv4 ip ≡ false = ap is_ipv4 ((bytes_eq_iff ip (zeros 16)).0 q) in ground arith
]

refused_ip_four : (ip : Bytes) → is_ipv4 ip ≡ true → (refused_ip ip ≡ true) ↔ IsRefused4 ip
unfolding refused_ip is_unspecified is_multicast is_link_local_multicast is_link_local_unicast
refused_ip_four ip e =
    ground (arith, ipv4_not_unspecified6 ip e, bytes_eq_iff (drop 12 ip) (zeros 4))

refused_ip_six : (ip : Bytes) → is_ipv4 ip ≡ false → (refused_ip ip ≡ true) ↔ IsRefused6 ip
unfolding refused_ip is_unspecified is_multicast is_link_local_multicast is_link_local_unicast
refused_ip_six ip e = ground (arith, bytes_eq_iff ip (zeros 16))

refused_ip_iff : (ip : Bytes) → (refused_ip ip ≡ true) ↔ IsRefused ip
refused_ip_iff ip = elim (Bool-cases (is_ipv4 ip)) [
  | inl e ↦ ground (arith, refused_ip_four ip e)
  | inr e ↦ ground (arith, refused_ip_six ip e)
]

-- A target is refused exactly if it is not a host and a port, or its host is the literal of an
-- address in one of the ranges.
pub blocked_forward_target_iff :
    (target : Bytes)
    → (blocked_forward_target target ≡ true) ↔ (
        (split_host_port target ≡ none)
        ⊎ ((host : Bytes) × (port : Bytes) × (ip : Bytes) × (split_host_port target
              ≡ some (host, port))
            × (parse_ip host ≡ some ip)
            × IsRefused ip))
unfolding blocked_forward_target blocked_parts blocked_host
blocked_forward_target_iff target = (
  λ b. elim (Option-cases (split_host_port target)) [
    | inl e ↦ inl e
    | inr ((host, port), e) ↦ elim (Option-cases (parse_ip host)) [
      | inl n ↦
          let open_ : blocked_parts (split_host_port target) ≡ false =
            ap blocked_parts e ∙ ap blocked_host n in
          ground arith
      | inr (ip, p) ↦
          let same : blocked_parts (split_host_port target) ≡ refused_ip ip =
            ap blocked_parts e ∙ ap blocked_host p in
          inr (host, port, ip, e, p, (refused_ip_iff ip).0 (sym same ∙ b))
    ]
  ],
  λ c. elim c [
    | inl e ↦ ap blocked_parts e
    | inr (host, port, ip, e, p, r) ↦
        ap blocked_parts e ∙ ap blocked_host p ∙ (refused_ip_iff ip).1 r
  ],
)

-- An address with a zone is not a literal for ParseIP.
ipv4_loop-zone :
    (fields : Bytes) (val digits : ℕ) (s : Bytes)
    → has_byte 37 s ≡ true
    → ipv4_loop fields val digits s ≡ none
unfolding ipv4_loop has_byte is_digit
ipv4_loop-zone fields val digits [] h = cc
ipv4_loop-zone fields val digits (b ∷ bs) h = ground (
  arith,
  ipv4_loop-zone fields (val * 10 + (b - 48)) (suc digits) bs,
  ipv4_loop-zone (fields ++ (val ∷ [])) 0 0 bs,
)

parse_ip-zone : (host : Bytes) → has_byte 37 host ≡ true → parse_ip host ≡ none
unfolding parse_ip parse_ipv4 mapped
parse_ip-zone host h = ground (arith, ipv4_loop-zone [] 0 0 host h)

-- A target whose host has a zone is let through, whatever its address: that of a link-local
-- address as well.
pub blocked_forward_target-zone :
    (target host port : Bytes)
    → split_host_port target ≡ some (host, port)
    → has_byte 37 host ≡ true
    → blocked_forward_target target ≡ false
unfolding blocked_forward_target blocked_parts blocked_host
blocked_forward_target-zone target host port e h =
    ap blocked_parts e ∙ ap blocked_host (parse_ip-zone host h)
