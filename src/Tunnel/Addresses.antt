-- ===== src/Tunnel/Addresses.antt =====
-- What internal/tunnel/server.go uses of Go's net and netip packages: SplitHostPort, ParseIP and the
-- classes of addresses. An IP is its 16 bytes, as net.IP has it after ParseIP.
use cando.Base.{
  ℕ, zero, suc, ◌+◌, ◌-◌, ◌*◌, ◌/◌, ◌%◌, Bool, true, false, not, ◌&&◌, ◌||◌, Option, some, none, [],
  ◌∷◌, ◌++◌, ltb, leb, ◌==◌, if◌then◌else◌, length, take, drop,
}
use cando.Base.Decimal.{is_digit}
use cando.Base.Bytes.{Bytes, bytes_eq}

-- strings.IndexByte(s, c) >= 0
unfoldable pub has_byte : ℕ → Bytes → Bool
has_byte c [] = false
has_byte c (b ∷ bs) = (b == c) || has_byte c bs

unfoldable pub prepend : ℕ → Option (Bytes × Bytes) → Option (Bytes × Bytes)
prepend b none = none
prepend b (some (before, after)) = some (b ∷ before, after)

-- What stands before and after the first `c`.
unfoldable pub cut_first : ℕ → Bytes → Option (Bytes × Bytes)
unfolding prepend
cut_first c [] = none
cut_first c (b ∷ bs) = if b == c then some ([], bs) else prepend b (cut_first c bs)

-- What stands before and after the last `c`.
unfoldable pub cut_last : ℕ → Bytes → Option (Bytes × Bytes)
unfolding prepend
cut_last c [] = none
cut_last c (b ∷ bs) = elim (cut_last c bs) [
  | some (before, after) ↦ some (b ∷ before, after)
  | none ↦ if b == c then some ([], bs) else none
]

-- The host of a target that starts with '[': a ']' stands just before the last ':'.
unfoldable pub bracketed : Bytes → Bytes → Option (Bytes × Bytes)
unfolding cut_first has_byte
bracketed rest port = elim (cut_first 93 rest) [
  | none ↦ none
  | some (host, after) ↦
      if bytes_eq after (58 ∷ port) && not (has_byte 91 rest) && not (has_byte 93 after)
      then some (host, port)
      else none
]

unfoldable pub split_at_port : Bytes → Bytes → Bytes → Option (Bytes × Bytes)
unfolding bracketed has_byte
split_at_port [] host port = none
split_at_port (b ∷ rest) host port =
    let plain =
      if has_byte 58 host || has_byte 91 (b ∷ rest) || has_byte 93 (b ∷ rest)
      then none
      else some (host, port) in
    if b == 91 then bracketed rest port else plain

-- net.SplitHostPort
unfoldable pub split_host_port : Bytes → Option (Bytes × Bytes)
unfolding split_at_port cut_last
split_host_port s = elim (cut_last 58 s) [
  | none ↦ none
  | some (host, port) ↦ split_at_port s host port
]

-- parseIPv4Fields: the fields before the current one, its value, and the digits it has so far.
unfoldable pub ipv4_loop : Bytes → ℕ → ℕ → Bytes → Option Bytes
unfolding is_digit
ipv4_loop fields val digits [] =
    if length fields == 3 && not (digits == 0) then some (fields ++ (val ∷ [])) else none
ipv4_loop fields val digits (b ∷ bs) =
    let val' = val * 10 + (b - 48) in
    let in_field = ipv4_loop fields val' (suc digits) bs in
    let next_field = ipv4_loop (fields ++ (val ∷ [])) 0 0 bs in
    if is_digit b
    then (if (digits == 1 && val == 0) || ltb 255 val' then none else in_field)
    else if b == 46 && not (digits == 0) && not (length fields == 3)
    then next_field
    else none

unfoldable pub parse_ipv4 : Bytes → Option Bytes
unfolding ipv4_loop
parse_ipv4 s = ipv4_loop [] 0 0 s

unfoldable pub hex_value : ℕ → Option ℕ
unfolding is_digit
hex_value b =
    if is_digit b
    then some (b - 48)
    else if leb 97 b && leb b 102
    then some (b - 87)
    else if leb 65 b && leb b 70
    then some (b - 55)
    else none

-- The value of the leading hexadecimal digits, their number, and what follows them.
unfoldable pub hex_group : ℕ → ℕ → Bytes → ℕ × ℕ × Bytes
unfolding hex_value
hex_group acc n [] = (acc, n, [])
hex_group acc n (b ∷ bs) = elim (hex_value b) [
  | none ↦ (acc, n, b ∷ bs)
  | some d ↦ hex_group (acc * 16 + d) (suc n) bs
]

-- The bytes so far, the place of the `::`, and what is left over.
abbrev pub Partial : Type 0
Partial = Bytes × Option ℕ × Bytes

unfoldable pub is_none {ℓ} : {A : Type ℓ} → Option A → Bool
is_none none = true
is_none (some a) = false

-- An IPv4 address at the end of an IPv6 one.
unfoldable pub trailing_ipv4 : Bytes → Option ℕ → Bytes → Option Partial
unfolding parse_ipv4 is_none
trailing_ipv4 ip ell s =
    let four : Option Partial = elim (parse_ipv4 s) [
      | none ↦ none
      | some v ↦ some (ip ++ v, ell, [])
    ] in
    if is_none ell && not (length ip == 12)
    then none
    else if ltb 16 (length ip + 4)
    then none
    else four

-- What follows a group: the end, or a colon and more, of which `::` is once.
unfoldable pub after_group :
    (Bytes → Option ℕ → Bytes → Option Partial) → Bytes → Option ℕ → Bytes → Option Partial
after_group more ip ell [] = some (ip, ell, [])
after_group more ip ell (c ∷ []) = none
after_group more ip ell (c ∷ d ∷ s) =
    let at_end : Option Partial = elim s [
      | [] ↦ some (ip, some (length ip), [])
      | e ∷ es ↦ more ip (some (length ip)) (e ∷ es)
    ] in
    let single = more ip ell (d ∷ s) in
    if not (c == 58)
    then none
    else if d == 58
    then elim ell [ some e ↦ none | none ↦ at_end ]
    else single

unfoldable pub starts_with : ℕ → Bytes → Bool
starts_with c [] = false
starts_with c (b ∷ bs) = b == c

-- The loop over the groups, at most `n` more of them.
unfoldable pub ipv6_loop : ℕ → Bytes → Option ℕ → Bytes → Option Partial
unfolding hex_group trailing_ipv4 after_group starts_with
ipv6_loop zero ip ell s = some (ip, ell, s)
ipv6_loop (suc n) ip ell s =
    let (acc, digits, rest) = hex_group 0 0 s in
    let next = after_group (ipv6_loop n) (ip ++ (acc / 256 ∷ acc % 256 ∷ [])) ell rest in
    if digits == 0 || ltb 4 digits
    then none
    else if starts_with 46 rest
    then trailing_ipv4 ip ell s
    else next

unfoldable pub zeros : ℕ → Bytes
zeros zero = []
zeros (suc n) = 0 ∷ zeros n

-- The zeros that `::` stands for.
unfoldable pub expand : Partial → Option Bytes
unfolding zeros
expand (ip, ell, (c ∷ s)) = none
expand (ip, none, []) = if length ip == 16 then some ip else none
expand (ip, some e, []) =
    if length ip == 16 then none else some (take e ip ++ zeros (16 - length ip) ++ drop e ip)

unfoldable pub ipv6_groups : Bytes → Option ℕ → Bytes → Option Bytes
unfolding ipv6_loop expand
ipv6_groups ip ell s = elim (ipv6_loop 8 ip ell s) [ none ↦ none | some r ↦ expand r ]

unfoldable pub ipv6_after_colons : Bytes → Option Bytes
unfolding ipv6_groups zeros
ipv6_after_colons [] = some (zeros 16)
ipv6_after_colons (b ∷ s) = ipv6_groups [] (some 0) (b ∷ s)

-- parseIPv6, of a text without a zone.
unfoldable pub parse_ipv6 : Bytes → Option Bytes
unfolding ipv6_groups ipv6_after_colons
parse_ipv6 s =
    if bytes_eq (take 2 s) (58 ∷ 58 ∷ [])
    then ipv6_after_colons (drop 2 s)
    else ipv6_groups [] none s

-- The first of the bytes '.', ':' and '%'.
unfoldable pub first_mark : Bytes → ℕ
first_mark [] = 0
first_mark (b ∷ bs) = if b == 46 || b == 58 || b == 37 then b else first_mark bs

unfoldable pub mapped : Option Bytes → Option Bytes
unfolding zeros
mapped none = none
mapped (some four) = some (zeros 10 ++ (255 ∷ 255 ∷ four))

-- net.ParseIP: nothing for an address with a zone.
unfoldable pub parse_ip : Bytes → Option Bytes
unfolding first_mark mapped parse_ipv4 parse_ipv6 has_byte
parse_ip s =
    if first_mark s == 46
    then mapped (parse_ipv4 s)
    else if first_mark s == 58
    then (if has_byte 37 s then none else parse_ipv6 s)
    else none

unfoldable pub byte_at : ℕ → Bytes → ℕ
byte_at n [] = 0
byte_at zero (b ∷ bs) = b
byte_at (suc n) (b ∷ bs) = byte_at n bs

-- IP.To4() != nil
unfoldable pub is_ipv4 : Bytes → Bool
unfolding zeros
is_ipv4 ip = bytes_eq (take 12 ip) (zeros 10 ++ (255 ∷ 255 ∷ []))

-- IP.IsUnspecified
unfoldable pub is_unspecified : Bytes → Bool
unfolding is_ipv4 zeros
is_unspecified ip = bytes_eq ip (zeros 16) || (is_ipv4 ip && bytes_eq (drop 12 ip) (zeros 4))

-- IP.IsMulticast
unfoldable pub is_multicast : Bytes → Bool
unfolding is_ipv4 byte_at
is_multicast ip = if is_ipv4 ip then byte_at 12 ip / 16 == 14 else byte_at 0 ip == 255

-- IP.IsLinkLocalMulticast
unfoldable pub is_link_local_multicast : Bytes → Bool
unfolding is_ipv4 byte_at
is_link_local_multicast ip =
    if is_ipv4 ip
    then byte_at 12 ip == 224 && byte_at 13 ip == 0 && byte_at 14 ip == 0
    else byte_at 0 ip == 255 && byte_at 1 ip % 16 == 2

-- IP.IsLinkLocalUnicast
unfoldable pub is_link_local_unicast : Bytes → Bool
unfolding is_ipv4 byte_at
is_link_local_unicast ip =
    if is_ipv4 ip
    then byte_at 12 ip == 169 && byte_at 13 ip == 254
    else byte_at 0 ip == 254 && byte_at 1 ip / 64 == 2
