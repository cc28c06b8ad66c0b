-- ===== src/Net/Icmpv6/Reply.antt =====
-- The reply to an ICMPv6 echo request as a whole, with its checksum.
use urchin.Prelude.{
  ℕ, ◌+◌, ◌-◌, ◌*◌, ◌%◌, ◌^◌, ◌≤◌, ◌<◌, ◌≡◌, refl, arith, ap, ◌∙◌, List, ◌++◌, some, length, drop,
  get_or, All, u32, bit_or, ◌<<<◌,
}
use urchin.Prelude.Bits.{bit_or_join}
use urchin.Devices.Netif.{Netif}
use urchin.Net.Bytes.{IsBytes, get_or-lt}
use urchin.Net.Frame.{field}
use urchin.Net.Frame.Laws.{field-IsBytes}
use urchin.Net.Checksum.{sum_words, finish, swapped}
use urchin.Net.Checksum.Sum.{
  word_sum, word_sum-le, stored, sum_words_lem, sum_words-stored_verifies,
}
use urchin.Net.Icmpv4.Headers.{append-IsBytes}
use urchin.Net.Icmpv4.Plain.{plain_of, plain_of-IsBytes, plain_of-append}
use urchin.Net.Icmpv6.{reply_source}
use urchin.Net.Icmpv6.Headers.{
  ether6_part, ip6_part, icmp6_part, headers6, reply_source-IsBytes, Written6, ether6-IsBytes,
  ip6-IsBytes, icmp6-IsBytes, headers6-Written,
}

-- A frame whose bytes hold an ICMPv6 echo request of `size` bytes, an even number, directly behind its
-- IPv6 header, and a buffer for the reply of at least the size asked for.
pub record IsRequest6 (pre_xmit : Netif → ℕ → List ℕ) (netif : Netif) (s : List ℕ) (size words : ℕ)
    : Type 0 where
  pub bytes : All (λ b. b < 256) s
  pub long : 54 + size ≤ length s
  pub total :
      bit_or (get_or (field 4 2 (field 14 40 s)) 0 0 <<< 8) (get_or (field 4 2 (field 14 40 s)) 1 0)
      ≡ size
  pub echo_request : get_or (field 54 8 s) 0 0 ≡ 0x80
  pub header : 8 ≤ size
  pub even : size ≡ 2 * words
  pub mac : IsBytes 6 netif.macaddr.addr
  pub room : 54 + size ≤ length (pre_xmit netif (54 + size))
  pub filled : All (λ b. b < 256) (pre_xmit netif (54 + size))

module _ {pre_xmit : Netif → ℕ → List ℕ} {netif : Netif} {s : List ℕ} {size words : ℕ}
    (r : IsRequest6 pre_xmit netif s size words) where
  abbrev pub hdr : List ℕ
  hdr = field 14 40 s

  abbrev pub icmp : List ℕ
  icmp = field 54 8 s

  abbrev pub blank : List ℕ
  blank = pre_xmit netif (54 + size)

  abbrev pub code : ℕ
  code = get_or icmp 1 0

  hdr-IsBytes : IsBytes 40 hdr
  hdr-IsBytes = field-IsBytes 14 40 s r.bytes (omega (arith, r.long))

  icmp-IsBytes : IsBytes 8 icmp
  icmp-IsBytes = field-IsBytes 54 8 s r.bytes (omega (arith, r.long, r.header))

  pub hdr_field : (offset n : ℕ) → offset + n ≤ 40 → IsBytes n (field offset n hdr)
  hdr_field offset n h =
      field-IsBytes offset n hdr hdr-IsBytes.bytes (omega (arith, hdr-IsBytes.size))

  icmp_field : (offset n : ℕ) → offset + n ≤ 8 → IsBytes n (field offset n icmp)
  icmp_field offset n h =
      field-IsBytes offset n icmp icmp-IsBytes.bytes (omega (arith, icmp-IsBytes.size))

  peer-IsBytes : IsBytes 6 (field 6 6 s)
  peer-IsBytes = field-IsBytes 6 6 s r.bytes (omega (arith, r.long))

  code-lt : code < 256
  code-lt = get_or-lt icmp 1 icmp-IsBytes.bytes

  -- The payload length has sixteen bits.
  small : size < 2 ^ 16
  small =
      let len = field 4 2 hdr in
      let b = (hdr_field 4 2 (omega arith)).bytes in
      omega (
        arith,
        r.total,
        bit_or_join 8 (get_or len 0 0) (get_or len 1 0) (get_or-lt len 1 b),
        get_or-lt len 0 b,
        get_or-lt len 1 b,
      )

  abbrev pub ether : List ℕ
  ether = ether6_part (field 6 6 s) netif.macaddr.addr

  abbrev pub ip : List ℕ
  ip = ip6_part (field 4 2 hdr) reply_source (field 8 16 hdr)

  abbrev pub echo : List ℕ
  echo = icmp6_part code (field 4 2 icmp) (field 6 2 icmp)

  abbrev pub headers : List ℕ
  headers =
      headers6 (field 6 6 s) netif.macaddr.addr (field 4 2 hdr) reply_source (field 8 16 hdr) code
        (field 4 2 icmp) (field 6 2 icmp)

  pub ether_bytes : IsBytes 14 ether
  ether_bytes = ether6-IsBytes (field 6 6 s) netif.macaddr.addr peer-IsBytes r.mac

  pub ip_bytes : IsBytes 40 ip
  ip_bytes =
      ip6-IsBytes (field 4 2 hdr) reply_source (field 8 16 hdr) (hdr_field 4 2 (omega arith))
        reply_source-IsBytes (hdr_field 8 16 (omega arith))

  pub echo_bytes : IsBytes 8 echo
  echo_bytes =
      icmp6-IsBytes code (field 4 2 icmp) (field 6 2 icmp) code-lt (icmp_field 4 2 (omega arith))
        (icmp_field 6 2 (omega arith))

  pub headers-IsBytes : IsBytes 62 headers
  headers-IsBytes = append-IsBytes (append-IsBytes ether_bytes ip_bytes) echo_bytes

  pub long : 62 + (size - 8) ≤ length s
  long = omega (arith, r.long, r.header)

  pub room : 62 + (size - 8) ≤ length blank
  room = omega (arith, r.room, r.header)

  abbrev pub plain : List ℕ
  plain = plain_of 62 (size - 8) headers s blank

  pub plain-IsBytes : IsBytes (length blank) plain
  plain-IsBytes =
      plain_of-IsBytes 62 (size - 8) headers s blank headers-IsBytes r.bytes long r.filled room

  pub plain-Written :
      Written6
        (field 6 6 s)
        netif.macaddr.addr
        (field 4 2 hdr)
        reply_source
        (field 8 16 hdr)
        code
        (field 4 2 icmp)
        (field 6 2 icmp)
        plain
      × (get_or plain 56 0 ≡ 0)
      × (get_or plain 57 0 ≡ 0)
  plain-Written =
      rw (plain_of-append 62 (size - 8) headers s blank headers-IsBytes r.bytes long r.filled room)
        (headers6-Written (field 6 6 s) netif.macaddr.addr (field 4 2 hdr) reply_source
          (field 8 16 hdr) code (field 4 2 icmp) (field 6 2 icmp)
          (field 62 (size - 8) s ++ drop (62 + (size - 8)) blank) peer-IsBytes.size r.mac.size
          (hdr_field 4 2 (omega arith)).size refl (hdr_field 8 16 (omega arith)).size
          (icmp_field 4 2 (omega arith)).size (icmp_field 6 2 (omega arith)).size)

  -- The sum of the pseudo header: both addresses, the length, and the number of the protocol.
  abbrev pub pseudo : ℕ
  pseudo = word_sum 8 0 reply_source + word_sum 8 0 (field 8 16 hdr) + size + 58

  pseudo-lt : pseudo < 2 ^ 22
  pseudo-lt = omega (
    arith,
    small,
    word_sum-le 8 0 reply_source reply_source-IsBytes.bytes,
    word_sum-le 8 0 (field 8 16 hdr) (hdr_field 8 16 (omega arith)).bytes,
  )

  pub pseudo_summed :
      (sum_words 8 0 reply_source 0 ≡ some (word_sum 8 0 reply_source))
      × (sum_words 8 0 (field 8 16 hdr) (word_sum 8 0 reply_source)
          ≡ some (word_sum 8 0 reply_source + word_sum 8 0 (field 8 16 hdr)))
      × (u32 (u32 (word_sum 8 0 reply_source + word_sum 8 0 (field 8 16 hdr) + size) + 58) ≡ pseudo)
  pseudo_summed =
      let src = hdr_field 8 16 (omega arith) in
      (
        sum_words_lem 8 0 reply_source 0 reply_source-IsBytes.bytes (omega arith) (omega arith)
            ∙ ap some (omega (arith, pseudo-lt)),
        sum_words_lem 8 0 (field 8 16 hdr) (word_sum 8 0 reply_source) src.bytes
              (omega (arith, src.size)) (omega (arith, pseudo-lt))
            ∙ ap some (omega (arith, pseudo-lt)),
        omega (arith, pseudo-lt),
      )

  abbrev pub sum_icmp : ℕ
  sum_icmp = pseudo + word_sum words 27 plain

  abbrev pub reply : List ℕ
  reply = stored 28 (swapped (finish sum_icmp)) plain

  pub icmp_verifies :
      (sum_words words 27 plain pseudo ≡ some sum_icmp)
      × ((pseudo + word_sum words 27 reply) % 65535 ≡ 0)
  icmp_verifies =
      sum_words-stored_verifies words 27 28 pseudo plain plain-IsBytes.bytes
        (omega (arith, pseudo-lt, small, r.even)) (omega arith) (omega (arith, r.header, r.even))
        (omega (arith, plain-IsBytes.size, r.room, r.even)) plain-Written.1 plain-Written.2
