-- ===== src/Net/Icmpv4/Reply.antt =====
-- The reply to an echo request as a whole, with both of its checksums.
use urchin.Prelude.{
  ℕ, ◌+◌, ◌-◌, ◌*◌, ◌/◌, ◌%◌, ◌^◌, ◌≤◌, ◌<◌, ◌≡◌, arith, ◌∙◌, List, ◌++◌, some, length, length-set,
  drop, set, get_or, All, u8, bit_and, bit_or, ◌<<<◌,
}
use urchin.Prelude.Bits.{bit_or_join}
use urchin.Devices.Netif.{Netif}
use urchin.Net.Bytes.{IsBytes, get_or-lt}
use urchin.Net.Frame.{field}
use urchin.Net.Frame.Laws.{field-IsBytes}
use urchin.Net.Checksum.{sum_words, finish, swapped}
use urchin.Net.Checksum.Sum.{
  word_sum, stored, word_sum-stored_verifies, get_or-stored_ne, word_sum-stored_below,
}
use urchin.Net.Icmpv4.Plain.{plain_of, plain_of-IsBytes, plain_of-append}
use urchin.Net.Icmpv4.Copy.{All-set}
use urchin.Net.Icmpv4.Headers.{
  ether_part, ip_part, icmp_part, reply_headers, ether-IsBytes, ip-IsBytes, icmp_part-IsBytes,
  headers_zeros, append-IsBytes, word_sum-append_words,
}

-- A frame whose bytes hold an echo request of `size` bytes, an even number, behind an IPv4 header without
-- options, and a buffer for the reply of at least the size asked for.
pub record IsRequest (pre_xmit : Netif → ℕ → List ℕ) (netif : Netif) (s : List ℕ) (size words : ℕ)
    : Type 0 where
  pub bytes : All (λ b. b < 256) s
  pub long : 34 + size ≤ length s
  pub no_options : bit_and (get_or (field 14 20 s) 0 0) 0x0f * 4 ≡ 20
  pub total :
      bit_or (get_or (field 2 2 (field 14 20 s)) 0 0 <<< 8) (get_or (field 2 2 (field 14 20 s)) 1 0)
      ≡ 20 + size
  pub echo_request : get_or (field 34 8 s) 0 0 ≡ 8
  pub header : 8 ≤ size
  pub even : size ≡ 2 * words
  pub mac : IsBytes 6 netif.macaddr.addr
  pub room : 34 + size ≤ length (pre_xmit netif (34 + size))
  pub filled : All (λ b. b < 256) (pre_xmit netif (34 + size))

module _ {pre_xmit : Netif → ℕ → List ℕ} {netif : Netif} {s : List ℕ} {size words : ℕ}
    (r : IsRequest pre_xmit netif s size words) where
  abbrev pub hdr : List ℕ
  hdr = field 14 20 s

  abbrev pub icmp : List ℕ
  icmp = field 34 8 s

  abbrev pub blank : List ℕ
  blank = pre_xmit netif (34 + size)

  hdr-IsBytes : IsBytes 20 hdr
  hdr-IsBytes = field-IsBytes 14 20 s r.bytes (omega arith)

  icmp-IsBytes : IsBytes 8 icmp
  icmp-IsBytes = field-IsBytes 34 8 s r.bytes (omega arith)

  pub hdr_field : (offset n : ℕ) → offset + n ≤ 20 → IsBytes n (field offset n hdr)
  hdr_field offset n h =
      field-IsBytes offset n hdr hdr-IsBytes.bytes (omega (arith, hdr-IsBytes.size))

  pub icmp_field : (offset n : ℕ) → offset + n ≤ 8 → IsBytes n (field offset n icmp)
  icmp_field offset n h =
      field-IsBytes offset n icmp icmp-IsBytes.bytes (omega (arith, icmp-IsBytes.size))

  pub peer-IsBytes : IsBytes 6 (field 6 6 s)
  peer-IsBytes = field-IsBytes 6 6 s r.bytes (omega arith)

  -- The total length has sixteen bits.
  pub small : 20 + size < 2 ^ 16
  small =
      let len = field 2 2 hdr in
      let b = (hdr_field 2 2 (omega arith)).bytes in
      omega (
        arith,
        r.total,
        bit_or_join 8 (get_or len 0 0) (get_or len 1 0) (get_or-lt len 1 b),
        get_or-lt len 0 b,
        get_or-lt len 1 b,
      )

  abbrev pub headers : List ℕ
  headers =
      reply_headers (field 6 6 s) netif.macaddr.addr (field 2 2 hdr) (field 16 4 hdr)
        (field 12 4 hdr) (field 4 2 icmp) (field 6 2 icmp)

  -- The reply before its checksums.
  abbrev pub plain : List ℕ
  plain = plain_of 42 (size - 8) headers s blank

  abbrev pub ether : List ℕ
  ether = ether_part (field 6 6 s) netif.macaddr.addr

  abbrev pub ip : List ℕ
  ip = ip_part (field 2 2 hdr) (field 16 4 hdr) (field 12 4 hdr)

  abbrev pub echo : List ℕ
  echo = icmp_part (field 4 2 icmp) (field 6 2 icmp)

  pub ether_bytes : IsBytes 14 ether
  ether_bytes = ether-IsBytes (field 6 6 s) netif.macaddr.addr peer-IsBytes r.mac

  pub ip_bytes : IsBytes 20 ip
  ip_bytes =
      ip-IsBytes (field 2 2 hdr) (field 16 4 hdr) (field 12 4 hdr) (hdr_field 2 2 (omega arith))
        (hdr_field 16 4 (omega arith)) (hdr_field 12 4 (omega arith))

  pub echo_bytes : IsBytes 8 echo
  echo_bytes =
      icmp_part-IsBytes (field 4 2 icmp) (field 6 2 icmp) (icmp_field 4 2 (omega arith))
        (icmp_field 6 2 (omega arith))

  pub headers-IsBytes : IsBytes 42 headers
  headers-IsBytes = append-IsBytes (append-IsBytes ether_bytes ip_bytes) echo_bytes

  pub long : 42 + (size - 8) ≤ length s
  long = omega (arith, r.long, r.header)

  pub room : 42 + (size - 8) ≤ length blank
  room = omega (arith, r.room, r.header)

  pub plain_size : IsBytes (length blank) plain
  plain_size =
      plain_of-IsBytes 42 (size - 8) headers s blank headers-IsBytes r.bytes long r.filled room

  -- What stands behind the headers.
  abbrev pub rest : List ℕ
  rest = field 42 (size - 8) s ++ drop (42 + (size - 8)) blank

  pub plain-append : plain ≡ headers ++ rest
  plain-append =
      plain_of-append 42 (size - 8) headers s blank headers-IsBytes r.bytes long r.filled room

  plain_zeros :
      (get_or plain 24 0 ≡ 0)
      × (get_or plain 25 0 ≡ 0)
      × (get_or plain 36 0 ≡ 0)
      × (get_or plain 37 0 ≡ 0)
  plain_zeros = rw plain-append (
      headers_zeros (field 6 6 s) netif.macaddr.addr (field 2 2 hdr) (field 16 4 hdr)
        (field 12 4 hdr) (field 4 2 icmp) (field 6 2 icmp) rest peer-IsBytes.size r.mac.size
        (hdr_field 2 2 (omega arith)).size (hdr_field 16 4 (omega arith)).size
        (hdr_field 12 4 (omega arith)).size)

  -- The checksum of ICMP, and then that of IPv4, which is made over the whole packet.
  abbrev pub sum_icmp : ℕ
  sum_icmp = word_sum words 17 plain

  abbrev pub with_icmp : List ℕ
  with_icmp = stored 18 (swapped (finish sum_icmp)) plain

  abbrev pub sum_ip : ℕ
  sum_ip = word_sum (10 + words) 7 with_icmp

  abbrev pub reply : List ℕ
  reply = stored 12 (swapped (finish sum_ip)) with_icmp

  pub icmp_verifies :
      (sum_words words 17 plain 0 ≡ some sum_icmp) × (word_sum words 17 with_icmp % 65535 ≡ 0)
  icmp_verifies =
      word_sum-stored_verifies words 17 18 plain plain_size.bytes (omega (arith, small, r.even))
        (omega arith) (omega (arith, r.header, r.even))
        (omega (arith, plain_size.size, r.room, r.even)) plain_zeros.2 plain_zeros.3

  pub with_icmp_size : IsBytes (length blank) with_icmp
  with_icmp_size = record {
    size =
        length-set (set plain 36 (u8 (swapped (finish sum_icmp)))) 37 _
        ∙ length-set plain 36 _
        ∙ plain_size.size;
    bytes =
        All-set _ 37 (u8 (swapped (finish sum_icmp) / 256))
          (All-set plain 36 (u8 (swapped (finish sum_icmp))) plain_size.bytes (omega arith))
          (omega arith);
  }

  pub ip_verifies :
      (sum_words (10 + words) 7 with_icmp 0 ≡ some sum_ip)
      × (word_sum (10 + words) 7 reply % 65535 ≡ 0)
  ip_verifies =
      word_sum-stored_verifies (10 + words) 7 12 with_icmp with_icmp_size.bytes
        (omega (arith, small, r.even)) (omega arith) (omega arith)
        (omega (arith, with_icmp_size.size, r.room, r.even))
        (get_or-stored_ne 18 24 _ plain (λ e. omega arith) (λ e. omega arith) ∙ plain_zeros.0)
        (get_or-stored_ne 18 25 _ plain (λ e. omega arith) (λ e. omega arith) ∙ plain_zeros.1)

  -- The ICMP message, whose words sum to a multiple of 65535, does not matter to the header's checksum.
  pub both_verify : (word_sum words 17 reply % 65535 ≡ 0) × (word_sum 10 7 reply % 65535 ≡ 0)
  both_verify =
      let below : word_sum words 17 reply ≡ word_sum words 17 with_icmp =
        word_sum-stored_below words 17 12 (swapped (finish sum_ip)) with_icmp (omega arith) in
      let split = word_sum-append_words 10 words 7 reply in
      (
        omega (arith, below, icmp_verifies.1),
        omega (arith, below, icmp_verifies.1, split, ip_verifies.1),
      )
