-- ===== src/Net/Icmpv4/Built.antt =====
-- `echo_reply` builds the reply that Reply describes.
use urchin.Prelude.{
  ℕ, ◌+◌, ◌-◌, ◌/◌, ◌≡◌, refl, arith, ap₂, ◌∙◌, List, [], ◌∷◌, ◌++◌, some, true, length, length-set,
  drop, set, get_or, u8, usize, sub_usize, bit_or, ◌<<<◌, ◌>>>◌, ltb, lt→ltb, write_at, ◌>>=◌,
}
use urchin.Devices.Netif.{Netif}
use urchin.Net.Mac
use urchin.Net.Ipv4Address
use urchin.Net.Ipv4Address.{get_array-from_array}
use urchin.Net.Frame.{field, overlay, at_offset, le16}
use urchin.Net.Frame.Laws.{overlay_at, overlay_behind_at, bind_some}
use urchin.Net.Checksum.{finish, swapped}
use urchin.Net.Checksum.Sum.{swapped_lem}
use urchin.Net.Ethernet.{generate_ether_header}
use urchin.Net.Icmpv4.{generate_ipv4_header, echo_reply, copy_payload}
use urchin.Net.Icmpv4.Plain.{plain_of-copied}
use urchin.Net.Icmpv4.Copy.{overlay_two}
use urchin.Net.Icmpv4.Headers.{ip_part, append-IsBytes}
use urchin.Net.Icmpv4.Reply.{
  IsRequest, long, room, hdr, icmp, blank, ether, ip, echo, headers, plain, sum_icmp, with_icmp,
  sum_ip, reply, ether_bytes, ip_bytes, echo_bytes, headers-IsBytes, plain_size, with_icmp_size,
  hdr_field, icmp_verifies, ip_verifies, small,
}

module _ {pre_xmit : Netif → ℕ → List ℕ} {netif : Netif} {s : List ℕ} {size words : ℕ}
    (r : IsRequest pre_xmit netif s size words) where
  size_is :
      sub_usize (bit_or (get_or (field 2 2 (hdr r)) 0 0 <<< 8) (get_or (field 2 2 (hdr r)) 1 0)) 20
      ≡ size
  size_is = omega (arith, r.total, small r)

  end_is : usize (14 + 20 + size) ≡ 34 + size
  end_is = omega (arith, small r)

  ether_written :
      generate_ether_header (blank r) netif.macaddr (Mac.new (field 6 6 s)) (0x08 ∷ 0x00 ∷ [])
      ≡ some (ether r ++ drop 14 (blank r))
  unfolding Mac.get_array Mac.new
  ether_written = overlay_at 14 (ether r) (blank r) (ether_bytes r).size (omega arith)

  ip_written :
      at_offset 14
        (generate_ipv4_header
          (field 2 2 (hdr r))
          0x01
          (Ipv4Address.from_array (field 16 4 (hdr r)))
          (Ipv4Address.from_array (field 12 4 (hdr r))))
        (ether r ++ drop 14 (blank r))
      ≡ some ((ether r ++ ip r) ++ drop 34 (blank r))
  ip_written =
      ap₂
        (λ a b.
          at_offset 14 (overlay (ip_part (field 2 2 (hdr r)) a b)) (ether r ++ drop 14 (blank r)))
        (get_array-from_array (field 16 4 (hdr r)) (hdr_field r 16 4 (omega arith)))
        (get_array-from_array (field 12 4 (hdr r)) (hdr_field r 12 4 (omega arith)))
      ∙ overlay_behind_at 14 20 (ether r) (ip r) (blank r) (ether_bytes r).size (ip_bytes r).size
          (omega arith)

  icmp_written :
      at_offset
        (14 + 20)
        (overlay ((0 ∷ 0 ∷ []) ++ le16 0 ++ field 4 2 (icmp r) ++ field 6 2 (icmp r)))
        ((ether r ++ ip r) ++ drop 34 (blank r))
      ≡ some (headers r ++ drop 42 (blank r))
  icmp_written =
      overlay_behind_at 34 8 (ether r ++ ip r) (echo r) (blank r)
        (append-IsBytes (ether_bytes r) (ip_bytes r)).size (echo_bytes r).size (omega arith)

  copied : copy_payload (34 + size - 42) 42 s (headers r ++ drop 42 (blank r)) ≡ some (plain r)
  copied =
      let left : 34 + size - 42 ≡ size - 8 = omega (arith, r.header) in
      rw left (
        plain_of-copied 42 (size - 8) (headers r) s (blank r) (headers-IsBytes r) r.bytes (long r)
          r.filled (room r))

  csum_written :
      at_offset (14 + 20 + 2) (overlay (le16 (swapped (finish (sum_icmp r))))) (plain r)
      ≡ some (with_icmp r)
  csum_written = overlay_two 36 _ _ (plain r) (omega (arith, (plain_size r).size, r.room, r.header))

  bytes_written :
      (write_at (with_icmp r) 24 (u8 (finish (sum_ip r) >>> 8)) >>= λ with_hi.
      write_at with_hi 25 (u8 (finish (sum_ip r))))
      ≡ some (reply r)
  bytes_written =
      let csum = finish (sum_ip r) in
      let hi : u8 (csum >>> 8) ≡ u8 (swapped csum) = omega (arith, swapped_lem csum) in
      let lo : u8 csum ≡ u8 (swapped csum / 256) = omega (arith, swapped_lem csum) in
      let fits : ltb 24 (length (with_icmp r)) ≡ true =
        lt→ltb _ _ (omega (arith, (with_icmp_size r).size, r.room)) in
      let fits' : ltb 25 (length (set (with_icmp r) 24 (u8 (swapped csum)))) ≡ true = lt→ltb _ _ (
        omega (
          arith,
          length-set (with_icmp r) 24 (u8 (swapped csum)),
          (with_icmp_size r).size,
          r.room,
        )) in
      rw (hi, lo) (rw fits (rw fits' refl))

  -- The whole of the (reply r), step by step.
  pub echo_reply_lem : echo_reply pre_xmit netif s (hdr r) (icmp r) 20 ≡ some (reply r)
  unfolding echo_reply
  echo_reply_lem =
      let all_words : (34 + size) / 2 - 14 / 2 ≡ 10 + words = omega (arith, r.even) in
      let icmp_words : (34 + size) / 2 - (14 + 20) / 2 ≡ words = omega (arith, r.even) in
      rw size_is (
        rw end_is (
          rw (all_words, icmp_words)
            (bind_some _ ether_written (
              bind_some _ ip_written (
                bind_some _ icmp_written (
                  bind_some _ copied (
                    bind_some _ (icmp_verifies r).0 (
                      bind_some _ csum_written (bind_some _ (ip_verifies r).0 bytes_written)))))))))
