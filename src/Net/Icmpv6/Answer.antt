-- ===== src/Net/Icmpv6/Answer.antt =====
-- `Icmpv6InLocal` answers an echo request with an echo reply.
use urchin.Prelude.{
  ℕ, ◌+◌, ◌-◌, ◌/◌, ◌%◌, ◌≤◌, ◌<◌, ◌≡◌, refl, arith, ap, ap₂, ◌∙◌, List, [], ◌∷◌, ◌++◌, ◌⊎◌, inl,
  inr, some, true, leb, length, drop, get_or,
}
use urchin.Devices.Buffer.{slice}
use urchin.Devices.Netif.{Netif}
use urchin.Net.Mac
use urchin.Net.Ipv6Address
use urchin.Net.Ipv6Address.{get_array-from_array_16}
use urchin.Net.Frame.{field, overlay, at_offset, le16}
use urchin.Net.Frame.Laws.{overlay_at, overlay_behind_at, bind_some}
use urchin.Net.Node.{DataFromNetif, NetState, xmit}
use urchin.Net.Checksum.{finish, swapped}
use urchin.Net.Checksum.Sum.{word_sum}
use urchin.Net.Ethernet.{generate_ether_header}
use urchin.Net.Icmpv4.Copy.{overlay_two}
use urchin.Net.Icmpv4.Headers.{append-IsBytes, word_sum-append_words}
use urchin.Net.Icmpv4.Plain.{plain_of-copied, field-plain_of}
use urchin.Net.Icmpv4.Fields.{field-field, stored-field, word_sum-field}
use urchin.Net.Icmpv6.{generate_ipv6_header, reply_source, echo_reply6, icmpv6_one}
use urchin.Net.Icmpv6.Headers.{ip6_part, reply_source-IsBytes, Written6}
use urchin.Net.Icmpv6.Reply.{
  IsRequest6, hdr, icmp, blank, code, ether, ip, echo, ether_bytes, ip_bytes, echo_bytes, hdr_field,
  headers, headers-IsBytes, long, room, plain, plain-IsBytes, plain-Written, pseudo_summed,
  sum_icmp, reply, icmp_verifies,
}

-- An echo reply to the request in `s`, from the address that every reply has: identifier, sequence number
-- and payload are kept, and a receiver that adds up the words of the pseudo header and of the message
-- finds the checksum right.
pub record IsReply6 (netif : Netif) (s : List ℕ) (size words : ℕ) (reply : List ℕ) : Type 0 where
  fields :
      Written6
        (field 6 6 s)
        netif.macaddr.addr
        (field 18 2 s)
        reply_source
        (field 22 16 s)
        (get_or (field 54 8 s) 1 0)
        (field 58 2 s)
        (field 60 2 s)
        reply
  payload : field 62 (size - 8) reply ≡ field 62 (size - 8) s
  checksum : (word_sum 16 11 reply + size + 58 + word_sum words 27 reply) % 65535 ≡ 0

module _ {pre_xmit : Netif → ℕ → List ℕ} {netif : Netif} {s : List ℕ} {size words : ℕ}
    (r : IsRequest6 pre_xmit netif s size words) where
  ether_written :
      generate_ether_header (blank r) netif.macaddr (Mac.new (field 6 6 s)) (0x86 ∷ 0xdd ∷ [])
      ≡ some (ether r ++ drop 14 (blank r))
  unfolding Mac.get_array Mac.new
  ether_written = overlay_at 14 (ether r) (blank r) (ether_bytes r).size (omega (arith, r.room))

  ip_written :
      at_offset 14
        (generate_ipv6_header
          (field 4 2 (hdr r))
          58
          (Ipv6Address.from_array reply_source)
          (Ipv6Address.from_array (field 8 16 (hdr r))))
        (ether r ++ drop 14 (blank r))
      ≡ some ((ether r ++ ip r) ++ drop 54 (blank r))
  ip_written =
      ap₂
        (λ a b.
          at_offset 14 (overlay (ip6_part (field 4 2 (hdr r)) a b)) (ether r ++ drop 14 (blank r)))
        (get_array-from_array_16 reply_source reply_source-IsBytes)
        (get_array-from_array_16 (field 8 16 (hdr r)) (hdr_field r 8 16 (omega arith)))
      ∙ overlay_behind_at 14 40 (ether r) (ip r) (blank r) (ether_bytes r).size (ip_bytes r).size
          (omega (arith, r.room))

  icmp_written :
      at_offset
        (14 + 40)
        (overlay ((0x81 ∷ code r ∷ []) ++ le16 0 ++ field 4 2 (icmp r) ++ field 6 2 (icmp r)))
        ((ether r ++ ip r) ++ drop 54 (blank r))
      ≡ some (headers r ++ drop 62 (blank r))
  icmp_written =
      overlay_behind_at 54 8 (ether r ++ ip r) (echo r) (blank r)
        (append-IsBytes (ether_bytes r) (ip_bytes r)).size (echo_bytes r).size
        (omega (arith, r.room, r.header))

  csum_written :
      at_offset (14 + 40 + 2) (overlay (le16 (swapped (finish (sum_icmp r))))) (plain r)
      ≡ some (reply r)
  csum_written =
      overlay_two 56 _ _ (plain r) (omega (arith, (plain-IsBytes r).size, r.room, r.header))

  -- The whole of the reply, step by step.
  echo_reply6_lem : echo_reply6 pre_xmit netif s (hdr r) (icmp r) ≡ some (reply r)
  unfolding echo_reply6
  echo_reply6_lem =
      let left : 54 + size - 62 ≡ size - 8 = omega (arith, r.header) in
      let icmp_words : (54 + size) / 2 - (14 + 40) / 2 ≡ words = omega (arith, r.even) in
      rw r.total (
        rw (left, icmp_words)
          (bind_some _ ether_written (
            bind_some _ ip_written (
              bind_some _ icmp_written (
                bind_some _
                  (plain_of-copied 62 (size - 8) (headers r) s (blank r) (headers-IsBytes r) r.bytes
                    (long r) r.filled (room r))
                  (bind_some _ (pseudo_summed r).0 (
                    bind_some _ (pseudo_summed r).1 (
                      rw ((pseudo_summed r).2)
                        (bind_some _ (icmp_verifies r).0 csum_written)))))))))

  -- What is outside the checksum is as it was before.
  reply-field : (o n : ℕ) → (57 < o) ⊎ (o + n ≤ 56) → field o n (reply r) ≡ field o n (plain r)
  reply-field o n h = stored-field o n 28 (swapped (finish (sum_icmp r))) (plain r) h

  reply-Written :
      Written6
        (field 6 6 s)
        netif.macaddr.addr
        (field 18 2 s)
        reply_source
        (field 22 16 s)
        (get_or (field 54 8 s) 1 0)
        (field 58 2 s)
        (field 60 2 s)
        (reply r)
  reply-Written =
      let w = (plain-Written r).0 in
      record {
        to = reply-field 0 6 (inr (omega arith)) ∙ w.to;
        from = reply-field 6 6 (inr (omega arith)) ∙ w.from;
        ether_type = reply-field 12 2 (inr (omega arith)) ∙ w.ether_type;
        version = reply-field 14 4 (inr (omega arith)) ∙ w.version;
        payload_length =
            reply-field 18 2 (inr (omega arith))
            ∙ w.payload_length
            ∙ field-field 14 40 4 2 s (omega arith);
        next_header = reply-field 20 1 (inr (omega arith)) ∙ w.next_header;
        source = reply-field 22 16 (inr (omega arith)) ∙ w.source;
        destination =
            reply-field 38 16 (inr (omega arith))
            ∙ w.destination
            ∙ field-field 14 40 8 16 s (omega arith);
        icmp_type = reply-field 54 2 (inr (omega arith)) ∙ w.icmp_type;
        identifier =
            reply-field 58 2 (inl (omega arith))
            ∙ w.identifier
            ∙ field-field 54 8 4 2 s (omega arith);
        sequence =
            reply-field 60 2 (inl (omega arith))
            ∙ w.sequence
            ∙ field-field 54 8 6 2 s (omega arith);
      }

  -- The addresses in the reply are those of the pseudo header.
  addresses_summed :
      word_sum 16 11 (reply r) ≡ word_sum 8 0 reply_source + word_sum 8 0 (field 8 16 (hdr r))
  addresses_summed =
      let w = (plain-Written r).0 in
      let source : word_sum 8 11 (reply r) ≡ word_sum 8 0 reply_source =
        word_sum-field 8 0 11 16 (reply r) (omega arith)
        ∙ ap (word_sum 8 0) (reply-field 22 16 (inr (omega arith)) ∙ w.source) in
      let destination : word_sum 8 19 (reply r) ≡ word_sum 8 0 (field 8 16 (hdr r)) =
        word_sum-field 8 0 19 16 (reply r) (omega arith)
        ∙ ap (word_sum 8 0) (reply-field 38 16 (inr (omega arith)) ∙ w.destination) in
      omega (arith, word_sum-append_words 8 8 11 (reply r), source, destination)

  reply-IsReply6 : IsReply6 netif s size words (reply r)
  reply-IsReply6 = record {
    fields = reply-Written;
    payload =
        reply-field 62 (size - 8) (inl (omega arith))
        ∙ field-plain_of 62 (size - 8) (headers r) s (blank r) (headers-IsBytes r) r.bytes (long r)
            r.filled (room r);
    checksum = omega (arith, addresses_summed, (icmp_verifies r).1);
  }

-- When the frame's bytes hold an ICMPv6 echo request of an even number of bytes directly behind the
-- IPv6 header, and `pre_xmit` returns a buffer of at least the size asked for, the node sends one frame
-- on the interface the request came from and changes nothing else. That frame is an echo reply to the
-- sender: identifier, sequence number and payload are kept, and the words of its pseudo header and of
-- its message add up to a multiple of 65535, checksum included. Its source is not an address of the
-- interface, but 0202:0202:0202:0202:0202:0202:0202:0202.
pub request6_answered :
    (pre_xmit : Netif → ℕ → List ℕ) (frame : DataFromNetif) (st : NetState) (size words : ℕ)
    → IsRequest6 pre_xmit frame.netif (slice frame.buffer) size words
    → (reply : List ℕ) × (icmpv6_one pre_xmit frame st ≡ some (xmit frame.netif reply st))
      × IsReply6 frame.netif (slice frame.buffer) size words reply
unfolding icmpv6_one
request6_answered pre_xmit frame st size words r =
    let s = slice frame.buffer in
    let header_fits : leb 54 (length s) ≡ true = ground (arith, r.long) in
    let icmp_fits : leb 62 (length s) ≡ true = ground (arith, r.long, r.header) in
    (
      reply r,
      rw header_fits (rw icmp_fits (rw (r.echo_request) (rw (echo_reply6_lem r) refl))),
      reply-IsReply6 r,
    )
