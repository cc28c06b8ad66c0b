-- ===== src/Net/Icmpv4/Answer.antt =====
-- `Icmpv4InLocal` answers an echo request with the reply that the protocol asks for.
use urchin.Prelude.{
  ℕ, ◌+◌, ◌-◌, ◌%◌, ◌≤◌, ◌<◌, ◌≡◌, refl, arith, ap, ◌∙◌, List, [], ◌∷◌, ◌++◌, ◌⊎◌, inl, inr, some,
  true, leb, length,
}
use urchin.Devices.Buffer.{slice}
use urchin.Devices.Netif.{Netif}
use urchin.Net.Frame.{field}
use urchin.Net.Frame.Laws.{bind_some}
use urchin.Net.Node.{DataFromNetif, NetState, xmit}
use urchin.Net.Checksum.{finish, swapped}
use urchin.Net.Checksum.Sum.{word_sum}
use urchin.Net.Icmpv4.{icmpv4_one, icmpv4_process}
use urchin.Net.Icmpv4.Fields.{Written, headers-Written, field-field, stored-field}
use urchin.Net.Icmpv4.Plain.{field-plain_of}
use urchin.Net.Icmpv4.Reply.{
  IsRequest, hdr, icmp, blank, headers, plain, sum_icmp, with_icmp, sum_ip, reply, headers-IsBytes,
  hdr_field, icmp_field, peer-IsBytes, both_verify, long, room, rest, plain-append,
}
use urchin.Net.Icmpv4.Built.{echo_reply_lem}

-- An echo reply to the request in `s`: sender and receiver change places, identifier, sequence number
-- and payload are kept, and a receiver that adds up the words of either checksum finds it right.
pub record IsReply (netif : Netif) (s : List ℕ) (size words : ℕ) (reply : List ℕ) : Type 0 where
  fields :
      Written
        (field 6 6 s)
        netif.macaddr.addr
        (field 16 2 s)
        (field 30 4 s)
        (field 26 4 s)
        (field 38 2 s)
        (field 40 2 s)
        reply
  payload : field 42 (size - 8) reply ≡ field 42 (size - 8) s
  ipv4_checksum : word_sum 10 7 reply % 65535 ≡ 0
  icmp_checksum : word_sum words 17 reply % 65535 ≡ 0

module _ {pre_xmit : Netif → ℕ → List ℕ} {netif : Netif} {s : List ℕ} {size words : ℕ}
    (r : IsRequest pre_xmit netif s size words) where
  -- What is outside the two checksums is as it was before.
  reply-field :
      (o n : ℕ)
      → (25 < o) ⊎ (o + n ≤ 24)
      → (37 < o) ⊎ (o + n ≤ 36)
      → field o n (reply r) ≡ field o n (plain r)
  reply-field o n h h' =
      stored-field o n 12 (swapped (finish (sum_ip r))) (with_icmp r) h
      ∙ stored-field o n 18 (swapped (finish (sum_icmp r))) (plain r) h'

  reply-Written :
      Written
        (field 6 6 s)
        netif.macaddr.addr
        (field 16 2 s)
        (field 30 4 s)
        (field 26 4 s)
        (field 38 2 s)
        (field 40 2 s)
        (reply r)
  reply-Written =
      let w =
        headers-Written (field 6 6 s) netif.macaddr.addr (field 2 2 (hdr r)) (field 16 4 (hdr r))
          (field 12 4 (hdr r)) (field 4 2 (icmp r)) (field 6 2 (icmp r)) (rest r)
          (peer-IsBytes r).size r.mac.size (hdr_field r 2 2 (omega arith)).size
          (hdr_field r 16 4 (omega arith)).size (hdr_field r 12 4 (omega arith)).size
          (icmp_field r 4 2 (omega arith)).size (icmp_field r 6 2 (omega arith)).size in
      let at : (o n : ℕ)
          → (25 < o) ⊎ (o + n ≤ 24)
          → (37 < o) ⊎ (o + n ≤ 36)
          → field o n (reply r) ≡ field o n (headers r ++ rest r) =
        λ o n h h'. reply-field o n h h' ∙ ap (field o n) (plain-append r) in
      record {
        to = at 0 6 (inr (omega arith)) (inr (omega arith)) ∙ w.to;
        from = at 6 6 (inr (omega arith)) (inr (omega arith)) ∙ w.from;
        ether_type = at 12 2 (inr (omega arith)) (inr (omega arith)) ∙ w.ether_type;
        total_length =
            at 16 2 (inr (omega arith)) (inr (omega arith))
            ∙ w.total_length
            ∙ field-field 14 20 2 2 s (omega arith);
        protocol = at 23 1 (inr (omega arith)) (inr (omega arith)) ∙ w.protocol;
        source =
            at 26 4 (inl (omega arith)) (inr (omega arith))
            ∙ w.source
            ∙ field-field 14 20 16 4 s (omega arith);
        destination =
            at 30 4 (inl (omega arith)) (inr (omega arith))
            ∙ w.destination
            ∙ field-field 14 20 12 4 s (omega arith);
        icmp_type = at 34 2 (inl (omega arith)) (inr (omega arith)) ∙ w.icmp_type;
        identifier =
            at 38 2 (inl (omega arith)) (inl (omega arith))
            ∙ w.identifier
            ∙ field-field 34 8 4 2 s (omega arith);
        sequence =
            at 40 2 (inl (omega arith)) (inl (omega arith))
            ∙ w.sequence
            ∙ field-field 34 8 6 2 s (omega arith);
      }

  reply-IsReply : IsReply netif s size words (reply r)
  reply-IsReply = record {
    fields = reply-Written;
    payload =
        reply-field 42 (size - 8) (inl (omega arith)) (inl (omega arith))
        ∙ field-plain_of 42 (size - 8) (headers r) s (blank r) (headers-IsBytes r) r.bytes (long r)
            r.filled (room r);
    ipv4_checksum = (both_verify r).1;
    icmp_checksum = (both_verify r).0;
  }

-- The reply that the node sends does not depend on the state.
pub request_replies :
    (pre_xmit : Netif → ℕ → List ℕ) (frame : DataFromNetif) (size words : ℕ)
    → IsRequest pre_xmit frame.netif (slice frame.buffer) size words
    → (reply : List ℕ) × ((st : NetState)
        → icmpv4_one pre_xmit frame st ≡ some (xmit frame.netif reply st))
      × IsReply frame.netif (slice frame.buffer) size words reply
unfolding icmpv4_one
request_replies pre_xmit frame size words r =
    let s = slice frame.buffer in
    let header_fits : leb 34 (length s) ≡ true = ground (arith, r.long) in
    let icmp_fits : leb 42 (length s) ≡ true = ground (arith, r.long, r.header) in
    (
      reply r,
      λ st.
          rw header_fits
            (rw r.no_options (rw icmp_fits (rw (r.echo_request) (rw (echo_reply_lem r) refl)))),
      reply-IsReply r,
    )

-- When the frame's bytes hold an echo request of an even number of bytes behind an IPv4 header without
-- options, and `pre_xmit` returns a buffer of at least the size asked for, the node sends one frame on
-- the interface the request came from and changes nothing else. That frame is the echo reply:
-- addresses turned round, identifier, sequence number and payload kept, and the words of the IPv4
-- header and of the ICMP message each add up to a multiple of 65535, checksums included.
pub request_answered :
    (pre_xmit : Netif → ℕ → List ℕ) (frame : DataFromNetif) (st : NetState) (size words : ℕ)
    → IsRequest pre_xmit frame.netif (slice frame.buffer) size words
    → (reply : List ℕ) × (icmpv4_one pre_xmit frame st ≡ some (xmit frame.netif reply st))
      × IsReply frame.netif (slice frame.buffer) size words reply
request_answered pre_xmit frame st size words r =
    let (reply, sends, is_reply) = request_replies pre_xmit frame size words r in
    (reply, sends st, is_reply)

pub icmpv4_process-one :
    (pre_xmit : Netif → ℕ → List ℕ) (frame : DataFromNetif) (st st' : NetState)
    → icmpv4_one pre_xmit frame st ≡ some st'
    → icmpv4_process pre_xmit (frame ∷ []) st ≡ some st'
unfolding icmpv4_process
icmpv4_process-one pre_xmit frame st st' e = bind_some _ e refl
