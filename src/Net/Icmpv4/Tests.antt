-- ===== src/Net/Icmpv4/Tests.antt =====
-- An echo request and the reply to it, byte for byte, with both checksums.
use urchin.Prelude.{ℕ, ◌≡◌, refl, arith, List, [], ◌∷◌, ◌++◌, some, replicate}
use urchin.Devices.Buffer.{slice, slice_len}
use urchin.Net.Mac
use urchin.Net.Ipv4Address
use urchin.Net.Checksum.{sum_words, finish}
use urchin.Net.Node.{xmit}
use urchin.Net.Icmpv4.Reply.{IsRequest}
use urchin.Net.Icmpv4.Answer.{IsReply, request_answered}
use urchin.Net.Icmpv4.{copy_payload, echo_reply, icmpv4_one}
use urchin.Net.Sample.{
  start, frame_of, echo_bytes, own_bytes, peer_bytes, netif, all_below, all_below-All, blank,
}

echo_answered :
    icmpv4_one blank (frame_of echo_bytes) start
    ≡ some (record start {
      sent =
          (
            netif,
            peer_bytes
                ++ own_bytes
                ++ (0x08 ∷ 0x00 ∷ 0x45 ∷ 0 ∷ 0 ∷ 30 ∷ 0 ∷ 0 ∷ 0x40 ∷ 0 ∷ 64 ∷ 1 ∷ 0xb9 ∷ 0x21 ∷ [])
                ++ (192 ∷ 168 ∷ 0 ∷ 10 ∷ 192 ∷ 168 ∷ 0 ∷ 99 ∷ [])
                ++ (0 ∷ 0 ∷ 0x53 ∷ 0x29 ∷ 1 ∷ 2 ∷ 0 ∷ 7 ∷ 0xab ∷ 0xcd ∷ []),
          )
          ∷ [];
    })
unfolding icmpv4_one echo_reply slice slice_len Ipv4Address.from_array Ipv4Address.get_array
    copy_payload Mac.new Mac.get_array sum_words finish
echo_answered = refl

pub echo_bytes-IsRequest : IsRequest blank netif (slice (frame_of echo_bytes).buffer) 10 5
unfolding slice slice_len all_below
echo_bytes-IsRequest = record {
  bytes = all_below-All echo_bytes refl;
  long = omega arith;
  no_options = refl;
  total = refl;
  echo_request = refl;
  header = omega arith;
  even = refl;
  mac = record { size = refl; bytes = all_below-All own_bytes refl };
  room = omega arith;
  filled = all_below-All (replicate 44 0) refl;
}

request_answered_example :
    (reply : List ℕ) × (icmpv4_one blank (frame_of echo_bytes) start
      ≡ some (xmit netif reply start))
    × IsReply netif (slice (frame_of echo_bytes).buffer) 10 5 reply
request_answered_example =
    request_answered blank (frame_of echo_bytes) start 10 5 echo_bytes-IsRequest
