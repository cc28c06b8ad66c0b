-- ===== src/Net/Icmpv6/Tests.antt =====
-- A neighbour advertisement, and an echo request.
use urchin.Prelude.{ℕ, ◌≡◌, refl, arith, List, ◌∷◌, ◌++◌, none, some, replicate}
use urchin.Devices.Buffer.{slice, slice_len}
use urchin.Net.Icmpv6.{icmpv6_one}
use urchin.Net.Icmpv6.Advertise.{icmpv6_one-advertisement}
use urchin.Net.Icmpv6.Reply.{IsRequest6}
use urchin.Net.Icmpv6.Answer.{IsReply6, request6_answered}
use urchin.Net.Node.{xmit}
use urchin.Net.Sample.{
  start, frame_of, blank, netif, own_bytes, echo6_bytes, all_below, all_below-All,
}

abbrev advertisement : List ℕ
advertisement = replicate 54 0x60 ++ (0x88 ∷ replicate 35 0)

icmpv6_one-advertisement_example : icmpv6_one blank (frame_of advertisement) start ≡ none
unfolding slice slice_len
icmpv6_one-advertisement_example =
    icmpv6_one-advertisement blank (frame_of advertisement) start refl refl

echo6_bytes-IsRequest6 : IsRequest6 blank netif (slice (frame_of echo6_bytes).buffer) 10 5
unfolding slice slice_len all_below
echo6_bytes-IsRequest6 = record {
  bytes = all_below-All echo6_bytes refl;
  long = omega arith;
  total = refl;
  echo_request = refl;
  header = omega arith;
  even = refl;
  mac = record { size = refl; bytes = all_below-All own_bytes refl };
  room = omega arith;
  filled = all_below-All (replicate 64 0) refl;
}

request6_answered_example :
    (reply : List ℕ) × (icmpv6_one blank (frame_of echo6_bytes) start
      ≡ some (xmit netif reply start))
    × IsReply6 netif (slice (frame_of echo6_bytes).buffer) 10 5 reply
request6_answered_example =
    request6_answered blank (frame_of echo6_bytes) start 10 5 echo6_bytes-IsRequest6
