-- ===== src/Net/Ipv4In/Repeat.antt =====
-- How often `Ipv4In` has the echo requests of a batch answered.
use urchin.Prelude.{
  ℕ, ◌≤◌, ◌≡◌, refl, arith, ap, ◌∙◌, List, [], ◌∷◌, ◌++◌, Option, some, true, Bool-cases, inl, inr,
  ◌==◌, length, get_or, bit_and, leb,
}
use urchin.Devices.Buffer.{slice}
use urchin.Devices.Netif.{Netif}
use urchin.Net.Icmpv4.{icmpv4_one}
use urchin.Net.Icmpv4.Reply.{IsRequest}
use urchin.Net.Icmpv4.Answer.{IsReply}
use urchin.Net.Ipv4Address
use urchin.Net.Ipv4Address.{Ipv4Address}
use urchin.Net.Fib.{Tables, ForwardInformationBase, local, adjacent_resolved, find_ipv4_fib}
use urchin.Net.Frame.{field, view}
use urchin.Net.Frame.Laws.{bind_some}
use urchin.Net.Node.{DataFromNetif, NetState, Node, NodeName, icmpv4_in_local, forward, xmit}
use urchin.Net.Ipv4In.{sort_icmp, ipv4_loop, ipv4_process}

abbrev pub header_of : DataFromNetif → List ℕ
header_of frame = field 14 20 (slice frame.buffer)

-- A frame with a version 4 header, for an address that the tables say is local, with an ICMP packet.
pub record IsLocalIcmp (t : Tables) (frame : DataFromNetif) : Type 0 where
  pub long : 34 ≤ length (slice frame.buffer)
  pub version : (bit_and (get_or (header_of frame) 0 0) 0xf0 == 0x40) ≡ true
  pub fib : ForwardInformationBase Ipv4Address
  pub found :
      find_ipv4_fib (Ipv4Address.from_array (field 16 4 (header_of frame))) 0xffff_ffff t
      ≡ some (some fib)
  pub is_local : fib.fib_type ≡ local
  pub is_icmp : (get_or (header_of frame) 9 0 == 0x01) ≡ true

-- A local echo request, and a buffer for the reply.
pub record IsEcho (pre_xmit : Netif → ℕ → List ℕ) (t : Tables) (frame : DataFromNetif)
    : Type 0 where
  pub local_icmp : IsLocalIcmp t frame
  pub size : ℕ
  pub words : ℕ
  pub request : IsRequest pre_xmit frame.netif (slice frame.buffer) size words

-- The reply that the ICMP node sends to a request, which is the right one.
pub record Replied (pre_xmit : Netif → ℕ → List ℕ) (frame : DataFromNetif) (reply : List ℕ)
    : Type 0 where
  size : ℕ
  words : ℕ
  request : IsRequest pre_xmit frame.netif (slice frame.buffer) size words
  sends : (st : NetState) → icmpv4_one pre_xmit frame st ≡ some (xmit frame.netif reply st)
  is_reply : IsReply frame.netif (slice frame.buffer) size words reply

-- One reply for each request, in order, each on the interface of the request.
pub data AreReplies (pre_xmit : Netif → ℕ → List ℕ)
    : List DataFromNetif → List (Netif × List ℕ) → Type 0 where
  all_replied : AreReplies pre_xmit [] []
  next_replied :
      (frame : DataFromNetif) (reply : List ℕ) (pkts : List DataFromNetif)
      (replies : List (Netif × List ℕ))
      → Replied pre_xmit frame reply
      → AreReplies pre_xmit pkts replies
      → AreReplies pre_xmit (frame ∷ pkts) ((frame.netif, reply) ∷ replies)

-- For each item, all those before it, from `before` on, and the item itself.
abbrev pub repeated : {A : Type 0} → List A → List A → List A
repeated before [] = []
repeated before (x ∷ xs) = (before ++ (x ∷ [])) ++ repeated (before ++ (x ∷ [])) xs

joined :
    {t : Tables} (frame : DataFromNetif) (icmp_pkts : List DataFromNetif) (l : IsLocalIcmp t frame)
    → sort_icmp (some l.fib) (get_or (header_of frame) 9 0) frame icmp_pkts
      ≡ icmp_pkts ++ (frame ∷ [])
joined frame icmp_pkts l = rw (l.is_local, l.is_icmp) refl

forward_filled :
    (node : Node) (pkts : List DataFromNetif) (frame : DataFromNetif) (st : NetState)
    → forward (some node) (pkts ++ (frame ∷ [])) st ≡ node (pkts ++ (frame ∷ [])) st
forward_filled node [] frame st = refl
forward_filled node (p ∷ pkts) frame st = refl

-- A packet for an address that is not local is passed over.
pub ipv4_process-passes :
    (nodes : NodeName → Option Node) (frame : DataFromNetif) (st : NetState)
    (fib : ForwardInformationBase Ipv4Address)
    → 34 ≤ length (slice frame.buffer)
    → find_ipv4_fib (Ipv4Address.from_array (field 16 4 (header_of frame))) 0xffff_ffff st.tables
      ≡ some (some fib)
    → fib.fib_type ≡ adjacent_resolved
    → ipv4_process nodes (frame ∷ []) st ≡ some st
unfolding ipv4_process ipv4_loop
ipv4_process-passes nodes frame st fib long found other =
    let fits : leb 34 (length (slice frame.buffer)) ≡ true = ground (arith, long) in
    let seen : view 14 20 (slice frame.buffer) ≡ some (header_of frame) = rw fits refl in
    bind_some _ seen (
      bind_some _ found (elim (Bool-cases (bit_and (get_or (header_of frame) 0 0) 0xf0 == 0x40)) [
        | inl version ↦ rw (version, other) refl
        | inr irregular ↦ rw irregular refl
      ]))

module _ (nodes : NodeName → Option Node) (node : Node) (t : Tables)
    (registered : nodes icmpv4_in_local ≡ some node) where
  loop_step :
      (frame : DataFromNetif) (buff icmp_pkts : List DataFromNetif) (st st' : NetState)
      → st.tables ≡ t
      → IsLocalIcmp t frame
      → node (icmp_pkts ++ (frame ∷ [])) st ≡ some st'
      → ipv4_loop nodes (frame ∷ buff) icmp_pkts st
        ≡ ipv4_loop nodes buff (icmp_pkts ++ (frame ∷ [])) st'
  unfolding ipv4_loop
  loop_step frame buff icmp_pkts st st' same l ran = bind_some _ seen (
      bind_some _ route (
        rw (l.version, joined frame icmp_pkts l, registered)
          (bind_some _ (forward_filled node icmp_pkts frame st ∙ ran) refl)))
    where
      fits : leb 34 (length (slice frame.buffer)) ≡ true
      fits = let h = l.long in ground arith

      seen : view 14 20 (slice frame.buffer) ≡ some (header_of frame)
      seen = rw fits refl

      route :
          find_ipv4_fib
            (Ipv4Address.from_array (field 16 4 (header_of frame)))
            0xffff_ffff
            st.tables
          ≡ some (some l.fib)
      route = ap (find_ipv4_fib _ 0xffff_ffff) same ∙ l.found

  -- A batch of one.
  pub ipv4_process-one :
      (frame : DataFromNetif) (st st' : NetState)
      → st.tables ≡ t
      → IsLocalIcmp t frame
      → node (frame ∷ []) st ≡ some st'
      → ipv4_process nodes (frame ∷ []) st ≡ some st'
  unfolding ipv4_process ipv4_loop
  ipv4_process-one frame st st' same l ran = loop_step frame [] [] st st' same l ran
