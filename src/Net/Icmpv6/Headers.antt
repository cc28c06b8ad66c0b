-- ===== src/Net/Icmpv6/Headers.antt =====
-- The headers of a reply to an ICMPv6 echo request before its checksum is set.
use urchin.Prelude.{
  ℕ, zero, suc, ◌<◌, ◌≡◌, refl, arith, List, [], ◌∷◌, ◌++◌, length, get_or, All, replicate,
}
use urchin.Net.Bytes.{IsBytes}
use urchin.Net.Frame.{field}
use urchin.Net.Icmpv4.Copy.{explicit}
use urchin.Net.Icmpv4.Headers.{append-IsBytes, pair-IsBytes, zeros-IsBytes}
use urchin.Net.Icmpv6.{reply_source}

abbrev pub ether6_part : (peer own : List ℕ) → List ℕ
ether6_part peer own = peer ++ own ++ (0x86 ∷ 0xdd ∷ [])

abbrev pub ip6_part : (len own_ip peer_ip : List ℕ) → List ℕ
ip6_part len own_ip peer_ip =
    (0x60 ∷ 0 ∷ 0 ∷ 0 ∷ []) ++ len ++ (58 ∷ 0x80 ∷ []) ++ own_ip ++ peer_ip

abbrev pub icmp6_part : (code : ℕ) (id seq : List ℕ) → List ℕ
icmp6_part code id seq = (0x81 ∷ code ∷ []) ++ (0 ∷ 0 ∷ []) ++ id ++ seq

abbrev pub headers6 : (peer own len own_ip peer_ip : List ℕ) (code : ℕ) (id seq : List ℕ) → List ℕ
headers6 peer own len own_ip peer_ip code id seq =
    (ether6_part peer own ++ ip6_part len own_ip peer_ip) ++ icmp6_part code id seq

pub reply_source-IsBytes : IsBytes 16 reply_source
reply_source-IsBytes = record { size = refl; bytes = all_two 16 }
  where
    all_two : (n : ℕ) → All (λ b. b < 256) (replicate n 0x02)
    all_two zero = tt
    all_two (suc n) = (omega arith, all_two n)

-- The fields of the headers are what was set.
pub record Written6 (peer own len own_ip peer_ip : List ℕ) (code : ℕ) (id seq d : List ℕ)
    : Type 0 where
  pub to : field 0 6 d ≡ peer
  pub from : field 6 6 d ≡ own
  pub ether_type : field 12 2 d ≡ 0x86 ∷ 0xdd ∷ []
  pub version : field 14 4 d ≡ 0x60 ∷ 0 ∷ 0 ∷ 0 ∷ []
  pub payload_length : field 18 2 d ≡ len
  pub next_header : field 20 1 d ≡ 58 ∷ []
  pub source : field 22 16 d ≡ own_ip
  pub destination : field 38 16 d ≡ peer_ip
  pub icmp_type : field 54 2 d ≡ 0x81 ∷ code ∷ []
  pub identifier : field 58 2 d ≡ id
  pub sequence : field 60 2 d ≡ seq

pub ether6-IsBytes :
    (peer own : List ℕ) → IsBytes 6 peer → IsBytes 6 own → IsBytes 14 (ether6_part peer own)
ether6-IsBytes peer own p o =
    append-IsBytes (append-IsBytes p o) (pair-IsBytes 0x86 0xdd (omega arith) (omega arith))

version-IsBytes : IsBytes 4 (0x60 ∷ 0 ∷ 0 ∷ 0 ∷ [])
version-IsBytes = append-IsBytes (pair-IsBytes 0x60 0 (omega arith) (omega arith)) zeros-IsBytes

pub ip6-IsBytes :
    (len own_ip peer_ip : List ℕ)
    → IsBytes 2 len
    → IsBytes 16 own_ip
    → IsBytes 16 peer_ip
    → IsBytes 40 (ip6_part len own_ip peer_ip)
ip6-IsBytes len own_ip peer_ip l i j =
    let next =
      append-IsBytes (append-IsBytes version-IsBytes l)
        (pair-IsBytes 58 0x80 (omega arith) (omega arith)) in
    append-IsBytes (append-IsBytes next i) j

pub icmp6-IsBytes :
    (code : ℕ) (id seq : List ℕ)
    → code < 256
    → IsBytes 2 id
    → IsBytes 2 seq
    → IsBytes 8 (icmp6_part code id seq)
icmp6-IsBytes code id seq c k m =
    let type = append-IsBytes (pair-IsBytes 0x81 code (omega arith) c) zeros-IsBytes in
    append-IsBytes (append-IsBytes type k) m

pub headers6-Written :
    (peer own len own_ip peer_ip : List ℕ) (code : ℕ) (id seq rest : List ℕ)
    → length peer ≡ 6
    → length own ≡ 6
    → length len ≡ 2
    → length own_ip ≡ 16
    → length peer_ip ≡ 16
    → length id ≡ 2
    → length seq ≡ 2
    → let d = headers6 peer own len own_ip peer_ip code id seq ++ rest in
      Written6 peer own len own_ip peer_ip code id seq d × (get_or d 56 0 ≡ 0) × (get_or d 57 0 ≡ 0)
headers6-Written peer own len own_ip peer_ip code id seq rest p o l i j k m =
    rw (← (explicit 6 peer p)) (
      rw (← (explicit 6 own o)) (
        rw (← (explicit 2 len l)) (
          rw (← (explicit 16 own_ip i)) (
            rw (← (explicit 16 peer_ip j)) (
              rw (← (explicit 2 id k)) (
                rw (← (explicit 2 seq m)) (
                  record {
                    to = refl;
                    from = refl;
                    ether_type = refl;
                    version = refl;
                    payload_length = refl;
                    next_header = refl;
                    source = refl;
                    destination = refl;
                    icmp_type = refl;
                    identifier = refl;
                    sequence = refl;
                  },
                  refl,
                  refl,
                )))))))
