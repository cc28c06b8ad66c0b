-- ===== src/Net/Icmpv4/Headers.antt =====
-- The headers of an echo reply before their checksums are set.
use urchin.Prelude.{
  ℕ, zero, suc, ◌+◌, ◌<◌, ◌≡◌, refl, arith, ap₂, ◌∙◌, List, [], ◌∷◌, ◌++◌, length, length-append,
  get_or, All,
}
use urchin.Net.Bytes.{IsBytes}
use urchin.Net.Checksum.Sum.{word_sum}
use urchin.Net.Icmpv4.Copy.{explicit}

-- The headers of the reply, with zeros for the checksums: the addresses of the request are turned round.
abbrev pub ether_part : (peer own : List ℕ) → List ℕ
ether_part peer own = peer ++ own ++ (0x08 ∷ 0x00 ∷ [])

abbrev pub ip_part : (len own_ip peer_ip : List ℕ) → List ℕ
ip_part len own_ip peer_ip =
    (0x45 ∷ 0 ∷ [])
    ++ len
    ++ (0 ∷ 0 ∷ [])
    ++ (0x40 ∷ 0 ∷ [])
    ++ (64 ∷ 1 ∷ [])
    ++ (0 ∷ 0 ∷ [])
    ++ own_ip
    ++ peer_ip

abbrev pub icmp_part : (id seq : List ℕ) → List ℕ
icmp_part id seq = (0 ∷ 0 ∷ []) ++ (0 ∷ 0 ∷ []) ++ id ++ seq

abbrev pub reply_headers : (peer own len own_ip peer_ip id seq : List ℕ) → List ℕ
reply_headers peer own len own_ip peer_ip id seq =
    (ether_part peer own ++ ip_part len own_ip peer_ip) ++ icmp_part id seq

pub All-append :
    (xs ys : List ℕ) → All (λ b. b < 256) xs → All (λ b. b < 256) ys → All (λ b. b < 256) (xs ++ ys)
All-append [] ys h h' = h'
All-append (x ∷ xs) ys h h' = (h.0, All-append xs ys h.1 h')

pub append-IsBytes :
    {m n : ℕ} {xs ys : List ℕ} → IsBytes m xs → IsBytes n ys → IsBytes (m + n) (xs ++ ys)
append-IsBytes {m} {n} {xs} {ys} h h' = record {
  size = length-append xs ys ∙ ap₂ ◌+◌ h.size h'.size;
  bytes = All-append xs ys h.bytes h'.bytes;
}

pub pair-IsBytes : (a b : ℕ) → a < 256 → b < 256 → IsBytes 2 (a ∷ b ∷ [])
pair-IsBytes a b h h' = record { size = refl; bytes = (h, (h', tt)) }

pub zeros-IsBytes : IsBytes 2 (0 ∷ 0 ∷ [])
zeros-IsBytes = pair-IsBytes 0 0 (omega arith) (omega arith)

pub ether-IsBytes :
    (peer own : List ℕ) → IsBytes 6 peer → IsBytes 6 own → IsBytes 14 (ether_part peer own)
ether-IsBytes peer own p o =
    append-IsBytes (append-IsBytes p o) (pair-IsBytes 0x08 0x00 (omega arith) (omega arith))

pub ip-IsBytes :
    (len own_ip peer_ip : List ℕ)
    → IsBytes 2 len
    → IsBytes 4 own_ip
    → IsBytes 4 peer_ip
    → IsBytes 20 (ip_part len own_ip peer_ip)
ip-IsBytes len own_ip peer_ip l i j =
    let version = append-IsBytes (pair-IsBytes 0x45 0 (omega arith) (omega arith)) l in
    let flags =
      append-IsBytes (append-IsBytes version zeros-IsBytes)
        (pair-IsBytes 0x40 0 (omega arith) (omega arith)) in
    let checksum =
      append-IsBytes (append-IsBytes flags (pair-IsBytes 64 1 (omega arith) (omega arith)))
        zeros-IsBytes in
    append-IsBytes (append-IsBytes checksum i) j

pub icmp_part-IsBytes :
    (id seq : List ℕ) → IsBytes 2 id → IsBytes 2 seq → IsBytes 8 (icmp_part id seq)
icmp_part-IsBytes id seq i j =
    append-IsBytes (append-IsBytes (append-IsBytes zeros-IsBytes zeros-IsBytes) i) j

-- The places of the checksums.
pub headers_zeros :
    (peer own len own_ip peer_ip id seq rest : List ℕ)
    → length peer ≡ 6
    → length own ≡ 6
    → length len ≡ 2
    → length own_ip ≡ 4
    → length peer_ip ≡ 4
    → let d = reply_headers peer own len own_ip peer_ip id seq ++ rest in
      (get_or d 24 0 ≡ 0) × (get_or d 25 0 ≡ 0) × (get_or d 36 0 ≡ 0) × (get_or d 37 0 ≡ 0)
headers_zeros peer own len own_ip peer_ip id seq rest p o l i j = rw (← (explicit 6 peer p)) (
    rw (← (explicit 6 own o)) (
      rw (← (explicit 2 len l))
        (rw (← (explicit 4 own_ip i)) (rw (← (explicit 4 peer_ip j)) (refl, refl, refl, refl)))))

pub word_sum-append_words :
    (m n i : ℕ) (xs : List ℕ) → word_sum (m + n) i xs ≡ word_sum m i xs + word_sum n (i + m) xs
word_sum-append_words zero n i xs =
    let none_yet : zero + n ≡ n = omega arith in
    let here : i + zero ≡ i = omega arith in rw (none_yet, here) (omega arith)
word_sum-append_words (suc m) n i xs =
    let more : suc m + n ≡ suc (m + n) = omega arith in
    let later : i + suc m ≡ i + 1 + m = omega arith in
    rw (more, later) (omega (arith, word_sum-append_words m n (i + 1) xs))
