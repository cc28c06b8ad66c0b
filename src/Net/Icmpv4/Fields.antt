-- ===== src/Net/Icmpv4/Fields.antt =====
-- The fields of an echo reply.
use urchin.Prelude.{
  get_or, ℕ, zero, suc, ◌+◌, ◌*◌, ◌/◌, u8, ◌≤◌, ◌<◌, ◌≡◌, refl, arith, ap, ◌∙◌, List, [], ◌∷◌, ◌++◌,
  ◌⊎◌, inl, inr, length, take, drop, set, drop-drop,
}
use urchin.Net.Frame.{field}
use urchin.Net.Checksum.Sum.{word_sum, stored}
use urchin.Net.Icmpv4.Copy.{explicit}
use urchin.Net.Icmpv4.Headers.{reply_headers}

take_inner : (n m : ℕ) (xs : List ℕ) → n ≤ m → take n (take m xs) ≡ take n xs
take_inner zero m xs h = refl
take_inner (suc n) zero xs h = absurd (omega arith)
take_inner (suc n) (suc m) [] h = refl
take_inner (suc n) (suc m) (x ∷ xs) h = ap (λ l. x ∷ l) (take_inner n m xs (omega arith))

field_inner :
    (o n m : ℕ) (xs : List ℕ) → o + n ≤ m → take n (drop o (take m xs)) ≡ take n (drop o xs)
field_inner zero n m xs h = take_inner n m xs (omega arith)
field_inner (suc o) n zero xs h = absurd (omega arith)
field_inner (suc o) n (suc m) [] h = refl
field_inner (suc o) n (suc m) (x ∷ xs) h = field_inner o n m xs (omega arith)

pub field-field :
    (p m o n : ℕ) (xs : List ℕ) → o + n ≤ m → field o n (field p m xs) ≡ field (p + o) n xs
field-field p m o n xs h = field_inner o n m (drop p xs) h ∙ ap (take n) (drop-drop p o xs)

set_behind : (n i v : ℕ) (xs : List ℕ) → n ≤ i → take n (set xs i v) ≡ take n xs
set_behind zero i v xs h = refl
set_behind (suc n) i v [] h = refl
set_behind (suc n) zero v (x ∷ xs) h = absurd (omega arith)
set_behind (suc n) (suc i) v (x ∷ xs) h = ap (λ l. x ∷ l) (set_behind n i v xs (omega arith))

-- A byte set outside a field leaves it.
field-set :
    (o n i v : ℕ) (xs : List ℕ) → (i < o) ⊎ (o + n ≤ i) → field o n (set xs i v) ≡ field o n xs
field-set zero n i v xs (inl h) = absurd (omega arith)
field-set zero n i v xs (inr h) = set_behind n i v xs (omega arith)
field-set (suc o) n i v [] h = refl
field-set (suc o) n zero v (x ∷ xs) h = refl
field-set (suc o) n (suc i) v (x ∷ xs) (inl h) = field-set o n i v xs (inl (omega arith))
field-set (suc o) n (suc i) v (x ∷ xs) (inr h) = field-set o n i v xs (inr (omega arith))

pub stored-field :
    (o n k v : ℕ) (xs : List ℕ)
    → (k * 2 + 1 < o) ⊎ (o + n ≤ k * 2)
    → field o n (stored k v xs) ≡ field o n xs
stored-field o n k v xs (inl h) =
    field-set o n (k * 2 + 1) (u8 (v / 256)) (set xs (k * 2) (u8 v)) (inl h)
    ∙ field-set o n (k * 2) (u8 v) xs (inl (omega arith))
stored-field o n k v xs (inr h) =
    field-set o n (k * 2 + 1) (u8 (v / 256)) (set xs (k * 2) (u8 v)) (inr (omega arith))
    ∙ field-set o n (k * 2) (u8 v) xs (inr h)

-- The fields of the headers are what was set.
pub record Written (peer own len own_ip peer_ip id seq d : List ℕ) : Type 0 where
  pub to : field 0 6 d ≡ peer
  pub from : field 6 6 d ≡ own
  pub ether_type : field 12 2 d ≡ 0x08 ∷ 0x00 ∷ []
  pub total_length : field 16 2 d ≡ len
  pub protocol : field 23 1 d ≡ 1 ∷ []
  pub source : field 26 4 d ≡ own_ip
  pub destination : field 30 4 d ≡ peer_ip
  pub icmp_type : field 34 2 d ≡ 0 ∷ 0 ∷ []
  pub identifier : field 38 2 d ≡ id
  pub sequence : field 40 2 d ≡ seq

pub headers-Written :
    (peer own len own_ip peer_ip id seq rest : List ℕ)
    → length peer ≡ 6
    → length own ≡ 6
    → length len ≡ 2
    → length own_ip ≡ 4
    → length peer_ip ≡ 4
    → length id ≡ 2
    → length seq ≡ 2
    → Written peer own len own_ip peer_ip id seq
        (reply_headers peer own len own_ip peer_ip id seq ++ rest)
headers-Written peer own len own_ip peer_ip id seq rest p o l i j k m = rw (← (explicit 6 peer p)) (
    rw (← (explicit 6 own o)) (
      rw (← (explicit 2 len l)) (
        rw (← (explicit 4 own_ip i)) (
          rw (← (explicit 4 peer_ip j)) (
            rw (← (explicit 2 id k)) (
              rw (← (explicit 2 seq m)) (record {
                to = refl;
                from = refl;
                ether_type = refl;
                total_length = refl;
                protocol = refl;
                source = refl;
                destination = refl;
                icmp_type = refl;
                identifier = refl;
                sequence = refl;
              })))))))

get_or-field : (j m : ℕ) (xs : List ℕ) → j < m → get_or (take m xs) j 0 ≡ get_or xs j 0
get_or-field j zero xs h = absurd (omega arith)
get_or-field j (suc m) [] h = refl
get_or-field zero (suc m) (x ∷ xs) h = refl
get_or-field (suc j) (suc m) (x ∷ xs) h = get_or-field j m xs (omega arith)

get_or-drop : (o j : ℕ) (xs : List ℕ) → get_or (drop o xs) j 0 ≡ get_or xs (o + j) 0
get_or-drop zero j xs = let same : zero + j ≡ j = omega arith in rw same refl
get_or-drop (suc o) j [] = refl
get_or-drop (suc o) j (x ∷ xs) =
    let next : suc o + j ≡ suc (o + j) = omega arith in rw next (get_or-drop o j xs)

-- The words of a field are words of the whole.
pub word_sum-field :
    (n i o m : ℕ) (xs : List ℕ)
    → (i + n) * 2 ≤ m
    → word_sum n (o + i) xs ≡ word_sum n i (field (o * 2) m xs)
word_sum-field zero i o m xs h = refl
word_sum-field (suc n) i o m xs h =
    let hi : o * 2 + i * 2 ≡ (o + i) * 2 = omega arith in
    let lo : o * 2 + (i * 2 + 1) ≡ (o + i) * 2 + 1 = omega arith in
    let next : o + i + 1 ≡ o + (i + 1) = omega arith in
    let byte : (j k : ℕ) → j < m → o * 2 + j ≡ k → get_or (field (o * 2) m xs) j 0 ≡ get_or xs k 0 =
      λ j k lt e.
        get_or-field j m (drop (o * 2) xs) lt
        ∙ get_or-drop (o * 2) j xs
        ∙ ap (λ l. get_or xs l 0) e in
    rw (byte (i * 2) _ (omega arith) hi, byte (i * 2 + 1) _ (omega arith) lo, next)
      (ap (λ w. get_or xs ((o + i) * 2) 0 * 256 + get_or xs ((o + i) * 2 + 1) 0 + w)
        (word_sum-field n (i + 1) o m xs (omega arith)))
