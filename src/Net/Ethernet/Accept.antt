-- ===== src/Net/Ethernet/Accept.antt =====
-- Which frames `EthernetIn` passes on, and to which node.
use urchin.Prelude.{
  append-nil, ℕ, ◌≡◌, refl, arith, List, [], ◌∷◌, ◌++◌, Option, none, some, Bool, true, false, ◌&&◌,
  ◌||◌, leb, if◌then◌else◌, length, replicate, All, inl, inr, ap, sym, ◌∙◌, Bool-cases, ◌>>=◌,
}
use urchin.Prelude.Map.{get}
use urchin.Devices.Buffer.{slice}
use urchin.Net.Mac
use urchin.Net.Mac.{MacAddress, mac_ord}
use urchin.Net.Fib.{Tables, AdjacentInformation}
use urchin.Net.Frame.{field, same_bytes}
use urchin.Net.Node.{DataFromNetif, NetState, Node, NodeName, arp_in, ipv4_in, ipv6_in, forward}
use urchin.Net.Ethernet.{Batch, proc_frame, sort_one, sort_frames, empty_batch, ethernet_process}
use urchin.Net.Ethernet.Own.{
  IsPermanent, type_of, is_for_us, accepted, HasHeader, learn_one, learn_all, cons_if,
  for_us-learn_one, learn_one-IsPermanent, accepted-learn_one,
}

-- The branches on the destination, as one test.
choose :
    (everyone : Bool) (entry : Option AdjacentInformation) (x b : Batch)
    → (if everyone then x else elim entry [ some adj ↦ if adj.is_local then x else b | none ↦ b ])
      ≡ (if everyone || elim entry [ some adj ↦ adj.is_local | none ↦ false ] then x else b)
choose true entry x b = refl
choose false none x b = refl
choose false (some adj) x b = refl

sort_one_lem :
    (frame : DataFromNetif) (b : Batch) (t : Tables)
    → HasHeader frame
    → sort_one frame b t
      ≡ some (
        (if is_for_us (learn_one frame t).mac_addr_table frame
            then proc_frame (type_of frame) frame b
            else b),
        learn_one frame t,
      )
unfolding sort_one
sort_one_lem frame b t h =
    let fits : leb 14 (length (slice frame.buffer)) ≡ true = ground arith in
    let dest = field 0 6 (field 0 14 (slice frame.buffer)) in
    rw fits (
      ap (λ b'. some (b', learn_one frame t))
        (choose (same_bytes dest (replicate 6 0xff))
          (get (Mac.new dest) (learn_one frame t).mac_addr_table)
          (proc_frame (type_of frame) frame b) b))

abbrev arp_type : List ℕ
arp_type = 0x08 ∷ 0x06 ∷ []

abbrev ipv4_type : List ℕ
ipv4_type = 0x08 ∷ 0x00 ∷ []

abbrev ipv6_type : List ℕ
ipv6_type = 0x86 ∷ 0xDD ∷ []

-- A batch with more frames behind those that it has.
abbrev extended : Batch → List DataFromNetif → List DataFromNetif → List DataFromNetif → Batch
extended b xs ys zs = record {
  arp_pkts = b.arp_pkts ++ xs;
  ipv4_pkts = b.ipv4_pkts ++ ys;
  ipv6_pkts = b.ipv6_pkts ++ zs;
}

append-snoc :
    (xs ys : List DataFromNetif) (x : DataFromNetif) → (xs ++ (x ∷ [])) ++ ys ≡ xs ++ (x ∷ ys)
append-snoc [] ys x = refl
append-snoc (y ∷ xs) ys x = ap (λ l. y ∷ l) (append-snoc xs ys x)

-- A frame has one type at most.
one_type :
    (ty : List ℕ)
    → (same_bytes ty arp_type ≡ true
        → (same_bytes ty ipv4_type ≡ false) × (same_bytes ty ipv6_type ≡ false))
      × (same_bytes ty ipv4_type ≡ true → same_bytes ty ipv6_type ≡ false)
one_type [] = ground arith
one_type (x ∷ []) = ground arith
one_type (x ∷ y ∷ []) = ground arith
one_type (x ∷ y ∷ z ∷ ty) = ground arith

extended-proc_frame :
    (ty : List ℕ) (frame : DataFromNetif) (b : Batch) (for_us : Bool)
    (xs ys zs : List DataFromNetif)
    → extended (if for_us then proc_frame ty frame b else b) xs ys zs
      ≡ extended b
          (cons_if (for_us && same_bytes ty arp_type) frame xs)
          (cons_if (for_us && same_bytes ty ipv4_type) frame ys)
          (cons_if (for_us && same_bytes ty ipv6_type) frame zs)
extended-proc_frame ty frame b false xs ys zs = refl
extended-proc_frame ty frame b true xs ys zs = elim (Bool-cases (same_bytes ty arp_type)) [
  | inl a ↦
      rw (a, ((one_type ty).0 a).0, ((one_type ty).0 a).1)
        (ap
          (λ l. record {
            arp_pkts = l;
            ipv4_pkts = b.ipv4_pkts ++ ys;
            ipv6_pkts = b.ipv6_pkts ++ zs;
          })
          (append-snoc b.arp_pkts xs frame))
  | inr a ↦ elim (Bool-cases (same_bytes ty ipv4_type)) [
    | inl v ↦
        rw (a, v, (one_type ty).1 v)
          (ap
            (λ l. record {
              arp_pkts = b.arp_pkts ++ xs;
              ipv4_pkts = l;
              ipv6_pkts = b.ipv6_pkts ++ zs;
            })
            (append-snoc b.ipv4_pkts ys frame))
    | inr v ↦ elim (Bool-cases (same_bytes ty ipv6_type)) [
      | inl w ↦
          rw (a, v, w)
            (ap
              (λ l. record {
                arp_pkts = b.arp_pkts ++ xs;
                ipv4_pkts = b.ipv4_pkts ++ ys;
                ipv6_pkts = l;
              })
              (append-snoc b.ipv6_pkts zs frame))
      | inr w ↦ rw (a, v, w) refl
    ]
  ]
]

extended-nil : (b : Batch) → extended b [] [] [] ≡ b
extended-nil b = rw (append-nil b.arp_pkts, append-nil b.ipv4_pkts, append-nil b.ipv6_pkts) refl

sort_frames_lem :
    (buff : List DataFromNetif) (b : Batch) (t : Tables)
    → IsPermanent t.mac_addr_table
    → All HasHeader buff
    → sort_frames buff b t
      ≡ some (
        extended b
            (accepted t.mac_addr_table arp_type buff)
            (accepted t.mac_addr_table ipv4_type buff)
            (accepted t.mac_addr_table ipv6_type buff),
        learn_all buff t,
      )
unfolding sort_frames
sort_frames_lem [] b t p h = ap (λ e. some (e, t)) (sym (extended-nil b))
sort_frames_lem (frame ∷ buff) b t p h = rw (sort_one_lem frame b t h.0) (
    sort_frames_lem buff b' t' (learn_one-IsPermanent frame t p) h.1
    ∙ ap (λ e. some (e, learn_all buff t')) same)
  where
    t' : Tables
    t' = learn_one frame t

    b' : Batch
    b' = if is_for_us t'.mac_addr_table frame then proc_frame (type_of frame) frame b else b

    same :
        extended b'
          (accepted t'.mac_addr_table arp_type buff)
          (accepted t'.mac_addr_table ipv4_type buff)
          (accepted t'.mac_addr_table ipv6_type buff)
        ≡ extended b
            (accepted t.mac_addr_table arp_type (frame ∷ buff))
            (accepted t.mac_addr_table ipv4_type (frame ∷ buff))
            (accepted t.mac_addr_table ipv6_type (frame ∷ buff))
    same =
        rw
          (
            accepted-learn_one frame t arp_type buff p,
            accepted-learn_one frame t ipv4_type buff p,
            accepted-learn_one frame t ipv6_type buff p,
            for_us-learn_one frame frame t p,
          )
          (extended-proc_frame (type_of frame) frame b (is_for_us t.mac_addr_table frame) _ _ _)

-- Where no entry of the address table expires and every frame has a header, `process` learns all
-- sources and gives each of the three nodes, in order, the frames of its type that are broadcast or
-- for an address that was the kernel's own at the start.
pub ethernet_process_lem :
    (nodes : NodeName → Option Node) (buff : List DataFromNetif) (st : NetState)
    → IsPermanent st.tables.mac_addr_table
    → All HasHeader buff
    → let own = st.tables.mac_addr_table in
      ethernet_process nodes buff st ≡ (
        forward
          (nodes arp_in)
          (accepted own (0x08 ∷ 0x06 ∷ []) buff)
          (record st { tables = learn_all buff st.tables })
        >>= (λ st'. forward (nodes ipv4_in) (accepted own (0x08 ∷ 0x00 ∷ []) buff) st' >>= λ st''.
            forward (nodes ipv6_in) (accepted own (0x86 ∷ 0xDD ∷ []) buff) st''))
unfolding ethernet_process
ethernet_process_lem nodes buff st p h = rw (sort_frames_lem buff empty_batch st.tables p h) refl
