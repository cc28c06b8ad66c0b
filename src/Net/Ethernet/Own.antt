-- ===== src/Net/Ethernet/Own.antt =====
-- What the table of addresses says of a frame, and why learning sources does not change it.
use urchin.Prelude.{
  ℕ, ◌≤◌, ◌≡◌, refl, arith, List, [], ◌∷◌, none, some, Bool, false, ◌&&◌, ◌||◌, if◌then◌else◌,
  length, replicate, filter, Option-cases, inl, inr, ap, ap₂,
}
use urchin.Prelude.Map.{BTreeMap, get, get_of_same}
use urchin.Devices.Buffer.{slice}
use urchin.Devices.Netif.{Netif}
use urchin.Net.Mac
use urchin.Net.Mac.{MacAddress, mac_ord}
use urchin.Net.Fib.{Tables, AdjacentInformation, register_macaddress, register_entry}
use urchin.Net.Fib.Permanent.{get-register_entry}
use urchin.Net.Frame.{field, same_bytes}
use urchin.Net.Node.{DataFromNetif}

abbrev pub MacTable : Type 0
MacTable = BTreeMap MacAddress AdjacentInformation

-- No entry expires: every caller in the kernel registers with no expiry time.
abbrev pub IsPermanent : MacTable → Type 0
IsPermanent table =
    (j : MacAddress) (adj : AdjacentInformation) → get j table ≡ some adj → adj.expire_time ≡ none

-- Whether an address is one of the kernel's own.
abbrev pub is_own : MacTable → MacAddress → Bool
is_own table j = elim (get j table) [ some adj ↦ adj.is_local | none ↦ false ]

abbrev pub learned : MacAddress → Netif → AdjacentInformation
learned mac netif = record {
  mac_address = mac;
  netif = netif;
  is_local = false;
  expire_time = none;
}

pub learning_IsPermanent :
    (mac : MacAddress) (netif : Netif) (table : MacTable)
    → IsPermanent table
    → IsPermanent (register_entry mac (learned mac netif) table)
learning_IsPermanent mac netif table h j adj e =
    ground (arith, get-register_entry mac j (learned mac netif) table, h j adj)

-- Learning a source never makes an address the kernel's own, and never takes one away.
pub learning_keeps_own :
    (mac : MacAddress) (netif : Netif) (table : MacTable) (j : MacAddress)
    → IsPermanent table
    → is_own (register_entry mac (learned mac netif) table) j ≡ is_own table j
learning_keeps_own mac netif table j h = elim (Option-cases (get mac table)) [
  | inl missing ↦
      ground (
        arith,
        get-register_entry mac j (learned mac netif) table,
        missing,
        get_of_same mac j table,
      )
  | inr (adj, e) ↦
      let p = h mac adj e in
      ground (arith, get-register_entry mac j (learned mac netif) table, e, p)
]

-- The type of a frame.
abbrev pub type_of : DataFromNetif → List ℕ
type_of frame = field 12 2 (field 0 14 (slice frame.buffer))

-- A frame for everyone, or for an address that the table says is the kernel's own.
abbrev pub is_for_us : MacTable → DataFromNetif → Bool
is_for_us table frame =
    let dest = field 0 6 (field 0 14 (slice frame.buffer)) in
    same_bytes dest (replicate 6 0xff) || is_own table (Mac.new dest)

-- The frames of a type that are for the kernel, in the order in which they came.
abbrev pub accepted : MacTable → List ℕ → List DataFromNetif → List DataFromNetif
accepted table frame_type buff =
    filter (λ frame. is_for_us table frame && same_bytes (type_of frame) frame_type) buff

abbrev pub HasHeader : DataFromNetif → Type 0
HasHeader frame = 14 ≤ length (slice frame.buffer)

abbrev pub learn_one : DataFromNetif → Tables → Tables
learn_one frame t =
    register_macaddress (Mac.new (field 6 6 (field 0 14 (slice frame.buffer)))) frame.netif false
      none t

-- What the tables are after the sources of the frames are learned.
abbrev pub learn_all : List DataFromNetif → Tables → Tables
learn_all [] t = t
learn_all (frame ∷ buff) t = learn_all buff (learn_one frame t)

abbrev pub cons_if : Bool → DataFromNetif → List DataFromNetif → List DataFromNetif
cons_if c x xs = if c then x ∷ xs else xs

pub for_us-learn_one :
    (frame other : DataFromNetif) (t : Tables)
    → IsPermanent t.mac_addr_table
    → is_for_us (learn_one frame t).mac_addr_table other ≡ is_for_us t.mac_addr_table other
unfolding register_macaddress
for_us-learn_one frame other t h =
    let dest = field 0 6 (field 0 14 (slice other.buffer)) in
    ap (λ own. same_bytes dest (replicate 6 0xff) || own)
      (learning_keeps_own (Mac.new (field 6 6 (field 0 14 (slice frame.buffer)))) frame.netif
        t.mac_addr_table (Mac.new dest) h)

pub learn_one-IsPermanent :
    (frame : DataFromNetif) (t : Tables)
    → IsPermanent t.mac_addr_table
    → IsPermanent (learn_one frame t).mac_addr_table
unfolding register_macaddress
learn_one-IsPermanent frame t h =
    learning_IsPermanent (Mac.new (field 6 6 (field 0 14 (slice frame.buffer)))) frame.netif
      t.mac_addr_table h

pub accepted-learn_one :
    (frame : DataFromNetif) (t : Tables) (ty : List ℕ) (buff : List DataFromNetif)
    → IsPermanent t.mac_addr_table
    → accepted (learn_one frame t).mac_addr_table ty buff ≡ accepted t.mac_addr_table ty buff
accepted-learn_one frame t ty [] h = refl
accepted-learn_one frame t ty (other ∷ buff) h =
    ap₂ (λ for_us rest. cons_if (for_us && same_bytes (type_of other) ty) other rest)
      (for_us-learn_one frame other t h) (accepted-learn_one frame t ty buff h)
