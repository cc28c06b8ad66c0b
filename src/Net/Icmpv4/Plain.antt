-- ===== src/Net/Icmpv4/Plain.antt =====
-- A reply before its checksums: headers that were set, a payload that was copied behind them, and what
-- the new buffer held behind that.
use urchin.Prelude.{
  append_assoc, ℕ, ◌+◌, ◌≤◌, ◌<◌, ◌≡◌, arith, ap, ap₂, sym, ◌∙◌, List, ◌++◌, some, length,
  length-append, length-drop, take, drop, drop-drop, All,
}
use urchin.Net.Bytes.{IsBytes}
use urchin.Net.Frame.{field}
use urchin.Net.Frame.Laws.{take-append, drop-append, All-drop, field-IsBytes}
use urchin.Net.Icmpv4.{copy_payload}
use urchin.Net.Icmpv4.Copy.{copy_payload_lem}
use urchin.Net.Icmpv4.Headers.{append-IsBytes}

abbrev pub plain_of : (n left : ℕ) (headers s blank : List ℕ) → List ℕ
plain_of n left headers s blank = headers ++ field n left s ++ drop (n + left) blank

module _ (n left : ℕ) (headers s blank : List ℕ) (set : IsBytes n headers)
    (bytes : All (λ b. b < 256) s) (long : n + left ≤ length s) (filled : All (λ b. b < 256) blank)
    (room : n + left ≤ length blank) where
  payload-IsBytes : IsBytes left (field n left s)
  payload-IsBytes = field-IsBytes n left s bytes long

  pub plain_of-IsBytes : IsBytes (length blank) (plain_of n left headers s blank)
  plain_of-IsBytes =
      let all = append-IsBytes (append-IsBytes set payload-IsBytes) (record {
        size = length-drop (n + left) blank;
        bytes = All-drop (n + left) blank filled;
      }) in
      record { size = omega (arith, all.size, room); bytes = all.bytes }

  pub plain_of-copied :
      copy_payload left n s (headers ++ drop n blank) ≡ some (plain_of n left headers s blank)
  plain_of-copied =
      let full = headers ++ drop n blank in
      let front : take n full ≡ headers =
        ap (λ m. take m full) (sym set.size) ∙ take-append headers (drop n blank) in
      let behind : drop n full ≡ drop n blank =
        ap (λ m. drop m full) (sym set.size) ∙ drop-append headers (drop n blank) in
      let last : drop (n + left) full ≡ drop (n + left) blank =
        sym (drop-drop n left full) ∙ ap (drop left) behind ∙ drop-drop n left blank in
      copy_payload_lem left n s full long
        (omega (arith, length-append headers (drop n blank), length-drop n blank, set.size, room))
      ∙ ap₂ (λ a b. some (a ++ field n left s ++ b)) front last

  pub plain_of-append :
      (plain_of n left headers s blank) ≡ headers ++ (field n left s ++ drop (n + left) blank)
  plain_of-append = append_assoc headers (field n left s) (drop (n + left) blank)

  pub field-plain_of : field n left (plain_of n left headers s blank) ≡ field n left s
  field-plain_of =
      let behind : drop n (plain_of n left headers s blank)
          ≡ field n left s ++ drop (n + left) blank =
        ap (drop n) plain_of-append
        ∙ ap (λ m. drop m (headers ++ (field n left s ++ drop (n + left) blank))) (sym set.size)
        ∙ drop-append headers (field n left s ++ drop (n + left) blank) in
      ap (take left) behind
      ∙ ap (λ m. take m (field n left s ++ drop (n + left) blank)) (sym payload-IsBytes.size)
      ∙ take-append (field n left s) (drop (n + left) blank)
