-- ===== src/Transaction/Layout/Legacy.antt =====
-- The legacy hex form of a transaction, both ways.
use mathlib.Core.List.{append_assoc}
use shardingsim.Prelude.{
  ℕ, ◌+◌, ◌≡◌, refl, sym, ap, ◌∙◌, Bool, true, some, some, List, ◌++◌, map, length, take, drop,
  IsByte, IsBytes, take-append-drop, ◌≤◌, drop-drop, take_all, All-drop, length-take_le,
  length-drop, All-take, Option-cases, inl, inr, arith,
}
use shardingsim.Common.Hex.{bytes_to_hex_buf, hex_to_bytes_loop, hex_to_bytes_buf}
use shardingsim.Common.Hex.Laws.{
  to_lower, hex_to_bytes_buf-bytes_to_hex_buf, length-bytes_to_hex_buf, hex_to_bytes_loop-text,
  hex_to_bytes_buf_ok, hex_to_bytes_buf_bad, bytes_to_hex_lem, bytes_to_hex_of_buf,
}
use shardingsim.Transaction.{Transaction, IsTransaction}
use shardingsim.Transaction.Layout.{
  struct_bytes, of_struct_bytes, transaction_serialize, transaction_deserialize,
}
use shardingsim.Transaction.Layout.Laws.{
  to_le-from_le, from_le-lt, of_struct_bytes-struct_bytes, struct_bytes-IsBytes,
}

-- The hex form of a transaction is read back as that transaction, whatever the new block of memory
-- held.
pub transaction_deserialize-transaction_serialize :
    (memory : List ℕ) (tx : Transaction) (text : List ℕ)
    → length memory ≡ 112
    → IsTransaction tx
    → transaction_serialize true tx ≡ some text
    → transaction_deserialize memory text ≡ some tx
unfolding transaction_serialize transaction_deserialize
transaction_deserialize-transaction_serialize memory tx text hm h e =
    let same : bytes_to_hex_buf (struct_bytes tx) ≡ text =
      bytes_to_hex_lem (struct_bytes tx) text e in
    let size : length (bytes_to_hex_buf (struct_bytes tx)) ≡ 224 =
      omega (arith, length-bytes_to_hex_buf (struct_bytes tx), struct_bytes-IsBytes tx h) in
    rw (← same, size, decoded)
      (ap (λ (t : Transaction). some t) (of_struct_bytes-struct_bytes tx h))
  where
    decoded :
        hex_to_bytes_buf (bytes_to_hex_buf (struct_bytes tx)) memory 112 ≡ (true, struct_bytes tx)
    decoded =
        let (size, bytes) = struct_bytes-IsBytes tx h in
        rw (← size)
          (hex_to_bytes_buf-bytes_to_hex_buf (struct_bytes tx) memory bytes (hm ∙ sym size))

-- The members of a struct that is read out of 112 bytes.
module _ (bytes : List ℕ) (size : IsBytes 112 bytes) where
  part : ℕ → ℕ → List ℕ
  part k n = take n (drop k bytes)

  part-IsBytes : (k n : ℕ) → k + n ≤ 112 → IsBytes n (part k n)
  unfolding part
  part-IsBytes k n h = (
    length-take_le n (drop k bytes) (omega (arith, length-drop k bytes, size.0)),
    All-take IsByte n (drop k bytes) (All-drop IsByte k bytes size.1),
  )

  glue : (k n m : ℕ) (r : List ℕ) → m ≡ k + n → r ≡ drop m bytes → part k n ++ r ≡ drop k bytes
  unfolding part
  glue k n m r hm hr =
      ap (λ (t : List ℕ). part k n ++ t)
        (hr ∙ ap (λ (t : ℕ). drop t bytes) hm ∙ sym (drop-drop k n bytes))
      ∙ take-append-drop n (drop k bytes)

  all_parts :
      part 0 8
        ++ (part 8 4 ++ (part 12 20 ++ (part 32 20 ++ (part 52 8 ++ (part 60 4 ++ part 64 48)))))
      ≡ bytes
  all_parts = glue 0 8 8 _ refl (
      glue 8 4 12 _ refl (
        glue 12 20 32 _ refl (
          glue 32 20 52 _ refl (
            glue 52 8 60 _ refl (
              glue 60 4 64 (part 64 48) refl (
                unfold part in
                take_all 48 (drop 64 bytes) (omega (arith, length-drop 64 bytes, size.0))))))))

  of_struct_bytes-IsTransaction : IsTransaction (of_struct_bytes bytes)
  unfolding of_struct_bytes part
  of_struct_bytes-IsTransaction = record {
    nonce_fits = from_le-lt 8 (take 8 bytes) (part-IsBytes 0 8 (omega arith));
    expiry_fits = from_le-lt 4 (take 4 (drop 8 bytes)) (part-IsBytes 8 4 (omega arith));
    source_bytes = part-IsBytes 12 20 (omega arith);
    dest_bytes = part-IsBytes 32 20 (omega arith);
    value_fits = from_le-lt 8 (take 8 (drop 52 bytes)) (part-IsBytes 52 8 (omega arith));
    fee_fits = from_le-lt 4 (take 4 (drop 60 bytes)) (part-IsBytes 60 4 (omega arith));
    signature_bytes = part-IsBytes 64 48 (omega arith);
  }

  struct_bytes-of_struct_bytes : struct_bytes (of_struct_bytes bytes) ≡ bytes
  unfolding of_struct_bytes struct_bytes part
  struct_bytes-of_struct_bytes = members ∙ regrouped
    where
      members :
          struct_bytes (of_struct_bytes bytes)
          ≡ (part 0 8 ++ (part 8 4 ++ (part 12 20 ++ (part 32 20 ++ (part 52 8 ++ part 60 4)))))
            ++ part 64 48
      members = λ i.
          (to_le-from_le 8 (part 0 8) (part-IsBytes 0 8 (omega arith)) i
            ++ (to_le-from_le 4 (part 8 4) (part-IsBytes 8 4 (omega arith)) i
                ++ (part 12 20
                    ++ (part 32 20
                        ++ (to_le-from_le 8 (part 52 8) (part-IsBytes 52 8 (omega arith)) i
                            ++ to_le-from_le 4 (part 60 4) (part-IsBytes 60 4 (omega arith)) i)))))
          ++ part 64 48

      regrouped :
          (part 0 8 ++ (part 8 4 ++ (part 12 20 ++ (part 32 20 ++ (part 52 8 ++ part 60 4)))))
            ++ part 64 48
          ≡ bytes
      regrouped = simp append_assoc all_parts

-- What the legacy parser accepts is the hex form, up to the case of its letters, of the transaction
-- that it returns, whose members are all in range.
pub transaction_serialize-transaction_deserialize :
    (memory hex_data : List ℕ) (tx : Transaction)
    → length memory ≡ 112
    → transaction_deserialize memory hex_data ≡ some tx
    → IsTransaction tx × (transaction_serialize true tx ≡ some (map to_lower hex_data))
unfolding transaction_deserialize
transaction_serialize-transaction_deserialize memory hex_data tx hm e =
    elim (Option-cases (hex_to_bytes_loop 112 hex_data)) [
      | inl bad ↦ absurd (cc (hex_to_bytes_buf_bad 112 hex_data memory hm bad, accepted.1.0))
      | inr (bytes, decoded) ↦
          let read : hex_to_bytes_buf hex_data memory 112 ≡ (true, bytes) =
            hex_to_bytes_buf_ok 112 hex_data memory bytes hm decoded in
          let (size, text) = hex_to_bytes_loop-text 112 hex_data bytes accepted.0 decoded in
          let same : of_struct_bytes bytes ≡ tx =
            ap (λ (r : Bool × List ℕ). of_struct_bytes r.1) (sym read) ∙ accepted.1.1 in
          rw (← same) (of_struct_bytes-IsTransaction bytes size, printed bytes size text)
    ]
  where
    accepted :
        (length hex_data ≡ 224)
        × (((hex_to_bytes_buf hex_data memory 112).0 ≡ true)
            × (of_struct_bytes (hex_to_bytes_buf hex_data memory 112).1 ≡ tx))
    accepted = ground arith

    printed :
        (bytes : List ℕ)
        → IsBytes 112 bytes
        → bytes_to_hex_buf bytes ≡ map to_lower hex_data
        → transaction_serialize true (of_struct_bytes bytes) ≡ some (map to_lower hex_data)
    printed bytes size text =
        unfold transaction_serialize in
        bytes_to_hex_of_buf (struct_bytes (of_struct_bytes bytes)) (map to_lower hex_data)
          (ap bytes_to_hex_buf (struct_bytes-of_struct_bytes bytes size) ∙ text)
