-- ===== src/Transaction/Layout/Laws.antt =====
-- The struct can be read back from its bytes, and the hex form from its text.
use shardingsim.Prelude.{
  ℕ, zero, suc, ◌+◌, ◌/◌, ◌^◌, ◌<◌, ◌≡◌, refl, sym, ap, ap₂, ◌∙◌, List, [], ◌∷◌, ◌↔◌, ◌++◌, length,
  take, drop, IsByte, IsBytes, All-append, length-append, take-append, drop-append, take_all, arith,
}
use mathlib.Core.List.{append_assoc}
use native.Mathlib.Nat.{pow-suc}
use shardingsim.Transaction.{Transaction, IsTransaction}
use shardingsim.Transaction.Layout.{to_le, from_le, signing_bytes, struct_bytes, of_struct_bytes}

to_le-IsBytes : (n x : ℕ) → IsBytes n (to_le n x)
unfolding to_le
to_le-IsBytes zero x = (refl, tt)
to_le-IsBytes (suc n) x =
    let (size, bytes) = to_le-IsBytes n (x / 256) in (omega arith, (omega arith, bytes))

from_le-to_le_eight : (x : ℕ) → x < 2 ^ 64 → from_le (to_le 8 x) ≡ x
unfolding from_le to_le
from_le-to_le_eight x h = omega arith

from_le-to_le_four : (x : ℕ) → x < 2 ^ 32 → from_le (to_le 4 x) ≡ x
unfolding from_le to_le
from_le-to_le_four x h = omega arith

pub to_le-from_le : (n : ℕ) (xs : List ℕ) → IsBytes n xs → to_le n (from_le xs) ≡ xs
unfolding from_le to_le
to_le-from_le zero [] h = refl
to_le-from_le zero (x ∷ xs) h = absurd (omega arith)
to_le-from_le (suc n) [] h = absurd (omega arith)
to_le-from_le (suc n) (x ∷ xs) (size, (byte, bytes)) =
    ap₂ ◌∷◌ (omega arith)
      (ap (λ (t : ℕ). to_le n t) (omega arith) ∙ to_le-from_le n xs (omega arith, bytes))

pub from_le-lt : (n : ℕ) (xs : List ℕ) → IsBytes n xs → from_le xs < 256 ^ n
unfolding from_le
from_le-lt zero [] h = omega arith
from_le-lt zero (x ∷ xs) h = absurd (omega arith)
from_le-lt (suc n) [] h = absurd (omega arith)
from_le-lt (suc n) (x ∷ xs) (size, (byte, bytes)) =
    omega (arith, pow-suc 256 n, from_le-lt n xs (omega arith, bytes))

IsBytes-append :
    (m n : ℕ) (xs ys : List ℕ) → IsBytes m xs → IsBytes n ys → IsBytes (m + n) (xs ++ ys)
IsBytes-append m n xs ys hx hy =
    (omega (arith, length-append xs ys), All-append IsByte xs ys hx.1 hy.1)

-- A field that starts behind `p` and stands before `r`.
field_at :
    (k n : ℕ) (p f r : List ℕ) → k ≡ length p → n ≡ length f → take n (drop k (p ++ (f ++ r))) ≡ f
field_at k n p f r hk hn = rw (drop-append k p (f ++ r) hk) (take-append n f r hn)

last_field : (k n : ℕ) (p f : List ℕ) → k ≡ length p → n ≡ length f → take n (drop k (p ++ f)) ≡ f
last_field k n p f hk hn = rw (drop-append k p f hk) (take_all n f hn)

-- Seven arrays in a row, cut up as the members of the struct are.
module _ (a b c d e f g : List ℕ) (la : length a ≡ 8) (lb : length b ≡ 4) (lc : length c ≡ 20)
    (ld : length d ≡ 20) (le : length e ≡ 8) (lf : length f ≡ 4) (lg : length g ≡ 48) where
  row : List ℕ
  row = (a ++ (b ++ (c ++ (d ++ (e ++ f))))) ++ g

  cut_nonce : take 8 row ≡ a
  unfolding row
  cut_nonce = simp append_assoc (take-append 8 a (b ++ (c ++ (d ++ (e ++ (f ++ g))))) (sym la))

  cut_expiry : take 4 (drop 8 row) ≡ b
  cut_expiry =
      ap (λ (t : List ℕ). take 4 (drop 8 t)) regroup
      ∙ field_at 8 4 a b (c ++ (d ++ (e ++ (f ++ g)))) (sym la) (sym lb)
    where
      regroup : row ≡ (a) ++ (b ++ (c ++ (d ++ (e ++ (f ++ g)))))
      regroup = unfold row in simp append_assoc

  cut_source : take 20 (drop 12 row) ≡ c
  cut_source =
      ap (λ (t : List ℕ). take 20 (drop 12 t)) regroup
      ∙ field_at 12 20 (a ++ b) c (d ++ (e ++ (f ++ g))) (omega (arith, length-append a b)) (sym lc)
    where
      regroup : row ≡ (a ++ b) ++ (c ++ (d ++ (e ++ (f ++ g))))
      regroup = unfold row in simp append_assoc

  cut_dest : take 20 (drop 32 row) ≡ d
  cut_dest =
      ap (λ (t : List ℕ). take 20 (drop 32 t)) regroup
      ∙ field_at 32 20 (a ++ (b ++ c)) d (e ++ (f ++ g))
          (omega (arith, length-append a (b ++ c), length-append b c)) (sym ld)
    where
      regroup : row ≡ (a ++ (b ++ c)) ++ (d ++ (e ++ (f ++ g)))
      regroup = unfold row in simp append_assoc

  cut_value : take 8 (drop 52 row) ≡ e
  cut_value =
      ap (λ (t : List ℕ). take 8 (drop 52 t)) regroup
      ∙ field_at 52 8 (a ++ (b ++ (c ++ d))) e (f ++ g)
          (omega
            (arith, length-append a (b ++ (c ++ d)), length-append b (c ++ d), length-append c d))
          (sym le)
    where
      regroup : row ≡ (a ++ (b ++ (c ++ d))) ++ (e ++ (f ++ g))
      regroup = unfold row in simp append_assoc

  cut_fee : take 4 (drop 60 row) ≡ f
  cut_fee =
      ap (λ (t : List ℕ). take 4 (drop 60 t)) regroup
      ∙ field_at 60 4 (a ++ (b ++ (c ++ (d ++ e)))) f g
          (omega (
            arith,
            length-append a (b ++ (c ++ (d ++ e))),
            length-append b (c ++ (d ++ e)),
            length-append c (d ++ e),
            length-append d e,
          ))
          (sym lf)
    where
      regroup : row ≡ (a ++ (b ++ (c ++ (d ++ e)))) ++ (f ++ g)
      regroup = unfold row in simp append_assoc

  cut_signature : take 48 (drop 64 row) ≡ g
  cut_signature =
      ap (λ (t : List ℕ). take 48 (drop 64 t)) regroup
      ∙ last_field 64 48 (a ++ (b ++ (c ++ (d ++ (e ++ f))))) g
          (omega (
            arith,
            length-append a (b ++ (c ++ (d ++ (e ++ f)))),
            length-append b (c ++ (d ++ (e ++ f))),
            length-append c (d ++ (e ++ f)),
            length-append d (e ++ f),
            length-append e f,
          ))
          (sym lg)
    where
      regroup : row ≡ (a ++ (b ++ (c ++ (d ++ (e ++ f))))) ++ g
      regroup = unfold row in simp append_assoc

  of_row : of_struct_bytes row ≡ record {
    nonce = from_le a;
    expiry_block = from_le b;
    source_address = c;
    dest_address = d;
    value = from_le e;
    fee = from_le f;
    signature = g;
  }
  unfolding of_struct_bytes
  of_row = λ i. record {
    nonce = from_le (cut_nonce i);
    expiry_block = from_le (cut_expiry i);
    source_address = cut_source i;
    dest_address = cut_dest i;
    value = from_le (cut_value i);
    fee = from_le (cut_fee i);
    signature = cut_signature i;
  }

-- Every member of a transaction is in its 112 bytes: read as the struct they give the transaction
-- back.
pub of_struct_bytes-struct_bytes :
    (tx : Transaction) → IsTransaction tx → of_struct_bytes (struct_bytes tx) ≡ tx
unfolding struct_bytes row
of_struct_bytes-struct_bytes tx h =
    of_row (to_le 8 tx.nonce) (to_le 4 tx.expiry_block) tx.source_address tx.dest_address
      (to_le 8 tx.value) (to_le 4 tx.fee) tx.signature (to_le-IsBytes 8 tx.nonce).0
      (to_le-IsBytes 4 tx.expiry_block).0 h.source_bytes.0 h.dest_bytes.0
      (to_le-IsBytes 8 tx.value).0 (to_le-IsBytes 4 tx.fee).0 h.signature_bytes.0
    ∙ λ i. record tx {
      nonce = from_le-to_le_eight tx.nonce h.nonce_fits i;
      expiry_block = from_le-to_le_four tx.expiry_block h.expiry_fits i;
      value = from_le-to_le_eight tx.value h.value_fits i;
      fee = from_le-to_le_four tx.fee h.fee_fits i;
    }

pub struct_bytes-IsBytes : (tx : Transaction) → IsTransaction tx → IsBytes 112 (struct_bytes tx)
unfolding struct_bytes
struct_bytes-IsBytes tx h =
    let amounts : IsBytes 12 (to_le 8 tx.value ++ to_le 4 tx.fee) =
      IsBytes-append 8 4 (to_le 8 tx.value) (to_le 4 tx.fee) (to_le-IsBytes 8 tx.value)
        (to_le-IsBytes 4 tx.fee) in
    let to_dest =
      IsBytes-append 20 12 tx.dest_address (to_le 8 tx.value ++ to_le 4 tx.fee) h.dest_bytes
        amounts in
    let to_source =
      IsBytes-append 20 32 tx.source_address
        (tx.dest_address ++ (to_le 8 tx.value ++ to_le 4 tx.fee)) h.source_bytes to_dest in
    let to_expiry =
      IsBytes-append 4 52 (to_le 4 tx.expiry_block)
        (tx.source_address ++ (tx.dest_address ++ (to_le 8 tx.value ++ to_le 4 tx.fee)))
        (to_le-IsBytes 4 tx.expiry_block) to_source in
    let to_nonce : IsBytes 64 (signing_bytes tx) =
      IsBytes-append 8 56 (to_le 8 tx.nonce)
        (to_le 4 tx.expiry_block
          ++ (tx.source_address ++ (tx.dest_address ++ (to_le 8 tx.value ++ to_le 4 tx.fee))))
        (to_le-IsBytes 8 tx.nonce) to_expiry in
    IsBytes-append 64 48 (signing_bytes tx) tx.signature to_nonce h.signature_bytes

-- The 64 bytes that are hashed, and signed, hold every member but the signature: two transactions
-- have the same ones exactly when they differ in the signature at most.
pub signing_bytes_iff :
    (t u : Transaction)
    → IsTransaction t
    → IsTransaction u
    → (signing_bytes t ≡ signing_bytes u) ↔ (record t { signature = u.signature } ≡ u)
unfolding signing_bytes struct_bytes
signing_bytes_iff t u ht hu = (same_members, λ e. ap signing_bytes e)
  where
    resigned : Transaction
    resigned = record t { signature = u.signature }

    resigned-IsTransaction : IsTransaction resigned
    resigned-IsTransaction = record {
      nonce_fits = ht.nonce_fits;
      expiry_fits = ht.expiry_fits;
      source_bytes = ht.source_bytes;
      dest_bytes = ht.dest_bytes;
      value_fits = ht.value_fits;
      fee_fits = ht.fee_fits;
      signature_bytes = hu.signature_bytes;
    }

    same_members : signing_bytes t ≡ signing_bytes u → resigned ≡ u
    same_members e =
        sym (of_struct_bytes-struct_bytes resigned resigned-IsTransaction)
        ∙ ap (λ (x : List ℕ). of_struct_bytes (x ++ u.signature)) e
        ∙ of_struct_bytes-struct_bytes u hu
