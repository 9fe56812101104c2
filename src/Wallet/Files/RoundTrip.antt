-- ===== src/Wallet/Files/RoundTrip.antt =====
-- A wallet that is saved is loaded again.
use shardingsim.Prelude.{
  ℕ, ◌≤◌, ◌<◌, ◌≡◌, refl, sym, ap, ◌∙◌, Bool, true, false, not, ◌&&◌, Option, some, List, [], ◌∷◌,
  ◌++◌, length, replicate, ltb, ◌==◌, All, arith, IsBytes, length-append,
}
use mathlib.Core.List.{append_assoc}
use shardingsim.Common.Strings.{
  safe_strcpy, safe_strcpy-fits, trim, trim-append, trim-dark, is_blank,
}
use shardingsim.Wallet.{Wallet}
use shardingsim.Wallet.Address.{hex_to_address, address_to_hex}
use shardingsim.Wallet.Address.Laws.{
  address_to_hex-dark, hex_to_address-address_to_hex, length-address_to_hex,
}
use shardingsim.Wallet.Files.{
  newline, name_tag, address_tag, nonce_tag, key_tag, wallet_text, wallet_save, line_room,
  LoadState, blank_wallet, start_load, load_line, load_lines, load_key, loaded, wallet_load,
}
use shardingsim.Wallet.Files.Laws.{
  IsLine, header_of, key_of, ended, load_lines-append, load_line-name, load_line-address,
  load_line-nonce, load_line-key, pem_of, IsPem, load_lines-pem_of,
}

-- A line of the header: the loop goes on behind it.
load_lines-ended :
    (fuel : ℕ) (strtoull : List ℕ → ℕ) (s next : LoadState) (tag text rest : List ℕ)
    → load_line strtoull s (tag ++ ended text) ≡ next
    → IsLine (tag ++ text)
    → length (tag ++ text) < line_room
    → length ((tag ++ ended text) ++ rest) ≤ fuel
    → (f : ℕ) × (length rest ≤ f)
      × (load_lines fuel strtoull s ((tag ++ ended text) ++ rest) ≡ load_lines f strtoull next rest)
load_lines-ended fuel strtoull s next tag text rest step line short enough =
    let front : tag ++ ended text ≡ ended (tag ++ text) =
      sym (append_assoc tag text (newline ∷ [])) in
    let whole : (tag ++ ended text) ++ rest ≡ (tag ++ text) ++ (newline ∷ rest) =
      ap (λ (t : List ℕ). t ++ rest) front ∙ append_assoc (tag ++ text) (newline ∷ []) rest in
    let size = ap length whole in
    let (f, left, e) =
      load_lines-append fuel strtoull s (tag ++ text) rest line short
        (omega (arith, size, enough)) in
    (
      f,
      left,
      ap (load_lines fuel strtoull s) whole
          ∙ e
          ∙ ap (λ (t : LoadState). load_lines f strtoull t rest)
              (ap (load_line strtoull s) (sym front) ∙ step),
    )

no_newline : List ℕ → Bool
no_newline [] = true
no_newline (c ∷ text) = not (c == newline) && no_newline text

-- A tag is part of its line.
IsLine-tag : (tag text : List ℕ) → no_newline tag ≡ true → IsLine text → IsLine (tag ++ text)
unfolding no_newline
IsLine-tag [] text e h = h
IsLine-tag (c ∷ tag) text e h =
    let parts : ((c == newline) ≡ false) × (no_newline tag ≡ true) = ground arith in
    (parts.0, IsLine-tag tag text parts.1 h)

-- What `wallet_load` has read when it comes to the key.
abbrev header_wallet : (List ℕ → ℕ) → List ℕ → List ℕ → List ℕ → Wallet
header_wallet strtoull name hex number = record blank_wallet {
  name = safe_strcpy [] (trim (ended name)) 64;
  address_hex = safe_strcpy [] (trim (ended hex)) 41;
  address = (hex_to_address (some (trim (ended hex))) (replicate 20 0)).1;
  nonce = strtoull (ended number);
}

abbrev header_text : List ℕ → List ℕ → List ℕ → List ℕ → List ℕ
header_text name hex number pem =
    (name_tag ++ ended name)
    ++ ((address_tag ++ ended hex) ++ ((nonce_tag ++ ended number) ++ (ended key_tag ++ pem)))

-- The four lines of the header, and the key behind them.
load_lines-wallet_text :
    (strtoull : List ℕ → ℕ) (name hex number : List ℕ) (texts : List (List ℕ))
    → IsLine name
    → length name < 2000
    → IsLine hex
    → length hex < 2000
    → IsLine number
    → length number < 2000
    → IsPem texts
    → length (pem_of texts) ≤ 2047
    → (fuel : ℕ) → length (header_text name hex number (pem_of texts)) ≤ fuel
    → let last = load_lines fuel strtoull start_load (header_text name hex number (pem_of texts)) in
      (last.wallet ≡ header_wallet strtoull name hex number)
      × (last.pem_buffer ≡ pem_of texts)
      × (last.overrun ≡ false)
unfolding no_newline
load_lines-wallet_text strtoull name hex number texts ln sn lh sh lu su pem fits fuel enough =
    let key_part = ended key_tag ++ pem_of texts in
    let number_part = (nonce_tag ++ ended number) ++ key_part in
    let hex_part = (address_tag ++ ended hex) ++ number_part in
    let first_wallet : Wallet = record blank_wallet {
      name = safe_strcpy [] (trim (ended name)) 64;
    } in
    let second_wallet : Wallet = record first_wallet {
      address_hex = safe_strcpy [] (trim (ended hex)) 41;
      address = (hex_to_address (some (trim (ended hex))) (replicate 20 0)).1;
    } in
    let last_wallet = header_wallet strtoull name hex number in
    let (f1, left1, e1) =
      load_lines-ended fuel strtoull start_load (header_of first_wallet) name_tag name hex_part
        (load_line-name strtoull blank_wallet name) (IsLine-tag name_tag name refl ln) (omega arith)
        enough in
    let (f2, left2, e2) =
      load_lines-ended f1 strtoull (header_of first_wallet) (header_of second_wallet) address_tag
        hex number_part (load_line-address strtoull first_wallet hex)
        (IsLine-tag address_tag hex refl lh) (omega arith) left1 in
    let (f3, left3, e3) =
      load_lines-ended f2 strtoull (header_of second_wallet) (header_of last_wallet) nonce_tag
        number key_part (load_line-nonce strtoull second_wallet number)
        (IsLine-tag nonce_tag number refl lu) (omega arith) left2 in
    let (f4, left4, e4) =
      load_lines-ended f3 strtoull (header_of last_wallet) (key_of last_wallet []) key_tag []
        (pem_of texts) (load_line-key strtoull last_wallet) (IsLine-tag key_tag [] refl tt)
        (omega arith) left3 in
    rw (e1 ∙ e2 ∙ e3 ∙ e4) (load_lines-pem_of f4 strtoull last_wallet [] texts pem fits left4)

-- What is loaded, from what the loop has left.
wallet_load-load_lines :
    (strtoull : List ℕ → ℕ) (read_key : List ℕ → Option ℕ) (bytes : List ℕ) (w : Wallet)
    (pem : List ℕ)
    → (let last = load_lines (length bytes) strtoull start_load bytes in
        (last.wallet ≡ w) × (last.pem_buffer ≡ pem) × (last.overrun ≡ false))
    → wallet_load strtoull read_key (some bytes) ≡ loaded (load_key read_key w pem)
unfolding wallet_load
wallet_load-load_lines strtoull read_key bytes w pem (wallet, buffer, fine) =
    rw (fine, wallet, buffer) refl

load_key-some :
    (read_key : List ℕ → Option ℕ) (w : Wallet) (pem : List ℕ)
    → 0 < length pem
    → length pem ≤ 2047
    → load_key read_key w pem ≡ record w { private_key_pem = pem; evp_key = read_key pem }
unfolding load_key
load_key-some read_key w pem some_key fits =
    let there : ltb 0 (length pem) ≡ true = ground arith in
    rw (there, safe_strcpy-fits w.private_key_pem pem 2047 fits) refl

wallet_text-header_text :
    (decimal : ℕ → List ℕ) (w : Wallet)
    → wallet_text decimal w ≡ header_text w.name w.address_hex (decimal w.nonce) w.private_key_pem
unfolding wallet_text
wallet_text-header_text decimal w = refl

IsLine-dark : (text : List ℕ) → All (λ (c : ℕ). is_blank c ≡ false) text → IsLine text
IsLine-dark [] h = tt
IsLine-dark (c ∷ text) (first, others) = (ground arith, IsLine-dark text others)

length-pem_of : (text : List ℕ) (texts : List (List ℕ)) → 0 < length (pem_of (text ∷ texts))
unfolding pem_of
length-pem_of text texts = omega (arith, length-append text (newline ∷ pem_of texts))

-- The wallet that a file of this wallet gives.
header_wallet-saved :
    (strtoull : List ℕ → ℕ) (w : Wallet) (number : List ℕ)
    → strtoull (ended number) ≡ w.nonce
    → trim w.name ≡ w.name
    → length w.name ≤ 63
    → IsBytes 20 w.address
    → w.address_hex ≡ address_to_hex w.address
    → header_wallet strtoull w.name w.address_hex number ≡ record blank_wallet {
      name = w.name;
      address = w.address;
      address_hex = w.address_hex;
      nonce = w.nonce;
    }
header_wallet-saved strtoull w number read trimmed short ha hx =
    let name : trim (ended w.name) ≡ w.name = trim-append w.name newline refl ∙ trimmed in
    let hex : trim (ended w.address_hex) ≡ w.address_hex =
      trim-append w.address_hex newline refl
      ∙ ap trim hx
      ∙ trim-dark (address_to_hex w.address) (address_to_hex-dark w.address ha)
      ∙ sym hx in
    let size : length w.address_hex ≤ 40 =
      omega (arith, ap length hx, length-address_to_hex w.address ha) in
    let decoded : hex_to_address (some w.address_hex) (replicate 20 0) ≡ (true, w.address) =
      ap (λ (t : List ℕ). hex_to_address (some t) (replicate 20 0)) hx
      ∙ hex_to_address-address_to_hex w.address (replicate 20 0) ha refl in
    rw
      (
        name,
        hex,
        safe_strcpy-fits [] w.name 63 short,
        safe_strcpy-fits [] w.address_hex 40 size,
        decoded,
        read,
      )
      refl

-- A wallet whose name and number are read back as they are printed, whose hexadecimal address is
-- that of its address, and whose key is a text of short lines, at most 2,047 bytes, that marks its
-- end in the last line alone and from which OpenSSL reads the wallet's key, comes back from the file
-- `wallet_save` writes with its name, addresses, nonce, key text and key; the public key comes back
-- empty.
pub wallet_load-wallet_save :
    (decimal : ℕ → List ℕ) (strtoull : List ℕ → ℕ) (read_key : List ℕ → Option ℕ) (w : Wallet)
    (path : List ℕ) (text : List ℕ) (texts : List (List ℕ))
    → IsLine (decimal w.nonce)
    → length (decimal w.nonce) < 2000
    → strtoull (ended (decimal w.nonce)) ≡ w.nonce
    → IsLine w.name
    → trim w.name ≡ w.name
    → length w.name ≤ 63
    → IsBytes 20 w.address
    → w.address_hex ≡ address_to_hex w.address
    → w.private_key_pem ≡ pem_of (text ∷ texts)
    → IsPem (text ∷ texts)
    → length w.private_key_pem ≤ 2047
    → read_key w.private_key_pem ≡ w.evp_key
    → wallet_load strtoull read_key (wallet_save decimal true (some w) (some path)).1
      ≡ loaded (record w { public_key = replicate 65 0; public_key_len = 0 })
unfolding wallet_save
wallet_load-wallet_save decimal strtoull read_key w path text texts lu su read ln trimmed short ha
      hx key pem fits reads =
    let bytes = wallet_text decimal w in
    let written : bytes
        ≡ header_text w.name w.address_hex (decimal w.nonce) (pem_of (text ∷ texts)) =
      wallet_text-header_text decimal w
      ∙ ap (header_text w.name w.address_hex (decimal w.nonce)) key in
    let line : IsLine w.address_hex =
      rw hx (IsLine-dark (address_to_hex w.address) (address_to_hex-dark w.address ha)) in
    let size : length w.address_hex ≡ 40 = ap length hx ∙ length-address_to_hex w.address ha in
    let text_of = header_text w.name w.address_hex (decimal w.nonce) (pem_of (text ∷ texts)) in
    let (wallet, buffer, fine) =
      load_lines-wallet_text strtoull w.name w.address_hex (decimal w.nonce) (text ∷ texts) ln
        (omega arith) line (omega arith) lu su pem (omega (arith, ap length key, fits))
        (length text_of) (omega arith) in
    let saved = header_wallet-saved strtoull w (decimal w.nonce) read trimmed short ha hx in
    let some_key : 0 < length w.private_key_pem =
      omega (arith, ap length key, length-pem_of text texts) in
    ap (λ (t : List ℕ). wallet_load strtoull read_key (some t)) written
    ∙ wallet_load-load_lines strtoull read_key text_of
        (header_wallet strtoull w.name w.address_hex (decimal w.nonce)) w.private_key_pem
        (wallet, buffer ∙ sym key, fine)
    ∙ ap (λ (v : Wallet). loaded (load_key read_key v w.private_key_pem)) saved
    ∙ ap loaded (load_key-some read_key _ w.private_key_pem some_key fits)
    ∙ ap
        (λ (handle : Option ℕ).
          loaded (record w { public_key = replicate 65 0; public_key_len = 0; evp_key = handle }))
        reads
