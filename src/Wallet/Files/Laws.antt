-- ===== src/Wallet/Files/Laws.antt =====
-- A wallet that is saved is loaded again.
use shardingsim.Prelude.{
  ℕ, zero, suc, ◌≤◌, ◌<◌, ◌≡◌, refl, sym, ap, ◌∙◌, true, false, some, List, [], ◌∷◌, ◌++◌, length,
  leb, ◌==◌, All, arith, length-append,
}
use mathlib.Core.List.{append_assoc, append-nil}
use shardingsim.Common.Strings.{safe_strcpy, starts_with, trim}
use shardingsim.Wallet.{Wallet}
use shardingsim.Wallet.Address.{hex_to_address}
use shardingsim.Wallet.Files.{
  newline, name_tag, address_tag, nonce_tag, key_tag, end_mark, read_line, line_room, contains,
  LoadState, load_header, load_line, load_lines,
}

-- A text without a newline.
abbrev pub IsLine : List ℕ → Type 0
IsLine text = All (λ (c : ℕ). (c == newline) ≡ false) text

-- A line is read whole, with its newline, where it fits.
read_line-append :
    (n : ℕ) (text rest : List ℕ)
    → IsLine text
    → length text < n
    → read_line n (text ++ (newline ∷ rest)) ≡ (text ++ (newline ∷ []), rest)
unfolding read_line
read_line-append zero text rest h fits = absurd (omega arith)
read_line-append (suc n) [] rest h fits = refl
read_line-append (suc n) (c ∷ text) rest (first, others) fits =
    rw (first, read_line-append n text rest others (omega arith)) refl

pub load_lines-append :
    (fuel : ℕ) (strtoull : List ℕ → ℕ) (s : LoadState) (text rest : List ℕ)
    → IsLine text
    → length text < line_room
    → length (text ++ (newline ∷ rest)) ≤ fuel
    → (f : ℕ) × (length rest ≤ f)
      × (load_lines fuel strtoull s (text ++ (newline ∷ rest))
          ≡ load_lines f strtoull (load_line strtoull s (text ++ (newline ∷ []))) rest)
unfolding load_lines
load_lines-append zero strtoull s text rest h fits enough =
    absurd (omega (arith, length-append text (newline ∷ rest)))
load_lines-append (suc fuel) strtoull s [] rest h fits enough = (
  fuel,
  omega arith,
  ap (λ (p : List ℕ × List ℕ). load_lines fuel strtoull (load_line strtoull s p.0) p.1)
      (read_line-append line_room [] rest h fits),
)
load_lines-append (suc fuel) strtoull s (c ∷ text) rest h fits enough = (
  fuel,
  omega (arith, length-append text (newline ∷ rest)),
  ap (λ (p : List ℕ × List ℕ). load_lines fuel strtoull (load_line strtoull s p.0) p.1)
      (read_line-append line_room (c ∷ text) rest h fits),
)

-- The states before the key, and while it is read.
abbrev pub header_of : Wallet → LoadState
header_of w = record { wallet = w; reading_key = false; pem_buffer = []; overrun = false }

abbrev pub key_of : Wallet → List ℕ → LoadState
key_of w pem = record { wallet = w; reading_key = true; pem_buffer = pem; overrun = false }

abbrev pub ended : List ℕ → List ℕ
ended text = text ++ (newline ∷ [])

pub load_line-name :
    (strtoull : List ℕ → ℕ) (w : Wallet) (text : List ℕ)
    → load_line strtoull (header_of w) (name_tag ++ ended text)
      ≡ header_of (record w { name = safe_strcpy w.name (trim (ended text)) 64 })
unfolding load_line load_header starts_with
load_line-name strtoull w text = refl

pub load_line-address :
    (strtoull : List ℕ → ℕ) (w : Wallet) (text : List ℕ)
    → load_line strtoull (header_of w) (address_tag ++ ended text)
      ≡ header_of (record w {
        address_hex = safe_strcpy w.address_hex (trim (ended text)) 41;
        address = (hex_to_address (some (trim (ended text))) w.address).1;
      })
unfolding load_line load_header starts_with
load_line-address strtoull w text = refl

pub load_line-nonce :
    (strtoull : List ℕ → ℕ) (w : Wallet) (text : List ℕ)
    → load_line strtoull (header_of w) (nonce_tag ++ ended text)
      ≡ header_of (record w { nonce = strtoull (ended text) })
unfolding load_line load_header starts_with
load_line-nonce strtoull w text = refl

pub load_line-key :
    (strtoull : List ℕ → ℕ) (w : Wallet)
    → load_line strtoull (header_of w) (ended key_tag) ≡ key_of w []
unfolding load_line load_header starts_with
load_line-key strtoull w = refl

-- The text of a key, from its lines.
unfoldable pub pem_of : List (List ℕ) → List ℕ
pem_of [] = []
pem_of (text ∷ texts) = text ++ (newline ∷ pem_of texts)

-- The end mark stands in no line but the last.
abbrev pub IsPem : List (List ℕ) → Type 0
IsPem [] = Unit
IsPem (text ∷ []) = IsLine text × (length text < line_room)
IsPem (text ∷ next ∷ texts) =
    IsLine text
    × (length text < line_room)
    × (contains (ended text) end_mark ≡ false)
    × IsPem (next ∷ texts)

-- The text that is there after one line more.
pem_of-append :
    (pem text : List ℕ) (texts : List (List ℕ))
    → (pem ++ ended text) ++ pem_of texts ≡ pem ++ pem_of (text ∷ texts)
unfolding pem_of
pem_of-append pem text texts =
    append_assoc pem (ended text) (pem_of texts)
    ∙ ap (λ (t : List ℕ). pem ++ t) (append_assoc text (newline ∷ []) (pem_of texts))

load_line-pem :
    (strtoull : List ℕ → ℕ) (w : Wallet) (pem text : List ℕ)
    → length (pem ++ ended text) ≤ 2047
    → let next = load_line strtoull (key_of w pem) (ended text) in
      (next.wallet ≡ w) × (next.pem_buffer ≡ pem ++ ended text) × (next.overrun ≡ false)
unfolding load_line
load_line-pem strtoull w pem text h = (refl, refl, ground arith)

load_line-pem_more :
    (strtoull : List ℕ → ℕ) (w : Wallet) (pem text : List ℕ)
    → length (pem ++ ended text) ≤ 2047
    → contains (ended text) end_mark ≡ false
    → load_line strtoull (key_of w pem) (ended text) ≡ key_of w (pem ++ ended text)
unfolding load_line
load_line-pem_more strtoull w pem text h more =
    let fits : leb 2048 (length (pem ++ ended text)) ≡ false = ground arith in rw (more, fits) refl

-- The lines of a key that fits `pem_buffer` are collected in it.
pub load_lines-pem_of :
    (fuel : ℕ) (strtoull : List ℕ → ℕ) (w : Wallet) (pem : List ℕ) (texts : List (List ℕ))
    → IsPem texts
    → length (pem ++ pem_of texts) ≤ 2047
    → length (pem_of texts) ≤ fuel
    → let last = load_lines fuel strtoull (key_of w pem) (pem_of texts) in
      (last.wallet ≡ w) × (last.pem_buffer ≡ pem ++ pem_of texts) × (last.overrun ≡ false)
unfolding load_lines pem_of
load_lines-pem_of fuel strtoull w pem [] h fits enough = (refl, sym (append-nil pem), refl)
load_lines-pem_of fuel strtoull w pem (text ∷ []) h fits enough =
    let (f, left, e) = load_lines-append fuel strtoull (key_of w pem) text [] h.0 h.1 enough in
    rw e (load_line-pem strtoull w pem text fits)
load_lines-pem_of fuel strtoull w pem (text ∷ next ∷ texts) h fits enough =
    let (line, short, more, rest) = h in
    let (f, left, e) =
      load_lines-append fuel strtoull (key_of w pem) text (pem_of (next ∷ texts)) line short
        enough in
    let whole = pem_of-append pem text (next ∷ texts) in
    let size = length-append (pem ++ ended text) (pem_of (next ∷ texts)) in
    let total = ap length whole in
    let (wallet, buffer, fine) =
      load_lines-pem_of f strtoull w (pem ++ ended text) (next ∷ texts) rest
        (omega (arith, total, fits)) left in
    rw (e, load_line-pem_more strtoull w pem text (omega (arith, size, total, fits)) more)
      (wallet, buffer ∙ whole, fine)
