-- ===== src/Common/Strings.antt =====
-- The string helpers of src/common.c, on C strings as the characters before the NUL.
use shardingsim.Prelude.{
  ℕ, zero, suc, ◌≤◌, length, ◌≡◌, ◌↔◌, refl, ap, ap₂, ◌∙◌, Bool, true, false, ◌&&◌, ◌||◌, List, [],
  ◌∷◌, ◌++◌, take, ◌==◌, if◌then◌else◌, Bool-cases, inl, inr, arith, All,
}

-- What `dest` holds afterwards, a buffer of `dest_size` bytes.
unfoldable pub safe_strcpy : List ℕ → List ℕ → ℕ → List ℕ
safe_strcpy dest src zero = dest
safe_strcpy dest src (suc n) = take n src

-- `strncmp(str, prefix, strlen(prefix)) == 0`
unfoldable pub starts_with : List ℕ → List ℕ → Bool
starts_with str [] = true
starts_with [] (p ∷ prefix) = false
starts_with (c ∷ str) (p ∷ prefix) = c == p && starts_with str prefix

-- Space, tab or newline.
abbrev pub is_blank : ℕ → Bool
is_blank c = c == 32 || (c == 9 || c == 10)

skip_blanks : List ℕ → List ℕ
skip_blanks [] = []
skip_blanks (c ∷ str) = let rest = skip_blanks str in if is_blank c then rest else c ∷ str

-- The blanks at the end: a blank before nothing.
put_before : ℕ → List ℕ → List ℕ
put_before c [] = if is_blank c then [] else c ∷ []
put_before c (d ∷ str) = c ∷ d ∷ str

cut_blanks : List ℕ → List ℕ
unfolding put_before
cut_blanks [] = []
cut_blanks (c ∷ str) = put_before c (cut_blanks str)

unfoldable pub trim : List ℕ → List ℕ
unfolding skip_blanks cut_blanks
trim str = cut_blanks (skip_blanks str)

cut_blanks-put_before :
    (c : ℕ) (str : List ℕ) → cut_blanks str ≡ str → cut_blanks (put_before c str) ≡ put_before c str
unfolding cut_blanks put_before
cut_blanks-put_before c [] h = elim (Bool-cases (is_blank c)) [
  | inl e ↦ rw (e)
  | inr e ↦ rw (e) (rw (e))
]
cut_blanks-put_before c (d ∷ str) h = rw (h)

cut_blanks-cut_blanks : (str : List ℕ) → cut_blanks (cut_blanks str) ≡ cut_blanks str
unfolding cut_blanks
cut_blanks-cut_blanks [] = refl
cut_blanks-cut_blanks (c ∷ str) =
    cut_blanks-put_before c (cut_blanks str) (cut_blanks-cut_blanks str)

put_before-dark : (c : ℕ) (str : List ℕ) → is_blank c ≡ false → put_before c str ≡ c ∷ str
unfolding put_before
put_before-dark c [] e = rw (e)
put_before-dark c (d ∷ str) e = refl

skip_blanks-dark : (c : ℕ) (str : List ℕ) → is_blank c ≡ false → skip_blanks (c ∷ str) ≡ c ∷ str
unfolding skip_blanks
skip_blanks-dark c str e = rw (e)

skip_blanks-blank :
    (c : ℕ) (str : List ℕ) → is_blank c ≡ true → skip_blanks (c ∷ str) ≡ skip_blanks str
unfolding skip_blanks
skip_blanks-blank c str e = rw (e)

-- What is left begins with no blank.
skip_blanks-cut_blanks :
    (str : List ℕ) → skip_blanks (cut_blanks (skip_blanks str)) ≡ cut_blanks (skip_blanks str)
unfolding cut_blanks skip_blanks
skip_blanks-cut_blanks [] = refl
skip_blanks-cut_blanks (c ∷ str) = elim (Bool-cases (is_blank c)) [
  | inl e ↦ rw (skip_blanks-blank c str e) (skip_blanks-cut_blanks str)
  | inr e ↦
      rw (skip_blanks-dark c str e, put_before-dark c (cut_blanks str) e)
        (skip_blanks-dark c (cut_blanks str) e)
]

-- Trimming a trimmed text changes nothing.
trim-trim : (str : List ℕ) → trim (trim str) ≡ trim str
unfolding trim
trim-trim str = ap cut_blanks (skip_blanks-cut_blanks str) ∙ cut_blanks-cut_blanks (skip_blanks str)

-- `starts_with` holds exactly when the text is the prefix and something behind it.
starts_with_iff :
    (str prefix : List ℕ)
    → (starts_with str prefix ≡ true) ↔ ((rest : List ℕ) × (str ≡ prefix ++ rest))
unfolding starts_with
starts_with_iff str prefix = (to str prefix, λ (rest, e). rw (e) (from prefix rest))
  where
    to :
        (str prefix : List ℕ)
        → starts_with str prefix ≡ true
        → (rest : List ℕ) × (str ≡ prefix ++ rest)
    to str [] h = (str, refl)
    to [] (p ∷ prefix) h = absurd (cc h)
    to (c ∷ str) (p ∷ prefix) h =
        let parts : (c ≡ p) × (starts_with str prefix ≡ true) = ground arith in
        let (rest, e) = to str prefix parts.1 in (rest, ap₂ ◌∷◌ parts.0 e)

    from : (prefix rest : List ℕ) → starts_with (prefix ++ rest) prefix ≡ true
    from [] rest = refl
    from (p ∷ prefix) rest = ground (arith, from prefix rest)

put_before-cut_blanks :
    (c : ℕ) (str : List ℕ) → is_blank c ≡ true → cut_blanks (str ++ (c ∷ [])) ≡ cut_blanks str
unfolding cut_blanks put_before
put_before-cut_blanks c [] e = rw e refl
put_before-cut_blanks c (d ∷ str) e = ap (put_before d) (put_before-cut_blanks c str e)

-- A blank behind a text is trimmed with the others.
pub trim-append : (str : List ℕ) (c : ℕ) → is_blank c ≡ true → trim (str ++ (c ∷ [])) ≡ trim str
unfolding trim skip_blanks cut_blanks
trim-append [] c e = rw e refl
trim-append (d ∷ str) c e = elim (Bool-cases (is_blank d)) [
  | inl blank ↦ rw blank (trim-append str c e)
  | inr dark ↦ rw dark (ap (put_before d) (put_before-cut_blanks c str e))
]

-- A text without blanks stays.
pub trim-dark : (str : List ℕ) → All (λ (c : ℕ). is_blank c ≡ false) str → trim str ≡ str
unfolding trim skip_blanks cut_blanks
trim-dark [] h = refl
trim-dark (c ∷ str) (first, others) =
    skip_first c str first ∙ ap (put_before c) (cut str others) ∙ put_before-dark c str first
  where
    cut : (str : List ℕ) → All (λ (c : ℕ). is_blank c ≡ false) str → cut_blanks str ≡ str
    cut [] h = refl
    cut (c ∷ str) (first, others) = ap (put_before c) (cut str others) ∙ put_before-dark c str first

    skip_first :
        (c : ℕ) (str : List ℕ)
        → is_blank c ≡ false
        → cut_blanks (skip_blanks (c ∷ str)) ≡ cut_blanks (c ∷ str)
    skip_first c str e = ap cut_blanks (skip_blanks-dark c str e)

-- A text that fits is copied whole.
pub safe_strcpy-fits :
    (dest src : List ℕ) (n : ℕ) → length src ≤ n → safe_strcpy dest src (suc n) ≡ src
unfolding safe_strcpy
safe_strcpy-fits dest src n h = take_fits src n h
  where
    take_fits : (src : List ℕ) (n : ℕ) → length src ≤ n → take n src ≡ src
    take_fits [] zero h = refl
    take_fits [] (suc n) h = refl
    take_fits (c ∷ src) zero h = absurd (omega arith)
    take_fits (c ∷ src) (suc n) h = ap (λ (t : List ℕ). c ∷ t) (take_fits src n (omega arith))

pub length-safe_strcpy : (dest src : List ℕ) (n : ℕ) → length (safe_strcpy dest src (suc n)) ≤ n
unfolding safe_strcpy
length-safe_strcpy dest src n = length-take n src
  where
    length-take : (n : ℕ) (src : List ℕ) → length (take n src) ≤ n
    length-take zero src = omega arith
    length-take (suc n) [] = omega arith
    length-take (suc n) (c ∷ src) = omega (arith, length-take n src)
