-- ===== src/Mfa/Base32.antt =====
-- Base32 and back.
use Prim.Native.Char.{Char, code}
use Prim.Native.String.{[] as no_text, ◌∷◌ as ◌∷c◌}
use mathlib.Core.Path.{subst}
use text.Mathlib.TextLemmas.{cons-append, nil-append}
use authometry.Common.{
  ℕ, zero, suc, ◌+◌, ◌*◌, ◌/◌, ◌%◌, ◌<◌, ◌≡◌, refl, sym, ap, ◌∙◌, String, Bool, true, false, Option,
  none, some, List, [], ◌∷◌, ◌++◌, ◌&&◌, ◌==◌, arith, All, if◌then◌else◌, str_eq, eq_iff, truthy,
  Bool-cases, inl, inr, and_parts,
}
use authometry.Common.Text.{◌+s◌, nth, upper_case, keep_codes, index_of}
use authometry.Mfa.{
  alphabet, bits_of, value_of, bits, fives, eights, letters, base32_encode, places, placed,
  normalized_secret, base32_decode,
}

-- `2 ^ width`.
abbrev pow2 : ℕ → ℕ
pow2 zero = 1
pow2 (suc width) = pow2 width * 2

value_of-last : (m : ℕ) (bs : List ℕ) (b : ℕ) → value_of m (bs ++ b ∷ []) ≡ value_of m bs * 2 + b
unfolding value_of
value_of-last m [] b = refl
value_of-last m (x ∷ bs) b = value_of-last (m * 2 + x) bs b

value_of-bits_of : (width n : ℕ) → n < pow2 width → value_of 0 (bits_of width n) ≡ n
unfolding value_of bits_of
value_of-bits_of zero n h = omega arith
value_of-bits_of (suc width) n h =
    let last = value_of-last 0 (bits_of width (n / 2)) (n % 2) in
    let rest = value_of-bits_of width (n / 2) (omega arith) in omega (arith, last, rest)

bits_of-value :
    (width n b : ℕ) → b < 2 → bits_of (suc width) (n * 2 + b) ≡ bits_of width n ++ b ∷ []
unfolding bits_of
bits_of-value width n b h =
    let half : (n * 2 + b) / 2 ≡ n = omega arith in
    let rest : (n * 2 + b) % 2 ≡ b = omega arith in rw (half, rest)

abbrev IsBit : ℕ → Type 0
IsBit b = b < 2

zero-IsBit : IsBit 0
zero-IsBit = omega arith

bits_of-five :
    (a b c d e : ℕ)
    → IsBit a
    → IsBit b
    → IsBit c
    → IsBit d
    → IsBit e
    → bits_of 5 (value_of 0 (a ∷ b ∷ c ∷ d ∷ e ∷ [])) ≡ a ∷ b ∷ c ∷ d ∷ e ∷ []
unfolding bits_of value_of
bits_of-five a b c d e ha hb hc hd he =
    let v2 = (0 + a) * 2 + b in
    let v3 = v2 * 2 + c in
    let v4 = v3 * 2 + d in
    bits_of-value 4 v4 e he
    ∙ ap (λ xs. xs ++ e ∷ [])
        (bits_of-value 3 v3 d hd
          ∙ ap (λ xs. xs ++ d ∷ [])
              (bits_of-value 2 v2 c hc
                ∙ ap (λ xs. xs ++ c ∷ [])
                    (bits_of-value 1 (0 + a) b hb
                      ∙ ap (λ xs. xs ++ b ∷ []) (bits_of-value 0 0 a ha))))

value_of-five :
    (a b c d e : ℕ)
    → IsBit a
    → IsBit b
    → IsBit c
    → IsBit d
    → IsBit e
    → value_of 0 (a ∷ b ∷ c ∷ d ∷ e ∷ []) < 32
unfolding value_of
value_of-five a b c d e ha hb hc hd he = omega arith

module _ {A : Type 0} (P : A → Type 0) where
  All-append : (xs ys : List A) → All P xs → All P ys → All P (xs ++ ys)
  All-append [] ys p q = q
  All-append (x ∷ xs) ys p q = (p.0, All-append xs ys p.1 q)

bits_of-bits : (width n : ℕ) → All IsBit (bits_of width n)
unfolding bits_of
bits_of-bits zero n = tt
bits_of-bits (suc width) n =
    All-append IsBit (bits_of width (n / 2)) (n % 2 ∷ []) (bits_of-bits width (n / 2))
      (omega arith, tt)

bits-bits : (width : ℕ) (ns : List ℕ) → All IsBit (bits width ns)
unfolding bits
bits-bits width [] = tt
bits-bits width (n ∷ ns) =
    All-append IsBit (bits_of width n) (bits width ns) (bits_of-bits width n) (bits-bits width ns)

-- The groups of five are below 32, and their bits are those that were grouped, with a padding
-- that makes no byte.
record Grouped (bs : List ℕ) : Type 0 where
  padding : List ℕ
  no_byte : eights padding ≡ []
  small : All (λ n. n < 32) (fives bs)
  same : bits 5 (fives bs) ≡ bs ++ padding

fives-Grouped : (bs : List ℕ) → All IsBit bs → Grouped bs
unfolding fives bits eights
fives-Grouped [] h = record { padding = []; no_byte = refl; small = tt; same = refl }
fives-Grouped (a ∷ []) h = record {
  padding = 0 ∷ 0 ∷ 0 ∷ 0 ∷ [];
  no_byte = refl;
  small = (value_of-five a 0 0 0 0 h.0 zero-IsBit zero-IsBit zero-IsBit zero-IsBit, tt);
  same =
      ap (λ xs. xs ++ []) (bits_of-five a 0 0 0 0 h.0 zero-IsBit zero-IsBit zero-IsBit zero-IsBit);
}
fives-Grouped (a ∷ (b ∷ [])) h = record {
  padding = 0 ∷ 0 ∷ 0 ∷ [];
  no_byte = refl;
  small = (value_of-five a b 0 0 0 h.0 h.1.0 zero-IsBit zero-IsBit zero-IsBit, tt);
  same = ap (λ xs. xs ++ []) (bits_of-five a b 0 0 0 h.0 h.1.0 zero-IsBit zero-IsBit zero-IsBit);
}
fives-Grouped (a ∷ (b ∷ (c ∷ []))) h = record {
  padding = 0 ∷ 0 ∷ [];
  no_byte = refl;
  small = (value_of-five a b c 0 0 h.0 h.1.0 h.1.1.0 zero-IsBit zero-IsBit, tt);
  same = ap (λ xs. xs ++ []) (bits_of-five a b c 0 0 h.0 h.1.0 h.1.1.0 zero-IsBit zero-IsBit);
}
fives-Grouped (a ∷ (b ∷ (c ∷ (d ∷ [])))) h = record {
  padding = 0 ∷ [];
  no_byte = refl;
  small = (value_of-five a b c d 0 h.0 h.1.0 h.1.1.0 h.1.1.1.0 zero-IsBit, tt);
  same = ap (λ xs. xs ++ []) (bits_of-five a b c d 0 h.0 h.1.0 h.1.1.0 h.1.1.1.0 zero-IsBit);
}
fives-Grouped (a ∷ (b ∷ (c ∷ (d ∷ (e ∷ bs))))) h =
    let rest = fives-Grouped bs h.1.1.1.1.1 in
    record {
      padding = rest.padding;
      no_byte = rest.no_byte;
      small = (value_of-five a b c d e h.0 h.1.0 h.1.1.0 h.1.1.1.0 h.1.1.1.1.0, rest.small);
      same =
          ap (λ xs. xs ++ bits 5 (fives bs))
            (bits_of-five a b c d e h.0 h.1.0 h.1.1.0 h.1.1.1.0 h.1.1.1.1.0)
          ∙ ap (λ xs. a ∷ b ∷ c ∷ d ∷ e ∷ xs) rest.same;
    }

eights-bits :
    (ns padding : List ℕ)
    → All (λ n. n < 256) ns
    → eights padding ≡ []
    → eights (bits 8 ns ++ padding) ≡ ns
unfolding eights bits bits_of
eights-bits [] padding h none_left = none_left
eights-bits (n ∷ ns) padding h none_left =
    ap (λ x. x ∷ eights (bits 8 ns ++ padding)) (value_of-bits_of 8 n h.0)
    ∙ ap (λ xs. n ∷ xs) (eights-bits ns padding h.1 none_left)

-- What holds of every number below a bound, by computing.
abbrev pub below : (ℕ → Bool) → ℕ → Bool
below p zero = true
below p (suc n) = p n && below p n

pub below_lem : (p : ℕ → Bool) (bound n : ℕ) → below p bound ≡ true → n < bound → p n ≡ true
below_lem p zero n h less = absurd (omega arith)
below_lem p (suc m) n h less =
    let (here, rest) = and_parts (p m) (below p m) h in
    elim (Bool-cases (n == m)) [
      | inl same ↦ subst (λ k. p k ≡ true) (sym (equal n m same)) here
      | inr other ↦ below_lem p m n rest (smaller n m other less)
    ]
  where
    equal : (n m : ℕ) → (n == m) ≡ true → n ≡ m
    equal n m h = ground arith

    smaller : (n m : ℕ) → (n == m) ≡ false → n < suc m → n < m
    smaller n m h less = ground arith

abbrev is_index : Option ℕ → ℕ → Bool
is_index none n = false
is_index (some m) n = m == n

-- One character, at this place of the alphabet, that normalizing keeps.
abbrev is_letter : String → ℕ → Bool
is_letter no_text n = false
is_letter (c ∷c no_text) n =
    is_index (index_of (code c) alphabet) n
    && str_eq (normalized_secret (c ∷c no_text)) (c ∷c no_text)
is_letter (c ∷c (d ∷c s)) n = false

alphabet-letters : below (λ n. is_letter (nth n alphabet) n) 32 ≡ true
unfolding nth index_of normalized_secret upper_case keep_codes authometry.Common.Text.is_space
alphabet-letters = refl

is_index_lem : (o : Option ℕ) (n : ℕ) → is_index o n ≡ true → o ≡ some n
is_index_lem none n h = absurd (cc)
is_index_lem (some m) n h = ground arith

places-letter :
    (s t : String) (n : ℕ) (ns : List ℕ)
    → is_letter s n ≡ true
    → places t ≡ some ns
    → places (s +s t) ≡ some (n ∷ ns)
unfolding places
places-letter no_text t n ns h rest = absurd (cc)
places-letter (c ∷c no_text) t n ns h rest =
    let (at, plain) = and_parts _ _ h in
    let place = is_index_lem (index_of (code c) alphabet) n at in
    ap places (cons-append c no_text t ∙ ap (λ x. c ∷c x) (nil-append t))
    ∙ ap (λ o. placed o (places t)) place
    ∙ ap (placed (some n)) rest
places-letter (c ∷c (d ∷c s)) t n ns h rest = absurd (cc)

places-letters : (ns : List ℕ) → All (λ n. n < 32) ns → places (letters ns) ≡ some ns
unfolding letters places
places-letters [] h = refl
places-letters (n ∷ ns) h =
    places-letter (nth n alphabet) (letters ns) n ns
      (below_lem (λ k. is_letter (nth k alphabet) k) 32 n alphabet-letters h.0)
      (places-letters ns h.1)

-- The first character of a text, or the other.
abbrev head_or : Char → String → Char
head_or d no_text = d
head_or d (c ∷c s) = c

chosen :
    (b : Bool) (c d : Char) (rest : String)
    → (if b then d ∷c no_text else no_text) ≡ c ∷c no_text
    → (if b then d ∷c rest else rest) ≡ c ∷c rest
chosen true c d rest h = ap (λ x. x ∷c rest) (ap (head_or d) h)
chosen false c d rest h = absurd (cc)

-- A character that normalizing keeps by itself is kept before any text.
normalized-letter :
    (c : Char) (t : String)
    → str_eq (normalized_secret (c ∷c no_text)) (c ∷c no_text) ≡ true
    → normalized_secret (c ∷c t) ≡ c ∷c normalized_secret t
unfolding normalized_secret upper_case keep_codes
normalized-letter c t h =
    chosen _ c _ (normalized_secret t)
      ((eq_iff (normalized_secret (c ∷c no_text)) (c ∷c no_text)).0 h)

normalized-letters :
    (ns : List ℕ) → All (λ n. n < 32) ns → normalized_secret (letters ns) ≡ letters ns
unfolding letters normalized_secret upper_case keep_codes
normalized-letters [] h = refl
normalized-letters (n ∷ ns) h =
    one (nth n alphabet) (letters ns) n
      (below_lem (λ k. is_letter (nth k alphabet) k) 32 n alphabet-letters h.0)
      (normalized-letters ns h.1)
  where
    one :
        (s t : String) (n : ℕ)
        → is_letter s n ≡ true
        → normalized_secret t ≡ t
        → normalized_secret (s +s t) ≡ s +s t
    one no_text t n h same = absurd (cc)
    one (c ∷c no_text) t n h same =
        let (at, plain) = and_parts _ _ h in
        let put = cons-append c no_text t ∙ ap (λ x. c ∷c x) (nil-append t) in
        ap normalized_secret put ∙ normalized-letter c t plain ∙ ap (λ x. c ∷c x) same ∙ sym put
    one (c ∷c (d ∷c s)) t n h same = absurd (cc)

decoded_lem :
    (v s : String) (ns : List ℕ)
    → normalized_secret v ≡ s
    → truthy s ≡ true
    → places s ≡ some ns
    → base32_decode v ≡ some (eights (bits 5 ns))
unfolding base32_decode
decoded_lem v s ns norm filled found = rw (norm, filled, found)

letters-truthy :
    (n : ℕ) (ns : List ℕ)
    → places (letters (n ∷ ns)) ≡ some (n ∷ ns)
    → truthy (letters (n ∷ ns)) ≡ true
unfolding places
letters-truthy n ns found = elim (Bool-cases (truthy (letters (n ∷ ns)))) [
  | inl filled ↦ filled
  | inr blank ↦
      let none_left : letters (n ∷ ns) ≡ "" = ground (arith, eq_iff (letters (n ∷ ns)) "") in
      let empty_is : some [] ≡ some (n ∷ ns) = ap places (sym none_left) ∙ found in absurd (cc)
]

-- Base32 gives back the bytes that it encodes; the empty secret is malformed.
pub base32_decode-base32_encode :
    (byte : ℕ) (bytes : List ℕ)
    → byte < 256
    → All (λ n. n < 256) bytes
    → base32_decode (base32_encode (byte ∷ bytes)) ≡ some (byte ∷ bytes)
unfolding base32_encode bits bits_of fives
base32_decode-base32_encode byte bytes first rest =
    let value = byte ∷ bytes in
    let grouped = fives-Grouped (bits 8 value) (bits-bits 8 value) in
    let ns = fives (bits 8 value) in
    let plain = normalized-letters ns grouped.small in
    let found = places-letters ns grouped.small in
    decoded_lem (letters ns) (letters ns) ns plain (letters-truthy _ _ found) found
    ∙ ap some
        (ap eights grouped.same ∙ eights-bits value grouped.padding (first, rest) grouped.no_byte)
