-- ===== src/Mfa/Laws.antt =====
-- One-time passwords have six digits and are accepted; recovery codes are used up.
use mathlib.Core.Path.{subst}
use authometry.Common.{
  ℕ, zero, suc, ◌+◌, ◌-◌, ◌*◌, ◌/◌, ◌%◌, ◌<◌, ◌≤◌, ◌≡◌, refl, sym, ap, ◌∙◌, ◌⊎◌, ◌≢◌, String, Bool,
  true, false, Option, none, some, List, [], ◌∷◌, ◌&&◌, ◌||◌, not, ◌==◌, leb, arith, if◌then◌else◌,
  str_eq, eq_iff, eq_refl, is_some, Bool-cases, Option-cases, inl, inr, and_parts, find, keep,
  length, update_where,
}
use authometry.Common.Text.{◌+s◌, nth, text_length, every_code, keep_codes}
use authometry.Common.Text.Appending.{text_length-append, every_code-append, keep_codes-append}
use authometry.Database.{Runtime}
use authometry.Mfa.{
  base32_decode, six_digits, is_six_digits, is_separator, hotp, totp_code, normalized_code,
  in_window, verify_totp,
}
use authometry.Mfa.Base32.{below, below_lem}

abbrev is_digit : ℕ → Bool
is_digit n = leb b'0' n && leb n b'9'

abbrev plain : String → String
plain s = keep_codes (λ n. not (is_separator n)) s

-- A text of that many digits, which normalizing keeps.
record Digits (count : ℕ) (s : String) : Type 0 where
  size : text_length s ≡ count
  digits : every_code is_digit s ≡ true
  kept : plain s ≡ s

append-Digits : (m n : ℕ) (s t : String) → Digits m s → Digits n t → Digits (m + n) (s +s t)
append-Digits m n s t x y = record {
  size = text_length-append s t ∙ ap (λ k. k + text_length t) x.size ∙ ap (λ k. m + k) y.size;
  digits = every_code-append is_digit s t x.digits y.digits;
  kept =
      keep_codes-append (λ n. not (is_separator n)) s t
      ∙ ap (λ u. u +s plain t) x.kept
      ∙ ap (λ u. s +s u) y.kept;
}

abbrev is_one_digit : String → Bool
is_one_digit s = text_length s == 1 && (every_code is_digit s && str_eq (plain s) s)

all_digits : below (λ k. is_one_digit (nth k "0123456789")) 10 ≡ true
unfolding nth every_code keep_codes authometry.Common.Text.is_space
all_digits = refl

digit-Digits : (n : ℕ) → Digits 1 (nth (n % 10) "0123456789")
digit-Digits n =
    let (one, rest) =
      and_parts _ _
        (below_lem (λ k. is_one_digit (nth k "0123456789")) 10 (n % 10) all_digits (omega arith)) in
    let (digit, same) = and_parts _ _ rest in
    let s = nth (n % 10) "0123456789" in
    record { size = equal (text_length s) one; digits = digit; kept = (eq_iff (plain s) s).0 same }
  where
    equal : (m : ℕ) → (m == 1) ≡ true → m ≡ 1
    equal m h = ground arith

six_digits-Digits : (n : ℕ) → Digits 6 (six_digits n)
unfolding six_digits
six_digits-Digits n = append-Digits 1 5 _ _ (digit-Digits (n / 100000)) (
    append-Digits 1 4 _ _ (digit-Digits (n / 10000)) (
      append-Digits 1 3 _ _ (digit-Digits (n / 1000)) (
        append-Digits 1 2 _ _ (digit-Digits (n / 100))
          (append-Digits 1 1 _ _ (digit-Digits (n / 10)) (digit-Digits n)))))

unequal : (m n : ℕ) → (m == n) ≡ false → m ≢ n
unequal m n h e = absurd (ground (arith, h, e))

-- The step of the code is that of the verifier, or the one before or after it.
same_step :
    (made now : ℕ)
    → 30000 ≤ now
    → made ≤ now + 30000
    → now ≤ made + 30000
    → (made / 30000 ≡ (now - 30000) / 30000)
      ⊎ ((made / 30000 ≡ now / 30000) ⊎ (made / 30000 ≡ (now + 30000) / 30000))
same_step made now late before after = elim (Bool-cases (made / 30000 == (now - 30000) / 30000)) [
  | inl earlier ↦ inl (equal _ _ earlier)
  | inr not_earlier ↦ elim (Bool-cases (made / 30000 == now / 30000)) [
    | inl same ↦ inr (inl (equal _ _ same))
    | inr other ↦ inr (inr (omega (arith, unequal _ _ not_earlier, unequal _ _ other)))
  ]
]
  where
    equal : (m n : ℕ) → (m == n) ≡ true → m ≡ n
    equal m n h = ground arith

module _ (r : Runtime) where
  hotp-Digits : (key : List ℕ) (counter : ℕ) → Digits 6 (hotp r key counter)
  unfolding hotp
  hotp-Digits key counter = six_digits-Digits _

  in_window_lem :
      (key : List ℕ) (made now : ℕ)
      → 30000 ≤ now
      → made ≤ now + 30000
      → now ≤ made + 30000
      → in_window r key now (hotp r key (made / 30000)) ≡ true
  unfolding in_window
  in_window_lem key made now late before after = elim (same_step made now late before after) [
    | inl earlier ↦ rw earlier (ground (arith, eq_refl (hotp r key ((now - 30000) / 30000))))
    | inr (inl same) ↦ rw same (ground (arith, eq_refl (hotp r key (now / 30000))))
    | inr (inr later) ↦ rw later (ground (arith, eq_refl (hotp r key ((now + 30000) / 30000))))
  ]

  accepted_lem :
      (secret code : String) (key : List ℕ) (now : ℕ)
      → base32_decode secret ≡ some key
      → Digits 6 code
      → in_window r key now code ≡ true
      → verify_totp r secret code now ≡ some true
  unfolding verify_totp normalized_code is_six_digits
  accepted_lem secret code key now found d fits =
      let shown : is_six_digits (plain code) ≡ true =
        ap is_six_digits d.kept ∙ ground (arith, d.size, d.digits) in
      let fits' : in_window r key now (plain code) ≡ true =
        ap (in_window r key now) d.kept ∙ fits in
      rw (shown, found, fits')

  -- A code that the authenticator made for a secret at some instant is accepted at every instant up
  -- to 30 seconds before or after.
  pub verify_totp-totp_code :
      (secret code : String) (made now : ℕ)
      → 30000 ≤ now
      → made ≤ now + 30000
      → now ≤ made + 30000
      → totp_code r secret made ≡ some code
      → verify_totp r secret code now ≡ some true
  unfolding totp_code
  verify_totp-totp_code secret code made now late before after h =
      elim (Option-cases (base32_decode secret)) [
        | inl malformed ↦ absurd (ground arith)
        | inr (key, found) ↦
            let same : hotp r key (made / 30000) ≡ code = ground arith in
            accepted_lem secret code key now found
              (subst (Digits 6) same (hotp-Digits key (made / 30000)))
              (subst (λ c. in_window r key now c ≡ true) same
                (in_window_lem key made now late before after))
      ]
