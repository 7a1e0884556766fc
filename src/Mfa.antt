-- ===== src/Mfa.antt =====
-- apps/server/src/lib/mfa.ts and lib/identity-mfa.ts: one-time passwords and recovery codes.
-- Bytes are numbers below 256, and the texts of bits are lists of 0 and 1.
pub mod Laws
pub mod Base32
pub mod Recovery
use Prim.Native.String.{[] as no_text}
use authometry.Common.{
  ℕ, zero, suc, ◌+◌, ◌-◌, ◌*◌, ◌/◌, ◌%◌, String, Bool, true, false, Option, none, some, List, [],
  ◌∷◌, ◌++◌, ◌&&◌, ◌||◌, not, ◌==◌, ltb, leb, if◌then◌else◌, str_eq, truthy, is_some, find, any,
  update_where,
}
use authometry.Common.Text.{
  ◌+s◌, nth, decimal, upper_case, lower_case, text_length, cut, keep_codes, every_code, code_at,
  index_of, is_space, trim,
}
use authometry.Database.{
  Uuid, RecoveryCodeRow, Tables, Runtime, M, ◌>>=◌, ◌>>◌, pure, pool_read, pool_write,
}
use authometry.Signing.{hash_token, or_panic}

abbrev pub alphabet : String
alphabet = "ABCDEFGHIJKLMNOPQRSTUVWXYZ234567"

-- `n.toString(2).padStart(width, "0")`, for `n` below `2 ^ width`.
unfoldable pub bits_of : ℕ → ℕ → List ℕ
bits_of zero n = []
bits_of (suc width) n = bits_of width (n / 2) ++ (n % 2) ∷ []

-- `Number.parseInt(bits, 2)`, after the bits that gave `n`.
unfoldable pub value_of : ℕ → List ℕ → ℕ
value_of n [] = n
value_of n (b ∷ bs) = value_of (n * 2 + b) bs

unfoldable pub bits : ℕ → List ℕ → List ℕ
bits width [] = []
bits width (n ∷ ns) = bits_of width n ++ bits width ns

-- The groups of five bits, the last one padded with 0 on the right.
unfoldable pub fives : List ℕ → List ℕ
fives [] = []
fives (a ∷ []) = value_of 0 (a ∷ 0 ∷ 0 ∷ 0 ∷ 0 ∷ []) ∷ []
fives (a ∷ (b ∷ [])) = value_of 0 (a ∷ b ∷ 0 ∷ 0 ∷ 0 ∷ []) ∷ []
fives (a ∷ (b ∷ (c ∷ []))) = value_of 0 (a ∷ b ∷ c ∷ 0 ∷ 0 ∷ []) ∷ []
fives (a ∷ (b ∷ (c ∷ (d ∷ [])))) = value_of 0 (a ∷ b ∷ c ∷ d ∷ 0 ∷ []) ∷ []
fives (a ∷ (b ∷ (c ∷ (d ∷ (e ∷ bs))))) = value_of 0 (a ∷ b ∷ c ∷ d ∷ e ∷ []) ∷ fives bs

-- The groups of eight bits; what is left is dropped.
unfoldable pub eights : List ℕ → List ℕ
eights (a ∷ (b ∷ (c ∷ (d ∷ (e ∷ (f ∷ (g ∷ (h ∷ bs)))))))) =
    value_of 0 (a ∷ b ∷ c ∷ d ∷ e ∷ f ∷ g ∷ h ∷ []) ∷ eights bs
eights _ = []

unfoldable pub letters : List ℕ → String
letters [] = ""
letters (n ∷ ns) = nth n alphabet +s letters ns

unfoldable pub base32_encode : List ℕ → String
base32_encode value = letters (fives (bits 8 value))

abbrev pub placed : Option ℕ → Option (List ℕ) → Option (List ℕ)
placed none rest = none
placed (some n) none = none
placed (some n) (some ns) = some (n ∷ ns)

-- The places in the alphabet; `none` where a character is not in it.
unfoldable pub places : String → Option (List ℕ)
places no_text = some []
places (Prim.Native.String.◌∷◌ c s) =
    placed (index_of (Prim.Native.Char.code c) alphabet) (places s)

abbrev pub is_separator : ℕ → Bool
is_separator n = is_space n || n == b'-'

unfoldable pub normalized_secret : String → String
normalized_secret value = keep_codes (λ n. not (is_separator n)) (upper_case value)

-- `none` where the secret is malformed.
unfoldable pub base32_decode : String → Option (List ℕ)
base32_decode value =
    if truthy (normalized_secret value)
    then elim (places (normalized_secret value)) [
      | none ↦ none
      | some ns ↦ some (eights (bits 5 ns))
    ]
    else none

-- `digest[n]`, 0 out of range, which no digest of 20 bytes meets.
unfoldable pub byte_at : ℕ → List ℕ → ℕ
byte_at n [] = 0
byte_at n (b ∷ bs) = let rest = byte_at (n - 1) bs in if n == 0 then b else rest

unfoldable pub last_byte : List ℕ → ℕ
last_byte [] = 0
last_byte (b ∷ []) = b
last_byte (b ∷ (c ∷ bs)) = last_byte (c ∷ bs)

-- `writeBigUInt64BE`.
unfoldable pub big_endian : ℕ → ℕ → List ℕ
big_endian zero n = []
big_endian (suc width) n = big_endian width (n / 256) ++ (n % 256) ∷ []

-- The 31 bits of the digest at the offset that its last byte names.
unfoldable pub truncated : List ℕ → ℕ
truncated digest =
    let offset = last_byte digest % 16 in
    byte_at offset digest % 128 * 16777216
    + byte_at (offset + 1) digest % 256 * 65536
    + byte_at (offset + 2) digest % 256 * 256
    + byte_at (offset + 3) digest % 256

-- `padStart(6, "0")` of a number below 1 000 000.
unfoldable pub six_digits : ℕ → String
six_digits n =
    nth (n / 100000 % 10) "0123456789"
    +s nth (n / 10000 % 10) "0123456789"
    +s nth (n / 1000 % 10) "0123456789"
    +s nth (n / 100 % 10) "0123456789"
    +s nth (n / 10 % 10) "0123456789"
    +s nth (n % 10) "0123456789"

-- `/^\d{6}$/`.
unfoldable pub is_six_digits : String → Bool
is_six_digits s = text_length s == 6 && every_code (λ n. leb b'0' n && leb n b'9') s

module _ (r : Runtime) where
  -- The code of the counter `counter`, for a secret of these bytes.
  unfoldable pub hotp : List ℕ → ℕ → String
  hotp key counter = six_digits (truncated (r.hmac_sha1 key (big_endian 8 counter)) % 1000000)

  -- `none` where the secret is malformed.
  unfoldable pub totp_code : String → ℕ → Option String
  totp_code secret instant = elim (base32_decode secret) [
    | none ↦ none
    | some key ↦ some (hotp key (instant / 30000))
  ]

  unfoldable pub normalized_code : String → String
  normalized_code value = keep_codes (λ n. not (is_separator n)) value

  -- `[-1, 0, 1].some(…)`; the instant is later than 30 seconds after the epoch.
  unfoldable pub in_window : List ℕ → ℕ → String → Bool
  in_window key instant received =
      str_eq (hotp key ((instant - 30000) / 30000)) received
      || str_eq (hotp key (instant / 30000)) received
      || str_eq (hotp key ((instant + 30000) / 30000)) received

  unfoldable pub verify_totp : String → String → ℕ → Option Bool
  verify_totp secret value instant =
      if is_six_digits (normalized_code value)
      then elim (base32_decode secret) [
        | none ↦ none
        | some key ↦ some (in_window key instant (normalized_code value))
      ]
      else some false

  abbrev pub is_hex : ℕ → Bool
  is_hex n = leb b'a' n && leb n b'f' || leb b'0' n && leb n b'9'

  abbrev pub five_and_five : Option (String × String) → Bool
  five_and_five none = false
  five_and_five (some (left, right)) =
      text_length left == 5
      && every_code is_hex left
      && text_length right == 5
      && every_code is_hex right

  -- `/^[a-f0-9]{5}-[a-f0-9]{5}$/`.
  unfoldable pub is_recovery_code : String → Bool
  is_recovery_code s = five_and_five (cut b'-' s)

  unfoldable pub unused_code : Uuid → String → RecoveryCodeRow → Bool
  unused_code user_id hash c =
      c.user_id == user_id && str_eq c.code_hash hash && not (is_some c.used_at)

  unfoldable pub use_code : Uuid → Tables → Tables
  use_code id t = record t {
    recovery_codes =
        update_where (λ c. c.id == id) (λ c. record c { used_at = some r.sql_now })
          t.recovery_codes;
  }

  unfoldable pub spend : Option RecoveryCodeRow → M Bool
  spend none = pure false
  spend (some c) = do pool_write (use_code c.id); pure true

  unfoldable pub use_recovery_code : Uuid → String → M Bool
  use_recovery_code user_id value = do
    found ← pool_read (λ t. find (unused_code user_id (hash_token r value)) t.recovery_codes)
    spend found

  unfoldable pub verify_identity_mfa : Uuid → Option String → String → M Bool
  verify_identity_mfa user_id none value = pure false
  verify_identity_mfa user_id (some encrypted) value = verify_with encrypted
    where
      otherwise : Bool → M Bool
      otherwise true = pure true
      otherwise false =
          let normalized = lower_case (trim value) in
          if is_recovery_code normalized then use_recovery_code user_id normalized else pure false

      verify_with : String → M Bool
      verify_with encrypted =
          if truthy encrypted
          then (do
            secret ← or_panic r (r.decrypt encrypted) "Encrypted value is malformed."
            valid ← or_panic r (verify_totp secret value r.date_now) "The TOTP secret is malformed."
            otherwise valid)
          else pure false
