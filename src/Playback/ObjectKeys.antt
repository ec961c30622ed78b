-- ===== src/Playback/ObjectKeys.antt =====
-- backend/apps/playback/objectstore.py: the keys of staff masters and the signature of their
-- upload. `digit_value` is Python's value of a decimal digit, by its code.
pub mod RoundTrip
use Prim.Native.Char.{Char, code}
use text.Mathlib.Text.{◌==◌ as str_eq}
use shortform_streaming.Prelude.{
  ℕ, zero, suc, ◌+◌, ◌*◌, ◌/◌, ◌%◌, String, Bool, true, false, not, ◌&&◌, ◌||◌, Option, none, some,
  if◌then◌else◌, leb, ltb, ◌==◌, with_prefix, after_prefix,
}
use shortform_streaming.Prelude.Options.{◌>>=◌, ◌>>◌, require}

abbrev pub staff_master_key_prefix : String
staff_master_key_prefix = "staff-masters"

-- The character of a decimal digit.
unfoldable pub digit : ℕ → Char
digit zero = "0"
digit (suc zero) = "1"
digit (suc (suc zero)) = "2"
digit (suc (suc (suc zero))) = "3"
digit (suc (suc (suc (suc zero)))) = "4"
digit (suc (suc (suc (suc (suc zero))))) = "5"
digit (suc (suc (suc (suc (suc (suc zero)))))) = "6"
digit (suc (suc (suc (suc (suc (suc (suc zero))))))) = "7"
digit (suc (suc (suc (suc (suc (suc (suc (suc zero)))))))) = "8"
digit (suc (suc (suc (suc (suc (suc (suc (suc (suc n))))))))) = "9"

-- The decimal digits of a number before `acc`; its own value is fuel enough.
unfoldable pub decimal_onto : ℕ → ℕ → String → String
decimal_onto zero n acc = acc
decimal_onto (suc fuel) n acc =
    let longer = decimal_onto fuel (n / 10) (String.◌∷◌ (digit (n % 10)) acc) in
    if n / 10 == 0 then String.◌∷◌ (digit (n % 10)) acc else longer

-- `f"{n}"`
unfoldable pub decimal : ℕ → String
unfolding decimal_onto
decimal n = decimal_onto (suc n) n String.[]

-- `f"{STAFF_MASTER_KEY_PREFIX}/"`
abbrev pub key_prefix : String
key_prefix = "staff-masters/"

-- `staff_master_object_key`; `none` is the ValueError.
unfoldable pub staff_master_object_key : ℕ → Option String
unfolding decimal
staff_master_object_key pk = if ltb pk 1 then none else some (with_prefix key_prefix (decimal pk))

abbrev pub or_digit : Option ℕ → ℕ → Option ℕ
or_digit none n = none
or_digit (some d) n = some (n * 10 + d)

-- `int(text)` after the digits that make `n`.
unfoldable pub int_from : (ℕ → Option ℕ) → ℕ → String → Option ℕ
int_from digit_value n String.[] = some n
int_from digit_value n (String.◌∷◌ c s) = do
  m ← or_digit (digit_value (code c)) n
  int_from digit_value m s

abbrev pub starts_with_zero : String → Bool
starts_with_zero String.[] = false
starts_with_zero (String.◌∷◌ c s) = code c == 48

abbrev pub is_blank : String → Bool
is_blank String.[] = true
is_blank (String.◌∷◌ c s) = false

-- `_pk_from_object_key`
unfoldable pub pk_from_object_key : (ℕ → Option ℕ) → String → Option ℕ
unfolding int_from
pk_from_object_key digit_value object_key = do
  raw_pk ← after_prefix key_prefix object_key
  require (not (is_blank raw_pk) && not (starts_with_zero raw_pk))
  int_from digit_value 0 raw_pk

-- `staff_put_signature` is `hmac` of the key, the object and the expiry in Unix seconds.
abbrev pub Hmac : Type 0
Hmac = String → String → ℕ → String

-- `verify_staff_put_signature`
unfoldable pub verify_staff_put_signature : Hmac → String → String → ℕ → String → ℕ → Bool
verify_staff_put_signature hmac hmac_key object_key expires_unix signature current =
    not (leb expires_unix current)
    && not (is_blank signature)
    && str_eq signature (hmac hmac_key object_key expires_unix)

-- What `FakeObjectStore.mint_put_url` puts into the URL: the row, the expiry and the signature.
pub record PutUrl : Type 0 where
  pub pk : ℕ
  pub exp : ℕ
  pub sig : String

unfoldable pub mint_put_url : Hmac → (ℕ → Option ℕ) → String → String → ℕ → ℕ → Option PutUrl
unfolding pk_from_object_key
mint_put_url hmac digit_value hmac_key object_key ttl_seconds now = do
  pk ← pk_from_object_key digit_value object_key
  some (record {
    pk = pk;
    exp = now + ttl_seconds;
    sig = hmac hmac_key object_key (now + ttl_seconds);
  })
