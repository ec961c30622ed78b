-- ===== src/Playback/ObjectKeys/RoundTrip.antt =====
-- Keys of backend/apps/playback/objectstore.py, written and read.
use Prim.Native.Char.{code}
use native.Mathlib.Omega.{arith}
use text.Mathlib.TextEquality.{eq_iff}
use shortform_streaming.Prelude.{
  ℕ, zero, suc, ◌+◌, ◌*◌, ◌/◌, ◌%◌, ◌≤◌, ◌<◌, ◌≡◌, refl, ap, ◌∙◌, String, Bool, true, false, not,
  ◌&&◌, Option, some, ltb, leb, ◌==◌, inl, inr, ==_iff, Bool-cases, with_prefix,
  after_prefix-with_prefix,
}
use shortform_streaming.Prelude.Options.{bind_some}
use shortform_streaming.Playback.ObjectKeys.{
  digit, decimal_onto, decimal, staff_master_object_key, key_prefix, int_from, starts_with_zero,
  is_blank, pk_from_object_key, Hmac, PutUrl, mint_put_url, verify_staff_put_signature,
}

code-digit : (d : ℕ) → d ≤ 9 → code (digit d) ≡ 48 + d
unfolding digit
code-digit zero h = refl
code-digit (suc zero) h = refl
code-digit (suc (suc zero)) h = refl
code-digit (suc (suc (suc zero))) h = refl
code-digit (suc (suc (suc (suc zero)))) h = refl
code-digit (suc (suc (suc (suc (suc zero))))) h = refl
code-digit (suc (suc (suc (suc (suc (suc zero)))))) h = refl
code-digit (suc (suc (suc (suc (suc (suc (suc zero))))))) h = refl
code-digit (suc (suc (suc (suc (suc (suc (suc (suc zero)))))))) h = refl
code-digit (suc (suc (suc (suc (suc (suc (suc (suc (suc zero))))))))) h = refl
code-digit (suc (suc (suc (suc (suc (suc (suc (suc (suc (suc n)))))))))) h =
    absurd (omega (arith, h))

whole : (n : ℕ) → (n / 10 == 0) ≡ true → 0 * 10 + n % 10 ≡ n
whole n last = let none_left = (==_iff (n / 10) 0).0 last in omega (arith, none_left)

split : (n : ℕ) → n / 10 * 10 + n % 10 ≡ n
split n = omega arith

smaller : (n fuel : ℕ) → (n / 10 == 0) ≡ false → n < suc fuel → n / 10 < fuel
smaller n fuel more h = ground (arith, more)

module _ (digit_value : ℕ → Option ℕ)
    (ascii : (d : ℕ) → d ≤ 9 → digit_value (48 + d) ≡ some d) where
  digit_value-digit : (d : ℕ) → d ≤ 9 → digit_value (code (digit d)) ≡ some d
  digit_value-digit d h = ap digit_value (code-digit d h) ∙ ascii d h

  int_from-digit :
      (m n : ℕ) (s : String)
      → n % 10 ≤ 9
      → int_from digit_value m (String.◌∷◌ (digit (n % 10)) s)
        ≡ int_from digit_value (m * 10 + n % 10) s
  unfolding int_from
  int_from-digit m n s h = rw (digit_value-digit (n % 10) h) refl

  -- Digits that are written are read.
  int_from-decimal_onto :
      (fuel n : ℕ) (acc : String)
      → n < fuel
      → int_from digit_value 0 (decimal_onto fuel n acc) ≡ int_from digit_value n acc
  unfolding decimal_onto
  int_from-decimal_onto zero n acc h = absurd (omega (arith, h))
  int_from-decimal_onto (suc fuel) n acc h =
      let low : n % 10 ≤ 9 = omega arith in
      elim (Bool-cases (n / 10 == 0)) [
        | inl last ↦
            rw last
              (int_from-digit 0 n acc low ∙ ap (λ m. int_from digit_value m acc) (whole n last))
        | inr more ↦ rw more (
            int_from-decimal_onto fuel (n / 10) (String.◌∷◌ (digit (n % 10)) acc)
              (smaller n fuel more h)
            ∙ int_from-digit (n / 10) n acc low
            ∙ ap (λ m. int_from digit_value m acc) (split n))
      ]

-- The digits of a positive number start with no zero.
abbrev is_raw : String → Bool
is_raw s = not (is_blank s) && not (starts_with_zero s)

decimal_onto-raw :
    (fuel n : ℕ) (acc : String) → n < fuel → 1 ≤ n → is_raw (decimal_onto fuel n acc) ≡ true
unfolding decimal_onto
decimal_onto-raw zero n acc h low = absurd (omega (arith, h))
decimal_onto-raw (suc fuel) n acc h low = elim (Bool-cases (n / 10 == 0)) [
  | inl last ↦
      let none_left = (==_iff (n / 10) 0).0 last in
      let lead : 1 ≤ n % 10 = omega (arith, none_left, low) in
      rw last (ground (arith, code-digit (n % 10) (omega arith), lead))
  | inr more ↦
      let left : 1 ≤ n / 10 = ground (arith, more) in
      rw more (decimal_onto-raw fuel (n / 10) _ (smaller n fuel more h) left)
]

-- The key that is made for a row's number is read back as this number, whatever other decimal
-- digits are read, provided that those of ASCII have their values.
pub pk_from_object_key-staff_master_object_key :
    (digit_value : ℕ → Option ℕ) (pk : ℕ) (object_key : String)
    → ((d : ℕ) → d ≤ 9 → digit_value (48 + d) ≡ some d)
    → staff_master_object_key pk ≡ some object_key
    → pk_from_object_key digit_value object_key ≡ some pk
unfolding staff_master_object_key pk_from_object_key decimal int_from
pk_from_object_key-staff_master_object_key digit_value pk object_key ascii made =
    let low : 1 ≤ pk = ground (arith, made) in
    let key : with_prefix key_prefix (decimal pk) ≡ object_key = ground (arith, made) in
    let raw = decimal_onto-raw (suc pk) pk String.[] (omega arith) low in
    let read = int_from-decimal_onto digit_value ascii (suc pk) pk String.[] (omega arith) in
    rw (← key, after_prefix-with_prefix key_prefix (decimal pk), raw) read

in_time : (current exp : ℕ) → (not (leb exp current) && true && true) ≡ ltb current exp
in_time current exp = ground arith

-- A minted upload URL names the row of its key, and its signature verifies until it expires and
-- never from then on.
pub minted_verifies :
    (hmac : Hmac) (digit_value : ℕ → Option ℕ) (hmac_key object_key : String)
    (ttl_seconds now current : ℕ) (url : PutUrl)
    → is_blank (hmac hmac_key object_key (now + ttl_seconds)) ≡ false
    → mint_put_url hmac digit_value hmac_key object_key ttl_seconds now ≡ some url
    → (pk_from_object_key digit_value object_key ≡ some url.pk)
      × (verify_staff_put_signature hmac hmac_key object_key url.exp url.sig current
          ≡ ltb current (now + ttl_seconds))
unfolding mint_put_url verify_staff_put_signature
minted_verifies hmac digit_value hmac_key object_key ttl_seconds now current url nonempty made =
    let (pk, read, rest) = bind_some (pk_from_object_key digit_value object_key) _ url made in
    let same_pk : pk ≡ url.pk = ground (arith, rest) in
    let same_exp : now + ttl_seconds ≡ url.exp = ground (arith, rest) in
    let same_sig : hmac hmac_key object_key (now + ttl_seconds) ≡ url.sig = ground (arith, rest) in
    (
      rw (← same_pk) read,
      rw
          (
            ← same_exp,
            ← same_sig,
            nonempty,
            (eq_iff (hmac hmac_key object_key (now + ttl_seconds)) _).1 refl,
          )
          (in_time current (now + ttl_seconds)),
    )
