-- ===== src/Tests/Keys.antt =====
-- A staff master's key and its upload (backend/apps/playback/objectstore.py).
use shortform_streaming.Prelude.{
  ℕ, ◌-◌, ◌+◌, ◌≤◌, ◌≡◌, refl, arith, Option, none, some, if◌then◌else◌, leb, ltb, ◌&&◌,
  with_prefix, after_prefix,
}
use shortform_streaming.Playback.ObjectKeys.{
  Hmac, PutUrl, staff_master_object_key, pk_from_object_key, mint_put_url,
  verify_staff_put_signature, digit,
}
use shortform_streaming.Playback.ObjectKeys.RoundTrip.{
  pk_from_object_key-staff_master_object_key, minted_verifies,
}

abbrev digit_value : ℕ → Option ℕ
digit_value c = if leb 48 c && leb c 57 then some (c - 48) else none

ascii : (d : ℕ) → d ≤ 9 → digit_value (48 + d) ≡ some d
ascii d h = ground arith

written : staff_master_object_key 40 ≡ some "staff-masters/40"
unfolding staff_master_object_key with_prefix digit
written = refl

pk_from_object_key-staff_master_object_key_example :
    pk_from_object_key digit_value "staff-masters/40" ≡ some 40
pk_from_object_key-staff_master_object_key_example =
    pk_from_object_key-staff_master_object_key digit_value 40 "staff-masters/40" ascii written

abbrev hmac : Hmac
hmac key object_key expires = "5ec2"

abbrev url : PutUrl
url = record { pk = 40; exp = 1600; sig = "5ec2" }

minted : mint_put_url hmac digit_value "secret" "staff-masters/40" 600 1000 ≡ some url
unfolding mint_put_url after_prefix
minted = refl

minted_verifies_example :
    (pk_from_object_key digit_value "staff-masters/40" ≡ some 40)
    × (verify_staff_put_signature hmac "secret" "staff-masters/40" 1600 "5ec2" 1200 ≡ ltb 1200 1600)
minted_verifies_example =
    minted_verifies hmac digit_value "secret" "staff-masters/40" 600 1000 1200 url refl minted
