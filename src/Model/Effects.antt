-- ===== src/Model/Effects.antt =====
-- A service as a transaction over the store, and rules for what a transaction keeps.
use shortform_streaming.Prelude.{
  ℕ, suc, arith, ◌≡◌, refl, ◌⊎◌, inl, inr, Bool, true, false, Option, none, some,
}
use shortform_streaming.Model.Database.{Store}

-- The exceptions that the services raise or let through.
pub data Error : Type 0 where
  not_found coin_unavailable reward_unavailable purchase_unavailable invalid_callback : Error
  authentication_failed token_revoked reauthentication_required integrity_error validation_error
        verification_unavailable video_unavailable :
      Error

-- A service ends with a value and the committed store, or raises: its `transaction.atomic` block
-- is then rolled back, so there is no new store.
pub data Outcome (A : Type 0) : Type 0 where
  ok : A → Store → Outcome A
  err : Error → Outcome A

abbrev pub Action : Type 0 → Type 0
Action A = Store → Outcome A

module _ {A : Type 0} where
  unfoldable pub pure : A → Action A
  pure a s = ok a s

  unfoldable pub raise : Error → Action A
  raise e s = err e

  unfoldable pub gets : (Store → A) → Action A
  gets f s = ok (f s) s

  unfoldable pub or_raise : Option A → Error → Action A
  or_raise none e s = err e
  or_raise (some a) e s = ok a s

unfoldable pub raise_if : Bool → Error → Action (Unit {0})
raise_if true e s = err e
raise_if false e s = ok tt s

unfoldable pub modify : (Store → Store) → Action (Unit {0})
modify f s = ok tt (f s)

-- `uuid4()`, `token_urlsafe` and a new primary key.
unfoldable pub fresh : Action ℕ
fresh s = ok s.next_id (record s { next_id = suc s.next_id })

abbrev continue : {A B : Type 0} → Outcome A → (A → Action B) → Outcome B
continue (ok a s) f = f a s
continue (err e) f = err e

infixl 5 ◌>>=◌ ◌>>◌
-- To unfold this is to unfold the primitive actions too.
unfoldable pub ◌>>=◌ : {A B : Type 0} → Action A → (A → Action B) → Action B
unfolding pure raise gets or_raise raise_if modify fresh
◌>>=◌ m f s = continue (m s) f

abbrev pub ◌>>◌ : {B : Type 0} → Action (Unit {0}) → Action B → Action B
m >> k = m >>= λ _. k

pub Outcome-cases :
    {A : Type 0} (o : Outcome A)
    → ((a : A) × (s : Store) × (o ≡ ok a s)) ⊎ ((e : Error) × (o ≡ err e))
Outcome-cases (ok a s) = inl (a, s, refl)
Outcome-cases (err e) = inr (e, refl)

-- A chain that ends has gone through its first step.
pub bind_ok :
    {A B : Type 0} (m : Action A) (f : A → Action B) (db db' : Store) (b : B)
    → (m >>= f) db ≡ ok b db'
    → (a : A) × (mid : Store) × (m db ≡ ok a mid) × (f a mid ≡ ok b db')
unfolding ◌>>=◌
bind_ok m f db db' b h = elim (Outcome-cases (m db)) [
  | inr (e, failed) ↦ absurd (ground (arith, failed))
  | inl (a, mid, done) ↦ (a, mid, done, rw done at h)
]

pub raise_if_ok :
    (t : Bool) (e : Error) (db db' : Store) (u : Unit {0})
    → raise_if t e db ≡ ok u db'
    → (t ≡ false) × (db' ≡ db)
unfolding raise_if
raise_if_ok true e db db' u h = absurd (cc h)
raise_if_ok false e db db' u h = (refl, ground (arith, h))

pub or_raise_ok :
    {A : Type 0} (o : Option A) (e : Error) (db db' : Store) (a : A)
    → or_raise o e db ≡ ok a db'
    → (o ≡ some a) × (db' ≡ db)
unfolding or_raise
or_raise_ok none e db db' a h = absurd (cc h)
or_raise_ok (some x) e db db' a h = (ground (arith, h), ground (arith, h))

pub gets_ok :
    {A : Type 0} (f : Store → A) (db db' : Store) (a : A)
    → gets f db ≡ ok a db'
    → (f db ≡ a) × (db' ≡ db)
unfolding gets
gets_ok f db db' a h = (ground (arith, h), ground (arith, h))

-- What holds of the committed store, if there is one.
abbrev pub After : {A : Type 0} → (Store → Type 0) → Outcome A → Type 0
After P (ok a s) = P s
After P (err e) = Unit

pub record Keeps {A : Type 0} (P : Store → Type 0) (m : Action A) : Type 0 where
  pub at : (s : Store) → P s → After P (m s)

module _ {P : Store → Type 0} where
  After-bind :
      {A B : Type 0} (f : A → Action B) (r : Outcome A)
      → ((a : A) → Keeps P (f a))
      → After P r
      → After P (continue r f)
  After-bind f (ok a s) kf h = (kf a).at s h
  After-bind f (err e) kf h = tt

  pub Keeps-bind :
      {A B : Type 0} {m : Action A} {f : A → Action B}
      → Keeps P m
      → ((a : A) → Keeps P (f a))
      → Keeps P (m >>= f)
  unfolding ◌>>=◌
  Keeps-bind {m = m} {f = f} km kf = record { at = λ s h. After-bind f (m s) kf (km.at s h) }

  pub Keeps-pure : {A : Type 0} (a : A) → Keeps P (pure a)
  unfolding pure
  Keeps-pure a = record { at = λ s h. h }

  pub Keeps-raise : {A : Type 0} (e : Error) → Keeps P (raise {A = A} e)
  unfolding raise
  Keeps-raise e = record { at = λ s h. tt }

  pub Keeps-gets : {A : Type 0} (f : Store → A) → Keeps P (gets f)
  unfolding gets
  Keeps-gets f = record { at = λ s h. h }

  pub Keeps-or_raise : {A : Type 0} (o : Option A) (e : Error) → Keeps P (or_raise o e)
  unfolding or_raise
  Keeps-or_raise none e = record { at = λ s h. tt }
  Keeps-or_raise (some a) e = record { at = λ s h. h }

  pub Keeps-raise_if : (b : Bool) (e : Error) → Keeps P (raise_if b e)
  unfolding raise_if
  Keeps-raise_if true e = record { at = λ s h. tt }
  Keeps-raise_if false e = record { at = λ s h. h }

  pub Keeps-modify : (f : Store → Store) → ((s : Store) → P s → P (f s)) → Keeps P (modify f)
  unfolding modify
  Keeps-modify f k = record { at = k }

pub ruleset keeps_rules =
    (Keeps-bind, Keeps-pure, Keeps-raise, Keeps-gets, Keeps-or_raise, Keeps-raise_if)
