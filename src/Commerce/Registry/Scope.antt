-- ===== src/Commerce/Registry/Scope.antt =====
-- What backend/apps/commerce/configuration.py admits as a registry of products.
use mathlib.Core.List.{Memᴰ, reverse_aux}
use text.Mathlib.Text.{◌==◌ as str_eq}
use text.Mathlib.TextEquality.{eq_iff}
use shortform_streaming.Prelude.{
  String, ◌≤◌, ◌≡◌, refl, sym, ap, subst, ◌↔◌, ◌⊎◌, inl, inr, Bool, true, false, not, ◌&&◌, some,
  List, [], ◌∷◌, reverse, any, find, arith, Bool-cases,
}
use shortform_streaming.Prelude.Options.{◌>>=◌, bind_some, passed_check}
use shortform_streaming.Model.{PurchaseMode}
use shortform_streaming.Model.JsonValues.{Json, Items, empty_list, item, as_list, as_object}
use shortform_streaming.Commerce.Registry.{
  RegisteredProduct, AppBinding, Loaded, is_seen, binding_of, bound_otherwise, taken_by_another,
  add_product, load_row, accepts_product, load_rows, load_products, registry_mode, approved_scope,
  read_row, checked, fits, is_bounded,
}

module _ {ℓ} {A : Type ℓ} where
  any_none : (r : A → Bool) (xs : List A) (x : A) → any r xs ≡ false → Memᴰ x xs → r x ≡ false
  any_none r [] x none_holds m = elim m [ ]
  any_none r (y ∷ ys) x none_holds (Memᴰ.head e) = subst (λ z. r z ≡ false) (sym e) (ground arith)
  any_none r (y ∷ ys) x none_holds (Memᴰ.tail m) = any_none r ys x (ground arith) m

  find_none :
      (r s : A → Bool) (xs : List A) (x : A) → any r xs ≡ false → find s xs ≡ some x → r x ≡ false
  find_none r s [] x none_holds found = absurd (cc found)
  find_none r s (y ∷ ys) x none_holds found = ground (arith, find_none r s ys x)

  Mem-reverse_aux : (x : A) (xs acc : List A) → Memᴰ x (reverse_aux xs acc) → Memᴰ x xs ⊎ Memᴰ x acc
  Mem-reverse_aux x [] acc m = inr m
  Mem-reverse_aux x (y ∷ ys) acc m = elim (Mem-reverse_aux x ys (y ∷ acc) m) [
    | inl t ↦ inl (Memᴰ.tail t)
    | inr (Memᴰ.head e) ↦ inl (Memᴰ.head e)
    | inr (Memᴰ.tail t) ↦ inr t
  ]

  at_cons {κ} :
      (P : A → Type κ) (x : A) (xs : List A)
      → P x
      → ((y : A) → Memᴰ y xs → P y)
      → (y : A) → Memᴰ y (x ∷ xs)
      → P y
  at_cons P x xs here there y (Memᴰ.head e) = subst P (sym e) here
  at_cons P x xs here there y (Memᴰ.tail m) = there y m

abbrev binding : RegisteredProduct → AppBinding
binding p = record { app_id = p.app_id; application_id = p.application_id }

-- The products of a loop that has not failed.
record IsRegistry (test : Bool) (l : Loaded) : Type 0 where
  accepted : (p : RegisteredProduct) → Memᴰ p l.products → accepts_product test p ≡ true
  bound :
      (p : RegisteredProduct)
      → Memᴰ p l.products
      → binding_of p.app_id l.app_bindings ≡ some (binding p)
  one_key :
      (p q : RegisteredProduct)
      → Memᴰ p l.products
      → Memᴰ q l.products
      → p.app_id ≡ q.app_id
      → p.product_id ≡ q.product_id
      → p ≡ q
  one_app :
      (p q : RegisteredProduct)
      → Memᴰ p l.products
      → Memᴰ q l.products
      → p.application_id ≡ q.application_id
      → p.app_id ≡ q.app_id

str_eq_refl : (s : String) → str_eq s s ≡ true
str_eq_refl s = (eq_iff s s).1 refl

str_eq_of : (s t : String) → s ≡ t → str_eq s t ≡ true
str_eq_of s t e = (eq_iff s t).1 e

module _ (test : Bool) (l : Loaded) (h : IsRegistry test l) (p : RegisteredProduct)
    (unseen : is_seen p l.products ≡ false) (bound_same : bound_otherwise p l.app_bindings ≡ false)
    (untaken : taken_by_another p l.app_bindings ≡ false) where
  new_key :
      (q : RegisteredProduct)
      → Memᴰ q l.products
      → q.app_id ≡ p.app_id
      → q.product_id ≡ p.product_id
      → p ≡ q
  new_key q m a b =
      let unlike =
        any_none (λ q. str_eq q.app_id p.app_id && str_eq q.product_id p.product_id) l.products q
          unseen m in
      absurd (
        ground
          (arith, unlike, str_eq_of q.app_id p.app_id a, str_eq_of q.product_id p.product_id b))

  new_application :
      (q : RegisteredProduct)
      → Memᴰ q l.products
      → q.app_id ≡ p.app_id
      → q.application_id ≡ p.application_id
  new_application q m a =
      let known : binding_of p.app_id l.app_bindings ≡ some (binding q) = rw (← a) (h.bound q m) in
      (eq_iff q.application_id p.application_id).0 (ground (arith, known, bound_same))

  new_app :
      (q : RegisteredProduct)
      → Memᴰ q l.products
      → q.application_id ≡ p.application_id
      → q.app_id ≡ p.app_id
  new_app q m a =
      let other =
        find_none (λ b. not (str_eq b.app_id p.app_id) && str_eq b.application_id p.application_id)
          _ l.app_bindings (binding q) untaken (h.bound q m) in
      (eq_iff q.app_id p.app_id).0
        (ground (arith, other, str_eq_of q.application_id p.application_id a))

  added-bound :
      (q : RegisteredProduct)
      → Memᴰ q l.products
      → binding_of q.app_id (binding p ∷ l.app_bindings) ≡ some (binding q)
  added-bound q m = elim (Bool-cases (str_eq p.app_id q.app_id)) [
    | inr other ↦ rw other (h.bound q m)
    | inl same ↦
        let e : p.app_id ≡ q.app_id = (eq_iff p.app_id q.app_id).0 same in
        let e2 : q.application_id ≡ p.application_id = new_application q m (sym e) in
        rw same (cc (e, e2))
  ]

  -- A row that passes the checks keeps the registry consistent.
  added-IsRegistry :
      accepts_product test p ≡ true
      → IsRegistry test
          (record { products = p ∷ l.products; app_bindings = binding p ∷ l.app_bindings })
  added-IsRegistry good = record {
    accepted = at_cons (λ q. accepts_product test q ≡ true) p l.products good h.accepted;
    bound =
        at_cons (λ q. binding_of q.app_id (binding p ∷ l.app_bindings) ≡ some (binding q)) p
          l.products (rw (str_eq_refl p.app_id) refl) added-bound;
    one_key = λ q r m n.
        at_cons (λ q. q.app_id ≡ r.app_id → q.product_id ≡ r.product_id → q ≡ r) p l.products
          (at_cons (λ r. p.app_id ≡ r.app_id → p.product_id ≡ r.product_id → p ≡ r) p l.products
            (λ a b. refl) (λ r n a b. new_key r n (sym a) (sym b)) r n)
          (λ q m.
            at_cons (λ r. q.app_id ≡ r.app_id → q.product_id ≡ r.product_id → q ≡ r) p l.products
              (λ a b. sym (new_key q m a b)) (λ r n. h.one_key q r m n) r n)
          q m;
    one_app = λ q r m n.
        at_cons (λ q. q.application_id ≡ r.application_id → q.app_id ≡ r.app_id) p l.products
          (at_cons (λ r. p.application_id ≡ r.application_id → p.app_id ≡ r.app_id) p l.products
            (λ a. refl) (λ r n a. sym (new_app r n (sym a))) r n)
          (λ q m.
            at_cons (λ r. q.application_id ≡ r.application_id → q.app_id ≡ r.app_id) p l.products
              (new_app q m) (λ r n. h.one_app q r m n) r n)
          q m;
  }

load_row-accepted :
    (test : Bool) (row : Json) (p : RegisteredProduct)
    → load_row test row ≡ some p
    → accepts_product test p ≡ true
unfolding load_row
load_row-accepted test row p h =
    let (fields, is_dict, h1) = bind_some (as_object row) _ p h in
    let (known, h2) = passed_check (fits test fields) (read_row fields >>= checked test) p h1 in
    let (q, read, h3) = bind_some (read_row fields) (checked test) p h2 in
    let (good, same) = passed_check (accepts_product test q) (some q) p h3 in
    let e : q ≡ p = ground arith in subst (λ x. accepts_product test x ≡ true) e good

add_product-IsRegistry :
    (test : Bool) (p : RegisteredProduct) (l out : Loaded)
    → accepts_product test p ≡ true
    → IsRegistry test l
    → add_product p l ≡ some out
    → IsRegistry test out
unfolding add_product
add_product-IsRegistry test p l out good h run =
    let unseen : is_seen p l.products ≡ false = ground arith in
    let same_app : bound_otherwise p l.app_bindings ≡ false = ground arith in
    let untaken : taken_by_another p l.app_bindings ≡ false = ground arith in
    let e : record { products = p ∷ l.products; app_bindings = binding p ∷ l.app_bindings } ≡ out =
      ground arith in
    subst (IsRegistry test) e (added-IsRegistry test l h p unseen same_app untaken good)

load_rows-IsRegistry :
    (test : Bool) (rows : Items) (l out : Loaded)
    → IsRegistry test l
    → load_rows test rows l ≡ some out
    → IsRegistry test out
unfolding load_rows
load_rows-IsRegistry test empty_list l out h run =
    let same : l ≡ out = ground arith in subst (IsRegistry test) same h
load_rows-IsRegistry test (item row rows) l out h run =
    let (p, loaded, run1) = bind_some (load_row test row) _ out run in
    let (mid, joined, run2) = bind_some (add_product p l) _ out run1 in
    load_rows-IsRegistry test rows mid out
      (add_product-IsRegistry test p l mid (load_row-accepted test row p loaded) h joined) run2

abbrev start : Loaded
start = record { products = []; app_bindings = [] }

empty-IsRegistry : (test : Bool) → IsRegistry test start
empty-IsRegistry test = record {
  accepted = λ p m. elim m [ ];
  bound = λ p m. elim m [ ];
  one_key = λ p q m n. elim m [ ];
  one_app = λ p q m n. elim m [ ];
}

-- The registry of `load_products`, newest first, and the test mode that it was loaded in.
record RegistryRun (mode : PurchaseMode) (ps : List RegisteredProduct) : Type 0 where
  test : Bool
  known : registry_mode mode ≡ some test
  loaded : Loaded
  registry : IsRegistry test loaded
  listed : reverse loaded.products ≡ ps

module _ (mode : PurchaseMode) (value : Json) (ps : List RegisteredProduct)
    (run : load_products mode value ≡ some ps) where
  registry_run : RegistryRun mode ps
  unfolding load_products
  registry_run =
      let (test, known, run1) = bind_some (registry_mode mode) _ ps run in
      let (rows, is_array, run2) = bind_some (as_list value) _ ps run1 in
      let (bounded, run3) =
        passed_check (is_bounded rows)
          (load_rows test rows start >>= λ l. some (reverse l.products)) ps run2 in
      let (out, loaded, run4) = bind_some (load_rows test rows start) _ ps run3 in
      record {
        test = test;
        known = known;
        loaded = out;
        registry = load_rows-IsRegistry test rows start out (empty-IsRegistry test) loaded;
        listed = ground arith;
      }

  listed_product : (p : RegisteredProduct) → Memᴰ p ps → Memᴰ p registry_run.loaded.products
  listed_product p m =
      elim (Mem-reverse_aux p registry_run.loaded.products []
        (subst (Memᴰ p) (sym registry_run.listed) m)) [ inl t ↦ t | inr t ↦ elim t [ ] ]

  -- In a registry that loads, an app and a store product name one row, an app has one application
  -- and an application one app.
  pub load_products-keys :
      (p q : RegisteredProduct)
      → Memᴰ p ps
      → Memᴰ q ps
      → (((p.app_id ≡ q.app_id) × (p.product_id ≡ q.product_id)) ↔ (p ≡ q))
        × ((p.app_id ≡ q.app_id) ↔ (p.application_id ≡ q.application_id))
  load_products-keys p q m n =
      let r = registry_run.registry in
      let m' = listed_product p m in
      let n' = listed_product q n in
      (
        (λ e. r.one_key p q m' n' e.0 e.1, λ e. (ap (λ x. x.app_id) e, ap (λ x. x.product_id) e)),
        (λ e. ground (arith, r.bound p m', r.bound q n', e), λ e. r.one_app p q m' n' e),
      )

  -- Each product of a registry that loads passes the checks of the mode's own scope, and has from
  -- 1 to 2147483647 coins.
  pub load_products-accepted :
      (test : Bool) (p : RegisteredProduct)
      → registry_mode mode ≡ some test
      → Memᴰ p ps
      → (approved_scope test p ≡ true) × (1 ≤ p.coins) × (p.coins ≤ 2147483647)
  unfolding accepts_product
  load_products-accepted test p known m =
      let r = registry_run in
      let same : r.test ≡ test = ground (arith, r.known) in
      let good =
        subst (λ t. accepts_product t p ≡ true) same (r.registry.accepted p (listed_product p m)) in
      ground (arith, good)
