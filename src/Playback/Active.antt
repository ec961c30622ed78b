-- ===== src/Playback/Active.antt =====
-- The rows in flight of one episode, and the saves of backend/apps/playback/models.py.
use mathlib.Core.List.{Memᴰ}
use shortform_streaming.Prelude.{
  ◌≡◌, ◌∙◌, refl, sym, ap, Bool, true, false, ◌&&◌, some, List, [], ◌∷◌, map, any, arith, ◌==◌,
  ==_refl, Bool-cases, Option-cases, inl, inr, if◌then◌else◌,
}
use shortform_streaming.Model.{
  MediaAsset, MediaAssetState, Diagnostic, Environment, Store, Error, Action, Outcome, ok, err,
  After, Keeps, Keeps-bind, Keeps-pure, Keeps-modify, keeps_rules, modify, ◌>>=◌, pending_upload,
  uploaded, processing, ready, failed, blocked, removed,
}
use shortform_streaming.Playback.Assets.{
  in_flight, transition_to, has_other_active, put_asset, save_asset, failed_asset, mark_failed,
}
use shortform_streaming.Playback.Polling.{or_handle, catch_integrity}

-- Two rows in flight of one episode are one row.
pub record IsOneActive (db : Store) : Type 0 where
  pub same_row :
      (x y : MediaAsset)
      → Memᴰ x db.assets
      → Memᴰ y db.assets
      → x.episode_id ≡ y.episode_id
      → in_flight x.state ≡ true
      → in_flight y.state ≡ true
      → x.pk ≡ y.pk

module _ {A B : Type 0} where
  mem_map : (f : A → B) (xs : List A) (y : B) → Memᴰ y (map f xs) → (x : A) × Memᴰ x xs × (y ≡ f x)
  mem_map f [] y m = elim m [ ]
  mem_map f (x ∷ xs) y (Memᴰ.head e) = (x, Memᴰ.head refl, e)
  mem_map f (x ∷ xs) y (Memᴰ.tail m) = let (z, n, e) = mem_map f xs y m in (z, Memᴰ.tail n, e)

any_of_member :
    {A : Type 0} (p : A → Bool) (xs : List A) (x : A) → Memᴰ x xs → p x ≡ true → any p xs ≡ true
any_of_member p [] x m h = elim m [ ]
any_of_member p (y ∷ ys) x (Memᴰ.head e) h = let first : p y ≡ true = rw e at h in rw first refl
any_of_member p (y ∷ ys) x (Memᴰ.tail m) h = ground (arith, any_of_member p ys x m h)

module _ (a : MediaAsset) (db : Store) (safe : IsOneActive db) where
  -- A row beside the one that is saved.
  pub beside :
      (y : MediaAsset)
      → Memᴰ y db.assets
      → (y.pk == a.pk) ≡ false
      → y.episode_id ≡ a.episode_id
      → in_flight y.state ≡ true
      → has_other_active a db ≡ true
  unfolding has_other_active
  beside y m other same flying =
      any_of_member _ db.assets y m (ground (arith, ==_refl a.episode_id))

  pub put_one :
      (in_flight a.state ≡ true → has_other_active a db ≡ false) → IsOneActive (put_asset a db)
  unfolding put_asset
  put_one alone = record {
    same_row = λ x y mx my same fx fy.
        let (x0, nx, ex) = mem_map _ db.assets x mx in
        let (y0, ny, ey) = mem_map _ db.assets y my in pairs x y x0 y0 nx ny ex ey same fx fy;
  }
    where
      pairs :
          (x y x0 y0 : MediaAsset)
          → Memᴰ x0 db.assets
          → Memᴰ y0 db.assets
          → x ≡ (if x0.pk == a.pk then a else x0)
          → y ≡ (if y0.pk == a.pk then a else y0)
          → x.episode_id ≡ y.episode_id
          → in_flight x.state ≡ true
          → in_flight y.state ≡ true
          → x.pk ≡ y.pk
      pairs x y x0 y0 nx ny ex ey same fx fy = elim (Bool-cases (x0.pk == a.pk)) [
        | inl px ↦
            let hx : x ≡ a = rw px at ex in
            elim (Bool-cases (y0.pk == a.pk)) [
              | inl py ↦ let hy : y ≡ a = rw py at ey in ap (λ z. z.pk) (hx ∙ sym hy)
              | inr py ↦
                  let hy : y ≡ y0 = rw py at ey in
                  absurd (
                    cc (
                      beside y0 ny py
                          (sym (ap (λ z. z.episode_id) hy) ∙ sym same ∙ ap (λ z. z.episode_id) hx)
                          (rw hy at fy),
                      alone (rw hx at fx),
                    ))
            ]
        | inr px ↦
            let hx : x ≡ x0 = rw px at ex in
            elim (Bool-cases (y0.pk == a.pk)) [
              | inl py ↦
                  let hy : y ≡ a = rw py at ey in
                  absurd (
                    cc (
                      beside x0 nx px
                          (sym (ap (λ z. z.episode_id) hx) ∙ same ∙ ap (λ z. z.episode_id) hy)
                          (rw hx at fx),
                      alone (rw hy at fy),
                    ))
              | inr py ↦
                  let hy : y ≡ y0 = rw py at ey in
                  ap (λ z. z.pk) hx
                  ∙ safe.same_row x0 y0 nx ny
                      (sym (ap (λ z. z.episode_id) hx) ∙ same ∙ ap (λ z. z.episode_id) hy)
                      (rw hx at fx) (rw hy at fy)
                  ∙ sym (ap (λ z. z.pk) hy)
            ]
      ]

pub save_asset-IsOneActive : (a : MediaAsset) → Keeps IsOneActive (save_asset a)
unfolding save_asset ◌>>=◌
save_asset-IsOneActive a = record {
  at = λ db h. elim (Bool-cases (in_flight a.state && has_other_active a db)) [
    | inl refused ↦ rw refused tt
    | inr free ↦ rw free (put_one a db h (λ flying. ground (arith, flying, free)))
  ];
}

failed_asset-state :
    (d : Diagnostic) (a f : MediaAsset) → failed_asset d a ≡ some f → in_flight f.state ≡ false
unfolding failed_asset transition_to
failed_asset-state d a f h = ground arith

pub mark_failed-IsOneActive :
    (d : Diagnostic) (a : MediaAsset) → Keeps IsOneActive (mark_failed d a)
unfolding mark_failed ◌>>=◌
mark_failed-IsOneActive d a = record {
  at = λ db h. elim (Option-cases (failed_asset d a)) [
    | inl illegal ↦ rw illegal tt
    | inr (f, legal) ↦
        rw legal (put_one f db h (λ flying. absurd (cc (flying, failed_asset-state d a f legal))))
  ];
}

After-handle :
    {A : Type 0} (o : Outcome A) (handler : Action A) (db : Store)
    → Keeps IsOneActive handler
    → IsOneActive db
    → After IsOneActive o
    → After IsOneActive (or_handle o handler db)
unfolding or_handle
After-handle (ok a s) handler db k h o = o
After-handle (err Error.integrity_error) handler db k h o = k.at db h
After-handle (err Error.not_found) handler db k h o = tt
After-handle (err Error.coin_unavailable) handler db k h o = tt
After-handle (err Error.reward_unavailable) handler db k h o = tt
After-handle (err Error.purchase_unavailable) handler db k h o = tt
After-handle (err Error.invalid_callback) handler db k h o = tt
After-handle (err Error.authentication_failed) handler db k h o = tt
After-handle (err Error.token_revoked) handler db k h o = tt
After-handle (err Error.reauthentication_required) handler db k h o = tt
After-handle (err Error.verification_unavailable) handler db k h o = tt
After-handle (err Error.video_unavailable) handler db k h o = tt
After-handle (err Error.validation_error) handler db k h o = tt

pub catch_integrity-IsOneActive :
    {A : Type 0} {body handler : Action A}
    → Keeps IsOneActive body
    → Keeps IsOneActive handler
    → Keeps IsOneActive (catch_integrity body handler)
unfolding catch_integrity
catch_integrity-IsOneActive {body = body} {handler = handler} kb kh = record {
  at = λ db h. After-handle (body db) handler db kh h (kb.at db h);
}

pub ruleset active_rules =
    (keeps_rules, save_asset-IsOneActive, mark_failed-IsOneActive, catch_integrity-IsOneActive)
