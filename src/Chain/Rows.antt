-- ===== src/Chain/Rows.antt =====
-- Rows that an update, a delete or a test leaves alone.
use btc_idx_service.Sql.{count, update, delete}
use btc_idx_service.Prelude.{
  [], true, false, ◌∷◌, ◌≡◌, ◌++◌, ◌&&◌, refl, arith, List, Bool, if◌then◌else◌, All, ap, exists,
  All-mono, not, inl, inr, Bool-cases,
}

pub true≢false : true ≡ false → ⊥
true≢false e = cc

module _ {A : Type 0} where
  pub exists-none : (p : A → Bool) (xs : List A) → All (λ x. p x ≡ false) xs → exists p xs ≡ false
  exists-none p [] h = refl
  exists-none p (x ∷ xs) h = rw (h.0) (exists-none p xs h.1)

  -- Of two parts of a table, a test that also asks for the first part looks at this part alone.
  pub exists-append :
      (p q : A → Bool) (xs ys : List A)
      → All (λ x. p x ≡ true) xs
      → All (λ x. p x ≡ false) ys
      → exists (λ x. p x && q x) (xs ++ ys) ≡ exists q xs
  exists-append p q [] ys hx hy =
      exists-none (λ x. p x && q x) ys
        (All-mono (λ x. p x ≡ false) (λ x. (p x && q x) ≡ false) ys (λ x e. rw e refl) hy)
  exists-append p q (x ∷ xs) ys hx hy =
      rw (hx.0) (ap (λ b. if q x then true else b) (exists-append p q xs ys hx.1 hy))

  pub delete-none : (p : A → Bool) (xs : List A) → All (λ x. p x ≡ false) xs → delete p xs ≡ xs
  delete-none p [] h = refl
  delete-none p (x ∷ xs) h = rw (h.0) (ap (λ l. x ∷ l) (delete-none p xs h.1))

  pub delete-append :
      (p : A → Bool) (xs ys : List A)
      → All (λ x. p x ≡ true) xs
      → All (λ x. p x ≡ false) ys
      → delete p (xs ++ ys) ≡ ys
  delete-append p [] ys hx hy = delete-none p ys hy
  delete-append p (x ∷ xs) ys hx hy = rw (hx.0) (delete-append p xs ys hx.1 hy)

  pub delete_ext :
      (p q : A → Bool) (xs : List A) → ((x : A) → p x ≡ q x) → delete p xs ≡ delete q xs
  delete_ext p q [] h = refl
  delete_ext p q (x ∷ xs) h =
      rw (h x) (ap (λ l. if not (q x) then x ∷ l else l) (delete_ext p q xs h))

  pub update-none : (p : A → Bool) (f : A → A) (xs : List A) → count p xs ≡ 0 → update p f xs ≡ xs
  update-none p f [] h = refl
  update-none p f (x ∷ xs) h = ground (arith, update-none p f xs)

  pub update-append :
      (p : A → Bool) (f : A → A) (xs ys : List A)
      → update p f (xs ++ ys) ≡ update p f xs ++ update p f ys
  update-append p f [] ys = refl
  update-append p f (x ∷ xs) ys = ap (λ l. (if p x then f x else x) ∷ l) (update-append p f xs ys)

  pub count-none : (p : A → Bool) (xs : List A) → exists p xs ≡ false → count p xs ≡ 0
  count-none p [] h = refl
  count-none p (x ∷ xs) h = ground (arith, count-none p xs)

  pub exists-update :
      (p q : A → Bool) (f : A → A) (xs : List A)
      → ((x : A) → q (f x) ≡ q x)
      → exists q (update p f xs) ≡ exists q xs
  exists-update p q f [] k = refl
  exists-update p q f (x ∷ xs) k = elim (Bool-cases (p x)) [
    | inl e ↦ rw (e, k x) (ap (λ b. if q x then true else b) (exists-update p q f xs k))
    | inr e ↦ rw e (ap (λ b. if q x then true else b) (exists-update p q f xs k))
  ]

  -- What passes one test and not the other is among the rows that are not deleted.
  pub exists-delete :
      (p q : A → Bool) (xs : List A)
      → exists q xs ≡ true
      → exists (λ x. p x && q x) xs ≡ false
      → exists q (delete p xs) ≡ true
  exists-delete p q [] h k = h
  exists-delete p q (x ∷ xs) h k = elim (Bool-cases (p x)) [
    | inl e ↦ elim (Bool-cases (q x)) [
      | inl f ↦ absurd (both e f)
      | inr f ↦ rw e (exists-delete p q xs (rw (f) at (h)) (rw (e, f) at (k)))
    ]
    | inr e ↦ elim (Bool-cases (q x)) [
      | inl f ↦ rw (e, f) refl
      | inr f ↦ rw (e, f) (exists-delete p q xs (rw (f) at (h)) (rw (e) at (k)))
    ]
  ]
    where
      both : p x ≡ true → q x ≡ true → ⊥
      both e f = true≢false (rw (e, f) at (k))

  pub All-delete {κ} :
      (P Q : A → Type κ) (p : A → Bool) (xs : List A)
      → ((x : A) → p x ≡ false → P x → Q x)
      → All P xs
      → All Q (delete p xs)
  All-delete P Q p [] k h = tt
  All-delete P Q p (x ∷ xs) k h = elim (Bool-cases (p x)) [
    | inl e ↦ rw e (All-delete P Q p xs k h.1)
    | inr e ↦ rw e (k x e h.0, All-delete P Q p xs k h.1)
  ]

  pub All-update {κ} :
      (P Q : A → Type κ) (p : A → Bool) (f : A → A) (xs : List A)
      → ((x : A) → P x → Q x)
      → ((x : A) → P x → Q (f x))
      → All P xs
      → All Q (update p f xs)
  All-update P Q p f [] k l h = tt
  All-update P Q p f (x ∷ xs) k l h = elim (Bool-cases (p x)) [
    | inl e ↦ rw e (l x h.0, All-update P Q p f xs k l h.1)
    | inr e ↦ rw e (k x h.0, All-update P Q p f xs k l h.1)
  ]

  pub exists-delete_none :
      (q p : A → Bool) (xs : List A) → exists q xs ≡ false → exists q (delete p xs) ≡ false
  exists-delete_none q p [] h = refl
  exists-delete_none q p (x ∷ xs) h = ground (arith, exists-delete_none q p xs)

  pub exists_ext :
      (p q : A → Bool) (xs : List A) → ((x : A) → p x ≡ q x) → exists p xs ≡ exists q xs
  exists_ext p q [] h = refl
  exists_ext p q (x ∷ xs) h = rw (h x) (ap (λ b. if q x then true else b) (exists_ext p q xs h))

  pub exists-cons :
      (q : A → Bool) (x : A) (xs : List A) → exists q xs ≡ true → exists q (x ∷ xs) ≡ true
  exists-cons q x xs h = ground arith

  pub All-exists : (p : A → Bool) (xs : List A) → exists p xs ≡ false → All (λ x. p x ≡ false) xs
  All-exists p [] h = tt
  All-exists p (x ∷ xs) h = elim (Bool-cases (p x)) [
    | inl e ↦ absurd (true≢false (rw (e) at (h)))
    | inr e ↦ (e, All-exists p xs (rw (e) at (h)))
  ]
