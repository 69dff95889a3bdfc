-- ===== src/Exec/Returns.antt =====
-- An action that returned, read back: each part of it returned too.
use firemig.Prelude.{◌≡◌, ◌⊎◌, refl, inl, inr, Bool, true, false, if◌then◌else◌}
use firemig.Common.Errors.{Thrown}
use firemig.Exec.{
  pure, lift, catch, Settled, fulfilled, rejected, Exec, Settled-cases, gets, refuse, ◌>>=◌,
  finally,
}

-- `m` returned `a` from `s`, and left `t`.
abbrev pub Returns : {S A : Type 0} → Exec S A → S → A → S → Type 0
Returns m s a t = m s ≡ (fulfilled a, t)

module _ {S A B : Type 0} where
  pub Returns-bind :
      (m : Exec S A) (f : A → Exec S B) (s t : S) (b : B)
      → Returns (m >>= f) s b t
      → (a : A) × (u : S) × Returns m s a u × Returns (f a) u b t
  unfolding ◌>>=◌
  Returns-bind m f s t b h = elim (Settled-cases (m s)) [
    | inl (a, u, e) ↦ (a, u, e, rw e at h)
    | inr (x, u, e) ↦ let q : Returns (λ v. (rejected x, u)) s b t = rw e at h in absurd (cc)
  ]

module _ {S A : Type 0} where
  pub Returns-finally :
      (m : Exec S A) (f : Exec S (Unit {0})) (s t : S) (a : A)
      → Returns (finally m f) s a t
      → (u : S) × (c : Unit {0}) × Returns m s a u × Returns f u c t
  unfolding finally
  Returns-finally m f s t a h = elim (Settled-cases (m s)) [
    | inl (b, u, e) ↦ elim (Settled-cases (f u)) [
      | inl (c, v, g) ↦
          let q : Returns (λ w. (fulfilled b, v)) s a t = rw (e, g) at h in (u, c, cc, cc)
      | inr (x, v, g) ↦
          let q : Returns {A = A} (λ w. (rejected x, v)) s a t = rw (e, g) at h in absurd (cc)
    ]
    | inr (x, u, e) ↦ elim (Settled-cases (f u)) [
      | inl (c, v, g) ↦
          let q : Returns {A = A} (λ w. (rejected x, v)) s a t = rw (e, g) at h in absurd (cc)
      | inr (y, v, g) ↦
          let q : Returns {A = A} (λ w. (rejected y, v)) s a t = rw (e, g) at h in absurd (cc)
    ]
  ]

module _ {S A : Type 0} where
  pub Returns-catch :
      (m : Exec S A) (f : Thrown → Exec S A) (s t : S) (a : A)
      → Returns (catch m f) s a t
      → Returns m s a t ⊎ (x : Thrown) × (u : S) × (m s ≡ (rejected x, u)) × Returns (f x) u a t
  unfolding catch
  Returns-catch m f s t a h = elim (Settled-cases (m s)) [
    | inl (b, u, e) ↦ let q : Returns (λ (w : S). (fulfilled b, u)) s a t = rw e at h in inl (cc)
    | inr (x, u, e) ↦ inr (x, u, e, rw e at h)
  ]

  pub Returns-if :
      (test : Bool) (m n : Exec S A) (s t : S) (a : A)
      → Returns (if test then m else n) s a t
      → ((test ≡ true) × Returns m s a t) ⊎ ((test ≡ false) × Returns n s a t)
  Returns-if true m n s t a h = inl (refl, h)
  Returns-if false m n s t a h = inr (refl, h)

  pub Returns-pure : (b : A) (s t : S) (a : A) → Returns (pure b) s a t → (a ≡ b) × (t ≡ s)
  unfolding pure
  Returns-pure b s t a h = (cc, cc)

  pub Returns-lift :
      (r : Settled A) (s t : S) (a : A) → Returns (lift r) s a t → (r ≡ fulfilled a) × (t ≡ s)
  unfolding lift
  Returns-lift r s t a h = (cc, cc)

module _ {S A B : Type 0} where
  pub Returns-gets :
      (view : S → A) (f : A → Exec S B) (s t : S) (b : B)
      → Returns (gets view >>= f) s b t
      → Returns (f (view s)) s b t
  unfolding ◌>>=◌
  Returns-gets view f s t b h = h

module _ {S B : Type 0} where
  pub Returns-refuse :
      (b : Bool) (x : Thrown) (f : Unit {0} → Exec S B) (s t : S) (a : B)
      → Returns (refuse b x >>= f) s a t
      → (b ≡ false) × Returns (f tt) s a t
  unfolding ◌>>=◌
  Returns-refuse true x f s t a h =
      let q : Returns (λ (w : S). (rejected x, w)) s a t = h in absurd (cc)
  Returns-refuse false x f s t a h = (refl, h)
