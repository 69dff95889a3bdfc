-- ===== src/Exec.antt =====
-- Asynchronous methods that mutate shared state and may reject. What was written before a
-- rejection stays written, so the state comes back beside the error too.
pub mod Keeps
pub mod Returns
use mathlib.Core.Path.{fun_ext}
use firemig.Prelude.{◌≡◌, refl, ◌⊎◌, inl, inr, Bool, true, false, List, [], ◌∷◌}
use firemig.Common.Errors.{Thrown}

-- A settled promise.
pub data Settled {ℓ} (A : Type ℓ) : Type ℓ where
  fulfilled : A → Settled A
  rejected : Thrown → Settled A

-- `if (bad) throw t;` in a function that is not asynchronous.
abbrev pub reject_if : Bool → Thrown → Settled (Unit {0})
reject_if true t = rejected t
reject_if false t = fulfilled tt

abbrev pub Exec : Type 0 → Type 0 → Type 0
Exec S A = S → Settled A × S

module _ {S A : Type 0} where
  unfoldable pub pure : A → Exec S A
  pure a s = (fulfilled a, s)

  unfoldable pub throw : Thrown → Exec S A
  throw t s = (rejected t, s)

  unfoldable pub gets : (S → A) → Exec S A
  gets f s = (fulfilled (f s), s)

  -- `Promise.allSettled`: a rejection becomes a value.
  unfoldable pub settle : Exec S A → Exec S (Settled A)
  settle m s = let r = m s in (fulfilled r.0, r.1)

  -- A promise that is settled already.
  unfoldable pub lift : Settled A → Exec S A
  lift r s = (r, s)

module _ {S : Type 0} where
  unfoldable pub modify : (S → S) → Exec S (Unit {0})
  modify f s = (fulfilled tt, f s)

  unfoldable pub done : Exec S (Unit {0})
  done s = (fulfilled tt, s)

  -- `if (bad) throw t;`
  unfoldable pub refuse : Bool → Thrown → Exec S (Unit {0})
  refuse true t s = (rejected t, s)
  refuse false t s = (fulfilled tt, s)

abbrev after_finally : {A : Type 0} → Settled A → Settled (Unit {0}) → Settled A
after_finally r (fulfilled _) = r
after_finally r (rejected t) = rejected t

module _ {S A : Type 0} where
  -- `try { m } finally { f }`: a rejection of `f` replaces the outcome of `m`.
  unfoldable pub finally : Exec S A → Exec S (Unit {0}) → Exec S A
  finally m f s = let r = m s in let c = f r.1 in (after_finally r.0 c.0, c.1)

  abbrev handle : (Thrown → Exec S A) → Settled A → Exec S A
  handle h (fulfilled a) s = (fulfilled a, s)
  handle h (rejected t) s = h t s

  -- `try { m } catch (error) { h(error) }`.
  unfoldable pub catch : Exec S A → (Thrown → Exec S A) → Exec S A
  catch m h s = let r = m s in handle h r.0 r.1

module _ {S A B : Type 0} where
  abbrev continue : (A → Exec S B) → Settled A → Exec S B
  continue f (fulfilled a) s = f a s
  continue f (rejected t) s = (rejected t, s)

  infixl 10 ◌>>=◌ ◌>>◌
  -- Opening this opens the ways to build an action above it too.
  unfoldable pub ◌>>=◌ : Exec S A → (A → Exec S B) → Exec S B
  unfolding pure throw gets settle lift modify done refuse finally catch
  ◌>>=◌ m f s = let r = m s in continue f r.0 r.1

  abbrev pub ◌>>◌ : Exec S A → Exec S B → Exec S B
  m >> n = m >>= λ _. n

module _ {S A : Type 0} where
  -- `for (const a of items) await f(a);`
  unfoldable pub for_each : (A → Exec S (Unit {0})) → List A → Exec S (Unit {0})
  for_each f [] = done
  for_each f (a ∷ rest) = f a >>= λ _. for_each f rest

-- An action on a component of the state: `view` reads it and `store` writes it back.
module _ {S T A : Type 0} (view : S → T) (store : S → T → S) where
  unfoldable pub within : Exec T A → Exec S A
  within m s = let r = m (view s) in (r.0, store s r.1)

-- To split on the outcome of an action and keep the equation.
pub Settled-cases :
    {S A : Type 0} (r : Settled A × S)
    → ((a : A) × (t : S) × (r ≡ (fulfilled a, t)))
      ⊎ ((x : Thrown) × (t : S) × (r ≡ (rejected x, t)))
Settled-cases (fulfilled a, t) = inl (a, t, refl)
Settled-cases (rejected x, t) = inr (x, t, refl)

module _ {S A B C : Type 0} where
  settled_assoc :
      (r : Settled A × S) (f : A → Exec S B) (g : B → Exec S C)
      → (lift r.0 >>= f >>= g) r.1 ≡ (lift r.0 >>= λ a. f a >>= g) r.1
  unfolding ◌>>=◌
  settled_assoc (fulfilled a, s) f g = refl
  settled_assoc (rejected t, s) f g = refl

  pub bind_assoc :
      (first : Exec S A) (second : A → Exec S B) (third : B → Exec S C)
      → (first >>= second >>= third) ≡ (first >>= λ a. second a >>= third)
  unfolding ◌>>=◌
  bind_assoc first second third = fun_ext λ state. settled_assoc (first state) second third
