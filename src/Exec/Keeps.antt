-- ===== src/Exec/Keeps.antt =====
-- What an action leaves true, one rule for each way to build an action.
use firemig.Prelude.{◌≡◌, refl, Bool, true, false, List, [], ◌∷◌, if◌then◌else◌}
use firemig.Common.Errors.{Thrown}
use firemig.Exec.{
  Settled, fulfilled, rejected, Exec, pure, throw, gets, settle, lift, modify, done, refuse, ◌>>=◌,
  finally, catch, for_each,
}

-- `m` keeps `P`, whether it returns or throws.
pub record Keeps {S A : Type 0} (P : S → Type 0) (m : Exec S A) : Type 0 where
  pub at : (s : S) → P s → P (m s).1

-- What holds of an outcome: `Q` of a result, `E` of the state beside an error.
abbrev pub Outcome : {S A : Type 0} → (A → S → Type 0) → (S → Type 0) → Settled A × S → Type 0
Outcome Q E (fulfilled a, s) = Q a s
Outcome Q E (rejected t, s) = E s

module _ {S A : Type 0} {P : S → Type 0} where
  pub Keeps-pure : (a : A) → Keeps P (pure a)
  unfolding pure
  Keeps-pure a = record { at = λ s h. h }

  pub Keeps-throw : (t : Thrown) → Keeps P (throw {A = A} t)
  unfolding throw
  Keeps-throw t = record { at = λ s h. h }

  pub Keeps-gets : (view : S → A) → Keeps P (gets view)
  unfolding gets
  Keeps-gets view = record { at = λ s h. h }

  pub Keeps-lift : (r : Settled A) → Keeps P (lift r)
  unfolding lift
  Keeps-lift r = record { at = λ s h. h }

  pub Keeps-settle : {m : Exec S A} → Keeps P m → Keeps P (settle m)
  unfolding settle
  Keeps-settle k = record { at = k.at }

  pub Keeps-if :
      (test : Bool) (taken left : Exec S A)
      → (test ≡ true → Keeps P taken)
      → (test ≡ false → Keeps P left)
      → Keeps P (if test then taken else left)
  Keeps-if true taken left on_true on_false = on_true refl
  Keeps-if false taken left on_true on_false = on_false refl

module _ {S : Type 0} {P : S → Type 0} where
  pub Keeps-done : Keeps P done
  unfolding done
  Keeps-done = record { at = λ s h. h }

  pub Keeps-refuse : (b : Bool) (t : Thrown) → Keeps P (refuse b t)
  unfolding refuse
  Keeps-refuse true t = record { at = λ s h. h }
  Keeps-refuse false t = record { at = λ s h. h }

  pub Keeps-modify : (f : S → S) → ((s : S) → P s → P (f s)) → Keeps P (modify f)
  unfolding modify
  Keeps-modify f k = record { at = k }

module _ {S A B : Type 0} {P : S → Type 0} where
  settled_bind :
      (r : Settled A) (f : A → Exec S B) → ((a : A) → Keeps P (f a)) → Keeps P (lift r >>= f)
  unfolding ◌>>=◌
  settled_bind (fulfilled a) f kf = record { at = (kf a).at }
  settled_bind (rejected t) f kf = record { at = λ s h. h }

  pub Keeps-bind :
      (first : Exec S A) (next : A → Exec S B)
      → Keeps P first
      → ((a : A) → Keeps P (next a))
      → Keeps P (first >>= next)
  unfolding ◌>>=◌
  Keeps-bind first next keeps later = record {
    at = λ s h. (settled_bind (first s).0 next later).at (first s).1 (keeps.at s h);
  }

module _ {S A : Type 0} {P : S → Type 0} where
  pub Keeps-finally :
      (m : Exec S A) (f : Exec S (Unit {0})) → Keeps P m → Keeps P f → Keeps P (finally m f)
  unfolding finally
  Keeps-finally m f km kf = record { at = λ s h. kf.at (m s).1 (km.at s h) }

  settled_catch :
      (r : Settled A) (h : Thrown → Exec S A)
      → ((t : Thrown) → Keeps P (h t))
      → Keeps P (catch (lift r) h)
  unfolding catch lift
  settled_catch (fulfilled a) h kh = record { at = λ s p. p }
  settled_catch (rejected t) h kh = record { at = (kh t).at }

  pub Keeps-catch :
      (m : Exec S A) (h : Thrown → Exec S A)
      → Keeps P m
      → ((t : Thrown) → Keeps P (h t))
      → Keeps P (catch m h)
  unfolding catch lift
  Keeps-catch m h km kh = record { at = λ s p. (settled_catch (m s).0 h kh).at (m s).1 (km.at s p) }

  pub Keeps-for_each :
      (f : A → Exec S (Unit {0})) (items : List A)
      → ((a : A) → Keeps P (f a))
      → Keeps P (for_each f items)
  unfolding for_each
  Keeps-for_each f [] kf = Keeps-done
  Keeps-for_each f (a ∷ rest) kf = Keeps-bind _ _ (kf a) (λ _. Keeps-for_each f rest kf)

pub ruleset keeps_rules = (
  Keeps-pure, Keeps-throw, Keeps-gets, Keeps-lift, Keeps-settle, Keeps-if, Keeps-done, Keeps-refuse,
  Keeps-bind, Keeps-finally, Keeps-catch, Keeps-for_each,
)

-- From `P`, `m` rejects and changes nothing.
pub record Rejects {S A : Type 0} (P : S → Type 0) (m : Exec S A) : Type 0 where
  pub at : (s : S) → P s → (t : Thrown) × (m s ≡ (rejected t, s))

module _ {S A B : Type 0} {P : S → Type 0} where
  -- What stands behind an action that rejects is never run.
  pub Rejects-bind : (m : Exec S A) (f : A → Exec S B) → Rejects P m → Rejects P (m >>= f)
  unfolding ◌>>=◌
  Rejects-bind m f r = record { at = λ s h. let (t, e) = r.at s h in (t, rw (e, ◌>>=◌)) }

module _ {S A : Type 0} {P : S → Type 0} where
  pub Keeps-Rejects : (m : Exec S A) → Rejects P m → Keeps P m
  Keeps-Rejects m r = record { at = λ s h. let (t, e) = r.at s h in rw e h }

-- What `m` returns, if it returns, satisfies `Q`.
pub record Gives {S A : Type 0} (Q : A → Type 0) (m : Exec S A) : Type 0 where
  pub at : (s : S) → Outcome (λ a t. Q a) (λ t. Unit {0}) (m s)

module _ {S A : Type 0} {Q : A → Type 0} where
  pub Gives-pure : (a : A) → Q a → Gives {S = S} Q (pure a)
  unfolding pure
  Gives-pure a q = record { at = λ s. q }

module _ {S A B : Type 0} {Q : B → Type 0} where
  settled-Gives :
      (r : Settled A) (f : A → Exec S B) → ((a : A) → Gives Q (f a)) → Gives Q (lift r >>= f)
  unfolding ◌>>=◌
  settled-Gives (fulfilled a) f g = record { at = (g a).at }
  settled-Gives (rejected t) f g = record { at = λ s. tt }

  pub Gives-bind : (m : Exec S A) (f : A → Exec S B) → ((a : A) → Gives Q (f a)) → Gives Q (m >>= f)
  unfolding ◌>>=◌
  Gives-bind m f g = record { at = λ s. (settled-Gives (m s).0 f g).at (m s).1 }
