-- ===== src/Thrown/Laws.antt =====
-- Steps of a call whose parts are known.
use nauts.Base.{◌≡◌, ap}
use nauts.Thrown.{Thrown, Outcome, ok, throw, Exec, ◌>>=◌, ◌>>◌, attempt}

abbrev resume : {S A B : Type 0} → (A → Exec S B) → Outcome A × S → Outcome B × S
resume f (r, t) = elim r [ ok a ↦ f a t | throw e ↦ (throw e, t) ]

abbrev handle : {S A : Type 0} → (Thrown → Exec S A) → Outcome A × S → Outcome A × S
handle f (r, t) = elim r [ ok a ↦ (ok a, t) | throw e ↦ f e t ]

module _ {S A B : Type 0} where
  pub bind-ok :
      (m : Exec S A) (f : A → Exec S B) {s t : S} {a : A} → m s ≡ (ok a, t) → (m >>= f) s ≡ f a t
  bind-ok m f h = ap (resume f) h

  pub bind-throw :
      (m : Exec S A) (f : A → Exec S B) {s t : S} {e : Thrown}
      → m s ≡ (throw e, t)
      → (m >>= f) s ≡ (throw e, t)
  bind-throw m f h = ap (resume f) h

module _ {S B : Type 0} where
  pub then-ok : (m : Exec S Unit) (k : Exec S B) {s t : S} → m s ≡ (ok tt, t) → (m >> k) s ≡ k t
  then-ok m k h = ap (resume (λ _. k)) h

module _ {S A : Type 0} where
  pub attempt-ok :
      (m : Exec S A) (f : Thrown → Exec S A) {s t : S} {a : A}
      → m s ≡ (ok a, t)
      → attempt m f s ≡ (ok a, t)
  attempt-ok m f h = ap (handle f) h

  pub attempt-throw :
      (m : Exec S A) (f : Thrown → Exec S A) {s t : S} {e : Thrown}
      → m s ≡ (throw e, t)
      → attempt m f s ≡ f e t
  attempt-throw m f h = ap (handle f) h
