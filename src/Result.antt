-- ===== src/Result.antt =====
-- src/ohmyboring/result.py: a value, or why there is none.
use ohmyboring.Prelude.{◌≡◌, ◌⊎◌, inl, inr, refl, Bool, true, false, if◌then◌else◌}

pub data Either (A E : Type 0) : Type 0 where
  ok : A → Either A E
  err : E → Either A E

module _ {A B E : Type 0} where
  abbrev pub bind : Either A E → (A → Either B E) → Either B E
  bind (ok value) f = f value
  bind (err error) f = err error

  abbrev pub map_ok : Either A E → (A → B) → Either B E
  map_ok (ok value) f = ok (f value)
  map_ok (err error) f = err error

  pub bind-ok :
      (result : Either A E) (f : A → Either B E) (b : B)
      → bind result f ≡ ok b
      → (a : A) × (result ≡ ok a) × (f a ≡ ok b)
  bind-ok (ok a) f b h = (a, refl, h)
  bind-ok (err e) f b h = cc

  pub map_ok-ok :
      (result : Either A E) (f : A → B) (b : B)
      → map_ok result f ≡ ok b
      → (a : A) × (result ≡ ok a) × (f a ≡ b)
  map_ok-ok (ok a) f b h = (a, refl, cc)
  map_ok-ok (err e) f b h = cc

module _ {A E : Type 0} where
  pub ok_inj : (a b : A) → Path (Either A E) (ok a) (ok b) → a ≡ b
  ok_inj a b h = cc

  pub guard-ok :
      (test : Bool) (e : E) (a b : A)
      → Path (Either A E) (if test then err e else ok a) (ok b)
      → (test ≡ false) × (a ≡ b)
  guard-ok true e a b h = cc
  guard-ok false e a b h = (refl, ok_inj a b h)

pub if-cases {ℓ} :
    {A : Type ℓ} (test : Bool) (x y v : A)
    → (if test then x else y) ≡ v
    → ((test ≡ true) × (x ≡ v)) ⊎ ((test ≡ false) × (y ≡ v))
if-cases true x y v h = inl (refl, h)
if-cases false x y v h = inr (refl, h)
