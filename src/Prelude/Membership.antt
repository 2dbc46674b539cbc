-- ===== src/Prelude/Membership.antt =====
-- Membership in a filtered list.
use mathlib.Core.List.Memᴰ
use mathlib.Core.List.{Memᴰ}
use mathlib.Core.Path.{◌≡◌, sym, ap, ◌∙◌, subst}
use mathlib.Core.Bool.{Bool, true}
use mathlib.Core.Logic.{inl, inr}
use mathlib.Core.List.{List, [], ◌∷◌}
use ohmyboring.Prelude.Tests.{if◌then◌else◌, Bool-cases}
use ohmyboring.Prelude.Lists.{filter}

module _ {ℓ} {A : Type ℓ} (p : A → Bool) where
  pub filter-Memᴰ : {a : A} (xs : List A) → Memᴰ a (filter p xs) → Memᴰ a xs × (p a ≡ true)
  filter-Memᴰ [] m = absurd (Memᴰ.not-nil m)
  filter-Memᴰ {a} (x ∷ xs) m = elim (Bool-cases (p x)) [
    | inl e ↦
        let m' : Memᴰ a (x ∷ filter p xs) =
          subst (λ b. Memᴰ a (if b then x ∷ filter p xs else filter p xs)) e m in
        elim (Memᴰ.cases_cons m') [
          | inl same ↦ (Memᴰ.head same, ap p same ∙ e)
          | inr later ↦ let r = filter-Memᴰ xs later in (Memᴰ.tail r.0, r.1)
        ]
    | inr e ↦
        let m' : Memᴰ a (filter p xs) =
          subst (λ b. Memᴰ a (if b then x ∷ filter p xs else filter p xs)) e m in
        let r = filter-Memᴰ xs m' in (Memᴰ.tail r.0, r.1)
  ]

  pub mem-filter : {a : A} (xs : List A) → Memᴰ a xs → p a ≡ true → Memᴰ a (filter p xs)
  mem-filter [] m h = absurd (Memᴰ.not-nil m)
  mem-filter {a} (x ∷ xs) m h = elim (Memᴰ.cases_cons m) [
    | inl same ↦ let e : p x ≡ true = ap p (sym same) ∙ h in rw e (Memᴰ.head same)
    | inr later ↦
        let rest = mem-filter xs later h in
        elim (Bool-cases (p x)) [ inl e ↦ rw e (Memᴰ.tail rest) | inr e ↦ rw e rest ]
  ]
