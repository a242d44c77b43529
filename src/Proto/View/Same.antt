-- ===== src/Proto/View/Same.antt =====
-- Lists and views up to order and repetition, as the kernel's hash maps keep them.
use bpf_broker.Prelude.{◌≡◌, ◌⊎◌, ◌↔◌, inl, inr, List, [], ◌∷◌, ◌++◌, All, sym}
use mathlib.Core.Path.{subst}
use bpf_broker.Maps.{Holds}

module _ {A : Type 0} where
  abbrev pub SameMembers : List A → List A → Type 0
  SameMembers l k = (x : A) → Holds x l ↔ Holds x k

  pub Holds-append : (x a : A) (l : List A) → Holds x (l ++ a ∷ []) ↔ (Holds x l ⊎ (x ≡ a))
  Holds-append x a [] = (
    λ h. elim h [ inl e ↦ inr e | inr n ↦ absurd n ],
    λ h. elim h [ inl n ↦ absurd n | inr e ↦ inl e ],
  )
  Holds-append x a (y ∷ l) =
      let (there, back) = Holds-append x a l in
      (
        λ h. elim h [
          | inl e ↦ inl (inl e)
          | inr t ↦ elim (there t) [ inl u ↦ inl (inr u) | inr e ↦ inr e ]
        ],
        λ h. elim h [
          | inl (inl e) ↦ inl e
          | inl (inr t) ↦ inr (back (inl t))
          | inr e ↦ inr (back (inr e))
        ],
      )

pub All-of_Holds :
    {A : Type 0} (P : A → Type 0) (l : List A) → ((x : A) → Holds x l → P x) → All P l
All-of_Holds P [] h = tt
All-of_Holds P (x ∷ l) h = (h x (inl (λ i. x)), All-of_Holds P l (λ y a. h y (inr a)))

pub Holds-All : {A : Type 0} (P : A → Type 0) (l : List A) (x : A) → All P l → Holds x l → P x
Holds-All P [] x a h = absurd h
Holds-All P (y ∷ l) x (a, rest) (inl e) = subst P (sym e) a
Holds-All P (y ∷ l) x (a, rest) (inr h) = Holds-All P l x rest h
