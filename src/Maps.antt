-- ===== src/Maps.antt =====
-- The BPF hash maps behind `bpf_map_lookup_elem`, `bpf_map_update_elem`, `bpf_map_delete_elem`,
-- `bpf_map_get_next_key` and `bpf_for_each_map_elem`. The kernel implements them: here they are an
-- interface, with the documented behaviour that the programs rely on.
pub mod Assoc
pub mod Arrays
use bpf_broker.Prelude.{
  ℕ, suc, ◌≡◌, refl, ◌≢◌, ◌⊎◌, inl, inr, ap, sym, ◌∙◌, Option, none, some, List, [], ◌∷◌, length,
  Option-cases,
}
use mathlib.Core.Path.{subst}

-- The list holds the element.
abbrev pub Holds : {A : Type 0} → A → List A → Type 0
Holds a [] = ⊥
Holds a (x ∷ xs) = (a ≡ x) ⊎ Holds a xs

-- No element stands twice.
abbrev pub Distinct : {A : Type 0} → List A → Type 0
Distinct [] = Unit
Distinct (x ∷ xs) = (¬ Holds x xs) × Distinct xs

pub record HashMap (K V : Type 0) : Type 1 where
  pub Map : Type 0
  -- A map as BPF_MAP_CREATE makes it.
  pub empty : Map
  pub lookup_elem : Map → K → Option V
  -- With BPF_ANY; `none` is a negative return, which leaves the map as it is.
  pub update_elem : Map → K → V → Option Map
  -- `none` is a negative return.
  pub delete_elem : Map → K → Option Map
  -- `bpf_map_get_next_key` from NULL.
  pub first_key : Map → Option K
  -- The keys in the order in which `bpf_for_each_map_elem` visits them.
  pub keys : Map → List K
  pub lookup-empty : (k : K) → lookup_elem empty k ≡ none
  pub lookup-update_self :
      (m m' : Map) (k : K) (v : V) → update_elem m k v ≡ some m' → lookup_elem m' k ≡ some v
  pub lookup-update_ne :
      (m m' : Map) (k j : K) (v : V)
      → update_elem m k v ≡ some m'
      → j ≢ k
      → lookup_elem m' j ≡ lookup_elem m j
  -- A value can be replaced even in a full map.
  pub update_present :
      (m : Map) (k : K) (v w : V)
      → lookup_elem m k ≡ some w
      → (m' : Map) × (update_elem m k v ≡ some m')
  pub lookup-delete_self :
      (m m' : Map) (k : K) → delete_elem m k ≡ some m' → lookup_elem m' k ≡ none
  pub lookup-delete_ne :
      (m m' : Map) (k j : K)
      → delete_elem m k ≡ some m'
      → j ≢ k
      → lookup_elem m' j ≡ lookup_elem m j
  pub delete_absent : (m : Map) (k : K) → delete_elem m k ≡ none → lookup_elem m k ≡ none
  -- A deletion takes away one entry.
  pub length-delete :
      (m m' : Map) (k : K) → delete_elem m k ≡ some m' → length (keys m) ≡ suc (length (keys m'))
  pub first_key_none : (m : Map) → first_key m ≡ none → keys m ≡ []
  pub first_key_some : (m : Map) (k : K) → first_key m ≡ some k → Holds k (keys m)
  -- The iteration visits each present key, and once.
  pub holds_present : (m : Map) (k : K) → Holds k (keys m) → lookup_elem m k ≢ none
  pub present_holds : (m : Map) (k : K) → lookup_elem m k ≢ none → Holds k (keys m)
  pub keys-Distinct : (m : Map) → Distinct (keys m)

-- A list without elements, and one with a single element.
nil_of_no_element : {A : Type 0} (l : List A) → ((x : A) → ¬ Holds x l) → l ≡ []
nil_of_no_element [] h = refl
nil_of_no_element (x ∷ l) h = absurd (h x (inl refl))

single_of_one_element :
    {A : Type 0} (a : A) (l : List A)
    → Distinct l
    → Holds a l
    → ((x : A) → Holds x l → x ≡ a)
    → l ≡ a ∷ []
single_of_one_element a [] d h only = absurd h
single_of_one_element a (x ∷ []) d h only = ap (λ c. c ∷ []) (only x (inl refl))
single_of_one_element a (x ∷ y ∷ l) d h only =
    absurd (d.0 (inl (only x (inl refl) ∙ sym (only y (inr (inl refl))))))

module _ {K V : Type 0} (h : HashMap K V) (m : h.Map) where
  -- The iteration over a map in which no key is present.
  pub keys_of_absent : ((k : K) → h.lookup_elem m k ≡ none) → h.keys m ≡ []
  keys_of_absent absent = nil_of_no_element (h.keys m) (λ k e. h.holds_present m k e (absent k))

  -- The iteration over a map in which one key is present.
  pub keys_of_single :
      (dec : Discrete K) (a : K)
      → h.lookup_elem m a ≢ none
      → ((k : K) → k ≢ a → h.lookup_elem m k ≡ none)
      → h.keys m ≡ a ∷ []
  keys_of_single dec a here absent =
      single_of_one_element a (h.keys m) (h.keys-Distinct m) (h.present_holds m a here)
        λ k e. elim (dec k a) [ yes p ↦ p | no n ↦ absurd (h.holds_present m k e (absent k n)) ]

  pub absent_of_keys : h.keys m ≡ [] → (k : K) → h.lookup_elem m k ≡ none
  absent_of_keys e k = elim (Option-cases (h.lookup_elem m k)) [
    | inl n ↦ n
    | inr (v, p) ↦ absurd (subst (Holds k) e (h.present_holds m k (λ n. cc)))
  ]
