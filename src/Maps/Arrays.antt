-- ===== src/Maps/Arrays.antt =====
-- The BPF arrays behind `bpf_map_lookup_elem` and `bpf_map_update_elem` of BPF_MAP_TYPE_ARRAY. The
-- kernel implements them: here they are an interface, with the documented behaviour that the
-- programs rely on.
use bpf_broker.Prelude.{ℕ, ◌≤◌, ◌<◌, ◌≡◌, refl, ◌≢◌, ap, ◌∙◌, arith, Option, none, some}
use mathlib.Core.Logic.{ite, if_pos, if_neg}
use native.Mathlib.Decide.{dec_lt, ℕ_discrete}

pub record ArrayMap (V : Type 0) : Type 1 where
  pub Map : Type 0
  -- A map as BPF_MAP_CREATE makes it, with `max_entries`.
  pub create : ℕ → Map
  pub max_entries : Map → ℕ
  pub lookup_elem : Map → ℕ → Option V
  -- With BPF_ANY; `none` is a negative return, which leaves the map as it is.
  pub update_elem : Map → ℕ → V → Option Map
  pub max_entries-create : (n : ℕ) → max_entries (create n) ≡ n
  pub max_entries-update :
      (m m' : Map) (i : ℕ) (v : V) → update_elem m i v ≡ some m' → max_entries m' ≡ max_entries m
  -- An index can be stored at exactly if it is one of the map's.
  pub update_inside :
      (m : Map) (i : ℕ) (v : V) → i < max_entries m → (m' : Map) × (update_elem m i v ≡ some m')
  pub update_outside : (m : Map) (i : ℕ) (v : V) → max_entries m ≤ i → update_elem m i v ≡ none
  pub lookup-update_self :
      (m m' : Map) (i : ℕ) (v : V) → update_elem m i v ≡ some m' → lookup_elem m' i ≡ some v
  pub lookup-update_ne :
      (m m' : Map) (i j : ℕ) (v : V)
      → update_elem m i v ≡ some m'
      → j ≢ i
      → lookup_elem m' j ≡ lookup_elem m j

-- A map that meets the interface: its size, and its entries as a function.
module _ {V : Type 0} (zero_value : V) where
  abbrev Entries : Type 0
  Entries = ℕ × (ℕ → V)

  abbrev lookup : Entries → ℕ → Option V
  lookup (n, entry) i = ite (dec_lt i n) (some (entry i)) none

  abbrev store : Entries → ℕ → V → Entries
  store (n, entry) i v = (n, λ j. ite (ℕ_discrete j i) v (entry j))

  abbrev update : Entries → ℕ → V → Option Entries
  update (n, entry) i v = ite (dec_lt i n) (some (store (n, entry) i v)) none

  pub update-some :
      (m m' : Entries) (i : ℕ) (v : V) → update m i v ≡ some m' → (i < m.0) × (m' ≡ store m i v)
  update-some (n, entry) m' i v h = elim (dec_lt i n) [
    | yes p ↦ (p, ground arith)
    | no q ↦ absurd (ground arith)
  ]

  unfoldable pub array_map : ArrayMap V
  array_map = record {
    Map = Entries;
    create = λ n. (n, λ i. zero_value);
    max_entries = λ m. m.0;
    lookup_elem = lookup;
    update_elem = update;
    max_entries-create = λ n. refl;
    max_entries-update = λ m m' i v h. ap (λ k. k.0) (update-some m m' i v h).1;
    update_inside = λ m i v inside. (store m i v, if_pos (dec_lt i m.0) inside _ _);
    update_outside = λ m i v outside. if_neg (dec_lt i m.0) (λ p. omega arith) _ _;
    lookup-update_self = λ m m' i v h.
        let (inside, e) = update-some m m' i v h in
        rw e (if_pos (dec_lt i m.0) inside _ _ ∙ ap some (if_pos (ℕ_discrete i i) refl _ _));
    lookup-update_ne = λ m m' i j v h n.
        let (inside, e) = update-some m m' i v h in
        rw e (ap (λ w. ite (dec_lt j m.0) (some w) none) (if_neg (ℕ_discrete j i) n _ _));
  }
