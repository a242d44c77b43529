-- ===== src/Maps/Assoc.antt =====
-- A map that meets the interface: an association list with a limit on its entries.
use bpf_broker.Prelude.{
  ℕ, suc, ◌≡◌, refl, sym, ◌≢◌, ◌⊎◌, inl, inr, arith, Option, none, some, List, [], ◌∷◌, map, length,
  Option-cases,
}
use bpf_broker.Maps.{Holds, Distinct, HashMap}
use mathlib.Core.Logic.{ite, if_pos, if_neg}
use mathlib.Core.Path.{subst}
use native.Mathlib.Decide.{dec_lt}

-- The entries, no key twice.
abbrev pub Entries : Type 0 → Type 0 → Type 0
Entries K V = (l : List (K × V)) × Distinct (map (λ e. e.0) l)

module _ {K V : Type 0} (dec : Discrete K) where
  abbrev pub keys_of : List (K × V) → List K
  keys_of = map (λ e. e.0)

  abbrev pub find : K → List (K × V) → Option V
  find k [] = none
  find k ((j, v) ∷ l) = ite (dec j k) (some v) (find k l)

  abbrev pub replace : K → V → List (K × V) → List (K × V)
  replace k v [] = []
  replace k v ((j, w) ∷ l) = ite (dec j k) ((k, v) ∷ l) ((j, w) ∷ replace k v l)

  abbrev pub remove : K → List (K × V) → List (K × V)
  remove k [] = []
  remove k ((j, w) ∷ l) = ite (dec j k) l ((j, w) ∷ remove k l)

  pub find-Holds : (k : K) (l : List (K × V)) → find k l ≢ none → Holds k (keys_of l)
  find-Holds k [] h = absurd (h refl)
  find-Holds k ((j, v) ∷ l) h = ground (arith, find-Holds k l)

  pub Holds-find : (k : K) (l : List (K × V)) → Holds k (keys_of l) → find k l ≢ none
  Holds-find k [] h = absurd h
  Holds-find k ((j, v) ∷ l) h = ground (arith, Holds-find k l)

  find-replace_self :
      (k : K) (v : V) (l : List (K × V)) → find k l ≢ none → find k (replace k v l) ≡ some v
  find-replace_self k v [] h = absurd (h refl)
  find-replace_self k v ((j, w) ∷ l) h = ground (arith, find-replace_self k v l)

  find-replace_ne : (k j : K) (v : V) (l : List (K × V)) → j ≢ k → find j (replace k v l) ≡ find j l
  find-replace_ne k j v [] h = refl
  find-replace_ne k j v ((i, w) ∷ l) h = ground (arith, find-replace_ne k j v l)

  pub keys-replace : (k : K) (v : V) (l : List (K × V)) → keys_of (replace k v l) ≡ keys_of l
  keys-replace k v [] = refl
  keys-replace k v ((j, w) ∷ l) = ground (arith, keys-replace k v l)

  Holds-remove : (k j : K) (l : List (K × V)) → Holds j (keys_of (remove k l)) → Holds j (keys_of l)
  Holds-remove k j [] h = h
  Holds-remove k j ((i, w) ∷ l) h = ground (arith, Holds-remove k j l)

  pub remove-Distinct :
      (k : K) (l : List (K × V)) → Distinct (keys_of l) → Distinct (keys_of (remove k l))
  remove-Distinct k [] d = d
  remove-Distinct k ((j, w) ∷ l) d = elim (dec j k) [
    | yes p ↦ rw (if_pos (dec j k) p) d.1
    | no n ↦ rw (if_neg (dec j k) n) (λ e. d.0 (Holds-remove k j l e), remove-Distinct k l d.1)
  ]

  pub find-remove_self :
      (k : K) (l : List (K × V)) → Distinct (keys_of l) → find k (remove k l) ≡ none
  find-remove_self k [] d = refl
  find-remove_self k ((j, w) ∷ l) d = elim (dec j k) [
    | yes p ↦ elim (Option-cases (find k l)) [
      | inl e ↦ rw (if_pos (dec j k) p) e
      | inr (v, e) ↦
          absurd (d.0 (subst (λ i. Holds i (keys_of l)) (sym p) (find-Holds k l (λ n. cc))))
    ]
    | no n ↦ rw (if_neg (dec j k) n) (rw (if_neg (dec j k) n) (find-remove_self k l d.1))
  ]

  pub find-remove_ne : (k j : K) (l : List (K × V)) → j ≢ k → find j (remove k l) ≡ find j l
  find-remove_ne k j [] h = refl
  find-remove_ne k j ((i, w) ∷ l) h = ground (arith, find-remove_ne k j l)

  pub length-remove :
      (k : K) (l : List (K × V))
      → find k l ≢ none
      → length (keys_of l) ≡ suc (length (keys_of (remove k l)))
  length-remove k [] h = absurd (h refl)
  length-remove k ((j, w) ∷ l) h = ground (arith, length-remove k l)

  -- An insertion, by whether the key is present; `limit` is `max_entries`.
  unfoldable pub update_with :
      (limit : ℕ) (m : Entries K V) (k : K) (v : V) (o : Option V)
      → find k m.0 ≡ o
      → Option (Entries K V)
  update_with limit (l, d) k v none e =
      ite (dec_lt (length l) limit) (some ((k, v) ∷ l, (λ h. Holds-find k l h e, d))) none
  update_with limit (l, d) k v (some w) e =
      some (replace k v l, subst Distinct (sym (keys-replace k v l)) d)

  update_with-find :
      (limit : ℕ) (m m' : Entries K V) (k : K) (v : V) (o : Option V) (e : find k m.0 ≡ o)
      → update_with limit m k v o e ≡ some m'
      → (m'.0 ≡ (k, v) ∷ m.0) ⊎ ((m'.0 ≡ replace k v m.0) × (find k m.0 ≢ none))
  unfolding update_with
  update_with-find limit (l, d) m' k v none e h = inl (ground arith)
  update_with-find limit (l, d) m' k v (some w) e h = inr (ground arith, λ n. cc)

  unfoldable pub update : (limit : ℕ) (m : Entries K V) (k : K) (v : V) → Option (Entries K V)
  unfolding update_with
  update limit m k v = update_with limit m k v (find k m.0) refl

  pub update_self :
      (limit : ℕ) (m m' : Entries K V) (k : K) (v : V)
      → update limit m k v ≡ some m'
      → find k m'.0 ≡ some v
  unfolding update
  update_self limit m m' k v h = elim (update_with-find limit m m' k v (find k m.0) refl h) [
    | inl e ↦ rw e (if_pos (dec k k) refl _ _)
    | inr (e, p) ↦ rw e (find-replace_self k v m.0 p)
  ]

  pub update_ne :
      (limit : ℕ) (m m' : Entries K V) (k j : K) (v : V)
      → update limit m k v ≡ some m'
      → j ≢ k
      → find j m'.0 ≡ find j m.0
  unfolding update
  update_ne limit m m' k j v h n = elim (update_with-find limit m m' k v (find k m.0) refl h) [
    | inl e ↦ rw e (if_neg (dec k j) (λ p. n (sym p)) _ _)
    | inr (e, p) ↦ rw e (find-replace_ne k j v m.0 n)
  ]

  pub update_some :
      (limit : ℕ) (m : Entries K V) (k : K) (v w : V) (o : Option V) (e : find k m.0 ≡ o)
      → o ≡ some w
      → (m' : Entries K V) × (update_with limit m k v o e ≡ some m')
  unfolding update_with
  update_some limit m k v w none e p = absurd (cc p)
  update_some limit (l, d) k v w (some u) e p = (_, refl)

  unfoldable pub delete_with : (m : Entries K V) (k : K) → Option V → Option (Entries K V)
  delete_with m k none = none
  delete_with (l, d) k (some v) = some (remove k l, remove-Distinct k l d)

  unfoldable pub delete : (m : Entries K V) (k : K) → Option (Entries K V)
  unfolding delete_with
  delete m k = delete_with m k (find k m.0)

  pub delete_with_entries :
      (m m' : Entries K V) (k : K) (o : Option V)
      → delete_with m k o ≡ some m'
      → (m'.0 ≡ remove k m.0) × (o ≢ none)
  unfolding delete_with
  delete_with_entries m m' k none h = absurd (cc h)
  delete_with_entries (l, d) m' k (some v) h = (ground arith, λ n. cc)

  pub delete_none : (m : Entries K V) (k : K) (o : Option V) → delete_with m k o ≡ none → o ≡ none
  unfolding delete_with
  delete_none m k none h = refl
  delete_none (l, d) k (some v) h = absurd (cc h)

  unfoldable pub first : List (K × V) → Option K
  first [] = none
  first ((k, v) ∷ l) = some k

  pub first_none : (l : List (K × V)) → first l ≡ none → keys_of l ≡ []
  unfolding first
  first_none [] h = refl
  first_none ((k, v) ∷ l) h = absurd (cc h)

  pub first_some : (l : List (K × V)) (k : K) → first l ≡ some k → Holds k (keys_of l)
  unfolding first
  first_some [] k h = absurd (cc h)
  first_some ((j, v) ∷ l) k h = inl (ground arith)

  -- A map with room for `limit` entries.
  unfoldable pub assoc_map : ℕ → HashMap K V
  unfolding update delete first
  assoc_map limit = record {
    Map = Entries K V;
    empty = ([], tt);
    lookup_elem = λ m k. find k m.0;
    update_elem = update limit;
    delete_elem = delete;
    first_key = λ m. first m.0;
    keys = λ m. keys_of m.0;
    lookup-empty = λ k. refl;
    lookup-update_self = λ m m' k v h. update_self limit m m' k v h;
    lookup-update_ne = λ m m' k j v h n. update_ne limit m m' k j v h n;
    update_present = λ m k v w h. update_some limit m k v w (find k m.0) refl h;
    lookup-delete_self =
        λ m m' k h. rw ((delete_with_entries m m' k (find k m.0) h).0) (find-remove_self k m.0 m.1);
    lookup-delete_ne = λ m m' k j h n.
        rw ((delete_with_entries m m' k (find k m.0) h).0) (find-remove_ne k j m.0 n);
    delete_absent = λ m k h. delete_none m k (find k m.0) h;
    length-delete = λ m m' k h.
        let (e, p) = delete_with_entries m m' k (find k m.0) h in rw e (length-remove k m.0 p);
    first_key_none = λ m h. first_none m.0 h;
    first_key_some = λ m k h. first_some m.0 k h;
    holds_present = λ m k h. Holds-find k m.0 h;
    present_holds = λ m k h. find-Holds k m.0 h;
    keys-Distinct = λ m. m.1;
  }
