-- ===== src/ArrayProto/View.antt =====
-- What the service over arrays keeps: for each registered topic the list of its subscribers, in the
-- order of their subscriptions. The maps represent such a view.
use bpf_broker.Proto.View.{View, replaced, replaced_self, replaced_ne}
use bpf_broker.Prelude.{
  ℕ, ◌+◌, ◌≤◌, ◌<◌, ◌≡◌, sym, ap, ◌∙◌, ◌≢◌, arith, length, List, [], ◌∷◌, ◌++◌, Option, none, some,
}
use mathlib.Core.Path.{subst}
use bpf_broker.Parse.{Key}
use bpf_broker.Proto.Service.Invariant.{Key-discrete}
use bpf_broker.ArrayProto.{ArrayPlatform, ArrayStore, max_subscribers, count_or_zero}

module _ (p : ArrayPlatform) where
  -- The array holds the list from index `i` on.
  abbrev pub Lists : p.arrays.Map → ℕ → List ℕ → Type 0
  Lists m i [] = Unit
  Lists m i (x ∷ l) = (p.arrays.lookup_elem m i ≡ some x) × Lists m (i + 1) l

  pub Lists-ext :
      (m m' : p.arrays.Map) (i : ℕ) (l : List ℕ)
      → ((j : ℕ) → j < i + length l → p.arrays.lookup_elem m' j ≡ p.arrays.lookup_elem m j)
      → Lists m i l
      → Lists m' i l
  Lists-ext m m' i [] same h = tt
  Lists-ext m m' i (x ∷ l) same (e, h) =
      (same i (omega arith) ∙ e, Lists-ext m m' (i + 1) l (λ j b. same j (omega arith)) h)

  pub Lists-append :
      (m : p.arrays.Map) (i : ℕ) (l : List ℕ) (x : ℕ)
      → Lists m i l
      → p.arrays.lookup_elem m (i + length l) ≡ some x
      → Lists m i (l ++ x ∷ [])
  Lists-append m i [] x h e = (ap (p.arrays.lookup_elem m) (omega arith) ∙ e, tt)
  Lists-append m i (y ∷ l) x (a, h) e =
      (a, Lists-append m (i + 1) l x h (ap (p.arrays.lookup_elem m) (omega arith) ∙ e))

  abbrev pub id_of : ArrayStore p → Key → Option ℕ
  id_of s t = p.topics.lookup_elem s.topic_sub_array t

  abbrev pub count_of : ArrayStore p → Key → Option ℕ
  count_of s t = p.counts.lookup_elem s.topic_sub_cnt t

  -- The array of a topic and its count hold the list.
  pub record IsTopicOf (array : p.arrays.Map) (count : Option ℕ) (l : List ℕ) : Type 0 where
    pub size : p.arrays.max_entries array ≡ max_subscribers
    pub counted : count_or_zero count ≡ length l
    pub few : length l ≤ max_subscribers
    pub entries : Lists array 0 l

  -- An unknown topic has neither array nor count.
  abbrev pub IsTopic : ArrayStore p → Key → Option (List ℕ) → Type 0
  IsTopic s t none = (id_of s t ≡ none) × (count_of s t ≡ none)
  IsTopic s t (some l) = (id : ℕ) × (id_of s t ≡ some id) × IsTopicOf (s.inner id) (count_of s t) l

  pub record Represents (s : ArrayStore p) (v : View) : Type 0 where
    -- No two topics share an array.
    pub distinct : (t u : Key) (i : ℕ) → id_of s t ≡ some i → id_of s u ≡ some i → t ≡ u
    pub topic : (t : Key) → IsTopic s t (v t)

  pub Represents_ext :
      (s : ArrayStore p) (v v' : View) → ((t : Key) → v' t ≡ v t) → Represents s v → Represents s v'
  Represents_ext s v v' same w = record {
    distinct = w.distinct;
    topic = λ t. subst (IsTopic s t) (sym (same t)) (w.topic t);
  }

  -- `s'` differs from `s` at the topic `key`, whose array is `id`, at most, and `v'` from `v`.
  pub record ChangesTopic (key : Key) (id : ℕ) (s s' : ArrayStore p) (v v' : View) : Type 0 where
    pub same_topics : s'.topic_sub_array ≡ s.topic_sub_array
    pub same_inner : (i : ℕ) → i ≢ id → s'.inner i ≡ s.inner i
    pub same_count : (t : Key) → t ≢ key → count_of s' t ≡ count_of s t
    pub same_view : (t : Key) → t ≢ key → v' t ≡ v t

  -- A topic by what it is made of.
  IsTopic-of :
      (s s' : ArrayStore p) (t : Key) (o o' : Option (List ℕ))
      → o' ≡ o
      → id_of s' t ≡ id_of s t
      → count_of s' t ≡ count_of s t
      → ((id : ℕ) → id_of s t ≡ some id → s'.inner id ≡ s.inner id)
      → IsTopic s t o
      → IsTopic s' t o'
  IsTopic-of s s' t none o' eo ei ec inner (a, b) = subst (IsTopic s' t) (sym eo) (ei ∙ a, ec ∙ b)
  IsTopic-of s s' t (some l) o' eo ei ec inner (id, at, h) = subst (IsTopic s' t) (sym eo) (
    id,
    ei ∙ at,
    subst (λ c. IsTopicOf (s'.inner id) c l) (sym ec)
        (subst (λ m. IsTopicOf m (count_of s t) l) (sym (inner id at)) h),
  )

  pub Represents-of_change :
      (key : Key) (id : ℕ) (s s' : ArrayStore p) (v v' : View) (l : List ℕ)
      → id_of s key ≡ some id
      → ChangesTopic key id s s' v v'
      → Represents s v
      → v' key ≡ some l
      → IsTopicOf (s'.inner id) (count_of s' key) l
      → Represents s' v'
  Represents-of_change key id s s' v v' l at c w now h = record {
    distinct = λ t u i a b. w.distinct t u i (same t ∙ a) (same u ∙ b);
    topic = λ t. elim (Key-discrete t key) [
      | yes q ↦
          subst (λ k. IsTopic s' k (v' k)) (sym q)
            (subst (IsTopic s' key) (sym now) (id, sym (same key) ∙ at, h))
      | no q ↦
          IsTopic-of s s' t (v t) (v' t) (c.same_view t q) (sym (same t)) (c.same_count t q)
            (λ i a. c.same_inner i (λ e. q (w.distinct t key id (a ∙ ap some e) at))) (w.topic t)
    ];
  }
    where
      same : (t : Key) → id_of s t ≡ id_of s' t
      same t = ap (λ m. p.topics.lookup_elem m t) (sym c.same_topics)

  -- A topic that is new, under an id that is new.
  pub Represents-of_new :
      (key : Key) (id : ℕ) (s s' : ArrayStore p) (v : View)
      → v key ≡ none
      → ((t : Key) → id_of s t ≢ some id)
      → id_of s' key ≡ some id
      → ((t : Key) → t ≢ key → id_of s' t ≡ id_of s t)
      → s'.topic_sub_cnt ≡ s.topic_sub_cnt
      → ((i : ℕ) → i ≢ id → s'.inner i ≡ s.inner i)
      → s'.inner id ≡ p.arrays.create max_subscribers
      → Represents s v
      → Represents s' (replaced v key [])
  Represents-of_new key id s s' v unknown fresh here others counts inner array w = record {
    distinct = λ t u i a b. elim (Key-discrete t key) [
      | yes q ↦ elim (Key-discrete u key) [
        | yes r ↦ q ∙ sym r
        | no r ↦ absurd (fresh u (sym (others u r) ∙ b ∙ sym (at_key t i q a)))
      ]
      | no q ↦ elim (Key-discrete u key) [
        | yes r ↦ absurd (fresh t (sym (others t q) ∙ a ∙ sym (at_key u i r b)))
        | no r ↦ w.distinct t u i (sym (others t q) ∙ a) (sym (others u r) ∙ b)
      ]
    ];
    topic = λ t. elim (Key-discrete t key) [
      | yes q ↦
          subst (λ k. IsTopic s' k (replaced v key [] k)) (sym q)
            (subst (IsTopic s' key) (sym (replaced_self v key [])) (id, here, new_topic))
      | no q ↦
          IsTopic-of s s' t (v t) (replaced v key [] t) (replaced_ne v key t [] q) (others t q)
            (ap (λ m. p.counts.lookup_elem m t) counts)
            (λ i a. inner i (λ e. fresh t (a ∙ ap some e))) (w.topic t)
    ];
  }
    where
      at_key : (t : Key) (i : ℕ) → t ≡ key → id_of s' t ≡ some i → some id ≡ some i
      at_key t i q a = sym here ∙ ap (id_of s') (sym q) ∙ a

      uncounted : count_of s' key ≡ none
      uncounted =
          ap (λ m. p.counts.lookup_elem m key) counts
          ∙ (subst (IsTopic s key) unknown (w.topic key)).1

      new_topic : IsTopicOf (s'.inner id) (count_of s' key) []
      new_topic = record {
        size = ap p.arrays.max_entries array ∙ p.arrays.max_entries-create max_subscribers;
        counted = ap count_or_zero uncounted;
        few = omega arith;
        entries = tt;
      }
