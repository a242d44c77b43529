-- ===== src/Proto/Service/Invariant.antt =====
-- The invariant of the shared maps, and how a change to one topic keeps it.
use bpf_broker.Prelude.{
  ℕ, ◌≡◌, sym, ap, ◌∙◌, ◌≢◌, ◌⊎◌, inl, inr, arith, List, [], ◌∷◌, Option, none, some,
}
use native.Mathlib.Decide.{ℕ_discrete}
use bpf_broker.Parse.{Key}
use bpf_broker.Proto.Store.{Platform, Store, with_inner}

unfoldable pub Key-discrete : Discrete Key
Key-discrete = hlevel ℕ_discrete

-- One topic: its subscribers, its count and its first subscriber. With a count of one the first
-- subscriber, if it is stored, is the only one; with none there is no subscriber.
pub record TopicFits (subscribers : List ℕ) (count first : Option ℕ) : Type 0 where
  pub single : (k : ℕ) → count ≡ some 1 → first ≡ some k → subscribers ≡ k ∷ []
  pub idle : (count ≡ none) ⊎ (count ≡ some 0) → subscribers ≡ []

pub TopicFits-of :
    {l l' : List ℕ} {c c' f f' : Option ℕ}
    → l' ≡ l
    → c' ≡ c
    → f' ≡ f
    → TopicFits l c f
    → TopicFits l' c' f'
TopicFits-of el ec ef fits = record {
  single = λ k e h. el ∙ fits.single k (sym ec ∙ e) (sym ef ∙ h);
  idle = λ h. elim h [
    | inl e ↦ el ∙ fits.idle (inl (sym ec ∙ e))
    | inr e ↦ el ∙ fits.idle (inr (sym ec ∙ e))
  ];
}

module _ (p : Platform) where
  abbrev pub id_of : Store p → Key → Option ℕ
  id_of s t = p.topics.lookup_elem s.topic_subscribe t

  abbrev pub count_of : Store p → Key → Option ℕ
  count_of s t = p.counts.lookup_elem s.topic_sub_cnt t

  abbrev pub first_of_topic : Store p → Key → Option ℕ
  first_of_topic s t = p.firsts.lookup_elem s.topic_first_sub t

  abbrev pub subscribers : Store p → ℕ → List ℕ
  subscribers s i = p.subs.keys (s.inner i)

  pub record WellFormed (s : Store p) : Type 0 where
    -- No two topics share an inner map.
    pub distinct : (t u : Key) (i : ℕ) → id_of s t ≡ some i → id_of s u ≡ some i → t ≡ u
    -- Only registered topics have a count.
    pub counted : (t : Key) (n : ℕ) → count_of s t ≡ some n → (i : ℕ) × (id_of s t ≡ some i)
    pub topic :
        (t : Key) (i : ℕ)
        → id_of s t ≡ some i
        → TopicFits (subscribers s i) (count_of s t) (first_of_topic s t)

  -- `s'` differs from `s` at the topic `key`, whose inner map is `id`, at most.
  pub record ChangesOnly (key : Key) (id : ℕ) (s s' : Store p) : Type 0 where
    pub same_topics : s'.topic_subscribe ≡ s.topic_subscribe
    pub same_inner : (i : ℕ) → i ≢ id → s'.inner i ≡ s.inner i
    pub same_count : (t : Key) → t ≢ key → count_of s' t ≡ count_of s t
    pub same_first : (t : Key) → t ≢ key → first_of_topic s' t ≡ first_of_topic s t

  -- Then only that topic has to be looked at.
  pub WellFormed-of_change :
      (key : Key) (id : ℕ) (s s' : Store p)
      → id_of s key ≡ some id
      → ChangesOnly key id s s'
      → WellFormed s
      → TopicFits (subscribers s' id) (count_of s' key) (first_of_topic s' key)
      → WellFormed s'
  WellFormed-of_change key id s s' at c w fits = record {
    distinct = λ t u i a b. w.distinct t u i (same t ∙ a) (same u ∙ b);
    counted = λ t n e. elim (Key-discrete t key) [
      | yes q ↦ (id, sym (same t) ∙ ap (id_of s) q ∙ at)
      | no q ↦ let (i, a) = w.counted t n (sym (c.same_count t q) ∙ e) in (i, sym (same t) ∙ a)
    ];
    topic = λ t i a. elim (Key-discrete t key) [
      | yes q ↦ let e : i ≡ id = cc (same t, a, ap (id_of s) q, at) in rw (e, q) fits
      | no q ↦
          let n : i ≢ id = λ e. q (w.distinct t key id (same t ∙ a ∙ ap some e) at) in
          TopicFits-of (ap (λ m. p.subs.keys m) (c.same_inner i n)) (c.same_count t q)
            (c.same_first t q) (w.topic t i (same t ∙ a))
    ];
  }
    where
      same : (t : Key) → id_of s t ≡ id_of s' t
      same t = ap (λ m. p.topics.lookup_elem m t) (sym c.same_topics)

  -- An inner map that is replaced, and the others.
  pub with_inner_self :
      (inner : ℕ → p.subs.Map) (id : ℕ) (m : p.subs.Map) → with_inner p inner id m id ≡ m
  with_inner_self inner id m = ground arith

  pub with_inner_ne :
      (inner : ℕ → p.subs.Map) (id : ℕ) (m : p.subs.Map) (i : ℕ)
      → i ≢ id
      → with_inner p inner id m i ≡ inner i
  with_inner_ne inner id m i n = ground arith
