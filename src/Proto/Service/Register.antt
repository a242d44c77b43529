-- ===== src/Proto/Service/Register.antt =====
-- add_topic: a new topic starts without subscribers.
use bpf_broker.Prelude.{
  ℕ, ◌≤◌, ◌<◌, ◌≡◌, refl, sym, ap, ◌∙◌, ◌≢◌, inl, inr, arith, List, [], none, some, Option-cases,
}
use bpf_broker.Parse.{Key}
use bpf_broker.Maps.{keys_of_absent}
use bpf_broker.Proto.Text.{strlen, padded}
use bpf_broker.Proto.Store.{Platform, Store, Env, with_inner}
use bpf_broker.Proto.Service.{Status, ok, failed, done, create_topic, add_topic}
use bpf_broker.Proto.Service.Invariant.{
  Key-discrete, TopicFits, TopicFits-of, id_of, count_of, first_of_topic, subscribers, WellFormed,
  with_inner_self, with_inner_ne,
}

module _ (p : Platform) (env : Env) (key : Key) (id : ℕ) (s : Store p) where
  -- The store with the topic in it.
  abbrev registered : p.topics.Map → Store p
  registered outer = record s {
    topic_subscribe = outer;
    inner = with_inner p s.inner id p.subs.empty;
  }

  module _ (outer : p.topics.Map)
      (updated : p.topics.update_elem s.topic_subscribe key id ≡ some outer)
      (absent : id_of p s key ≡ none) (unused : (t : Key) → id_of p s t ≢ some id)
      (w : WellFormed p s) where
    new_id : id_of p (registered outer) key ≡ some id
    new_id = p.topics.lookup-update_self s.topic_subscribe outer key id updated

    old_id : (t : Key) → t ≢ key → id_of p (registered outer) t ≡ id_of p s t
    old_id t n = p.topics.lookup-update_ne s.topic_subscribe outer key t id updated n

    no_count : count_of p s key ≡ none
    no_count = elim (Option-cases (count_of p s key)) [
      | inl e ↦ e
      | inr (c, e) ↦ let (i, at) = w.counted key c e in absurd (cc (at, absent))
    ]

    -- A topic other than the new one does not have its map.
    apart : (t : Key) (i : ℕ) → t ≢ key → id_of p (registered outer) t ≡ some i → i ≢ id
    apart t i n a e = unused t (sym (old_id t n) ∙ a ∙ ap some e)

    registered-distinct :
        (t u : Key) (i : ℕ)
        → id_of p (registered outer) t ≡ some i
        → id_of p (registered outer) u ≡ some i
        → t ≡ u
    registered-distinct t u i a b = elim (Key-discrete t key) [
      | yes q ↦ elim (Key-discrete u key) [
        | yes r ↦ q ∙ sym r
        | no r ↦ absurd (apart u i r b (cc (a, ap (id_of p (registered outer)) q, new_id)))
      ]
      | no q ↦ elim (Key-discrete u key) [
        | yes r ↦ absurd (apart t i q a (cc (b, ap (id_of p (registered outer)) r, new_id)))
        | no r ↦ w.distinct t u i (sym (old_id t q) ∙ a) (sym (old_id u r) ∙ b)
      ]
    ]

    new_subscribers : subscribers p (registered outer) id ≡ []
    new_subscribers =
        ap (λ m. p.subs.keys m) (with_inner_self p s.inner id p.subs.empty)
        ∙ keys_of_absent p.subs p.subs.empty p.subs.lookup-empty

    new_topic :
        TopicFits (subscribers p (registered outer) id) (count_of p s key) (first_of_topic p s key)
    new_topic = record { single = λ k e h. absurd (cc (no_count, e)); idle = λ h. new_subscribers }

    pub registered-WellFormed : WellFormed p (registered outer)
    registered-WellFormed = record {
      distinct = registered-distinct;
      counted = λ t n e. elim (Key-discrete t key) [
        | yes q ↦ (id, ap (id_of p (registered outer)) q ∙ new_id)
        | no q ↦ let (i, at) = w.counted t n e in (i, old_id t q ∙ at)
      ];
      topic = λ t i a. elim (Key-discrete t key) [
        | yes q ↦
            let e : i ≡ id = cc (a, ap (id_of p (registered outer)) q, new_id) in
            TopicFits-of (ap (subscribers p (registered outer)) e) (ap (count_of p s) q)
              (ap (first_of_topic p s) q) new_topic
        | no q ↦
            TopicFits-of
              (ap (λ m. p.subs.keys m) (with_inner_ne p s.inner id p.subs.empty i (apart t i q a)))
              refl refl (w.topic t i (sym (old_id t q) ∙ a))
      ];
    }

-- The kernel gives a new map an id that no topic has.
abbrev pub FreshId : (p : Platform) → Env → Store p → Type 0
FreshId p env s = (id : ℕ) → env.created ≡ some id → (t : Key) → id_of p s t ≢ some id

module _ (p : Platform) (env : Env) where
  -- After an answer of 0 the topic is registered, and one that was registered keeps its map; after
  -- -1 it is not, and nothing has changed. Other topics, counts and first subscribers stay either way.
  pub record IsRegistration (key : Key) (s : Store p) (status : Status) (s' : Store p)
      : Type 0 where
    pub success : status ≡ ok → (i : ℕ) × (id_of p s' key ≡ some i)
    pub known : id_of p s key ≢ none → s' ≡ s
    pub failure : status ≡ failed → s' ≡ s
    pub refused : status ≡ failed → id_of p s key ≡ none
    pub others : (t : Key) → t ≢ key → id_of p s' t ≡ id_of p s t
    pub same_inner : (t : Key) (i : ℕ) → id_of p s t ≡ some i → s'.inner i ≡ s.inner i
    pub same_counts : s'.topic_sub_cnt ≡ s.topic_sub_cnt
    pub same_firsts : s'.topic_first_sub ≡ s.topic_first_sub
    pub valid : WellFormed p s'

  unchanged_by_failure :
      (key : Key) (s : Store p)
      → id_of p s key ≡ none
      → WellFormed p s
      → IsRegistration key s failed s
  unchanged_by_failure key s absent w = record {
    success = λ e. absurd (cc e);
    known = λ n. refl;
    failure = λ e. refl;
    refused = λ e. absent;
    others = λ t n. refl;
    same_inner = λ t i at. refl;
    same_counts = refl;
    same_firsts = refl;
    valid = w;
  }

  create_topic-IsRegistration :
      (key : Key) (s : Store p)
      → id_of p s key ≡ none
      → FreshId p env s
      → WellFormed p s
      → (status : Status) × (s' : Store p) × (create_topic p env key s ≡ (status, s'))
        × IsRegistration key s status s'
  unfolding create_topic
  create_topic-IsRegistration key s absent fresh w = elim (Option-cases env.created) [
    | inl e ↦ (failed, s, ground arith, unchanged_by_failure key s absent w)
    | inr (id, e) ↦ elim (Option-cases (p.topics.update_elem s.topic_subscribe key id)) [
      | inl full ↦ (failed, s, ground arith, unchanged_by_failure key s absent w)
      | inr (outer, updated) ↦ (
        ok,
        registered p env key id s outer,
        ground arith,
        record {
          success = λ q. (id, new_id p env key id s outer updated absent (fresh id e) w);
          known = λ n. absurd (n absent);
          failure = λ q. absurd (cc q);
          refused = λ q. absurd (cc q);
          others = old_id p env key id s outer updated absent (fresh id e) w;
          same_inner = λ t i at.
              with_inner_ne p s.inner id p.subs.empty i (λ q. fresh id e t (at ∙ ap some q));
          same_counts = refl;
          same_firsts = refl;
          valid = registered-WellFormed p env key id s outer updated absent (fresh id e) w;
        },
      )
    ]
  ]

  -- For well-formed maps, a name of fewer than 20 characters and a kernel that gives new maps new
  -- ids: add_topic returns; after 0 the topic is registered, after -1 nothing has changed, a topic
  -- that was registered changes nothing, other topics, counts and first subscribers stay as they
  -- are, and the invariant is kept.
  pub add_topic-IsRegistration :
      (len : ℕ) (topic_name : List ℕ) (s : Store p)
      → strlen topic_name ≡ some len
      → len < 20
      → FreshId p env s
      → WellFormed p s
      → (status : Status) × (s' : Store p) × (add_topic p env topic_name s ≡ done (status, s'))
        × IsRegistration (padded len topic_name) s status s'
  unfolding add_topic
  add_topic-IsRegistration len topic_name s e short fresh w =
      let key = padded len topic_name in
      elim (Option-cases (id_of p s key)) [
        | inr (id, at) ↦ (
          ok,
          s,
          ground arith,
          record {
            success = λ q. (id, at);
            known = λ n. refl;
            failure = λ q. refl;
            refused = λ q. absurd (cc q);
            others = λ t n. refl;
            same_inner = λ t i a. refl;
            same_counts = refl;
            same_firsts = refl;
            valid = w;
          },
        )
        | inl absent ↦
            let (status, s', made, reg) = create_topic-IsRegistration key s absent fresh w in
            (status, s', ground arith, reg)
      ]

  -- A name of 20 characters or more: -1, and nothing has changed.
  pub add_topic_unchanged :
      (len : ℕ) (topic_name : List ℕ) (s : Store p)
      → strlen topic_name ≡ some len
      → 20 ≤ len
      → add_topic p env topic_name s ≡ done (failed, s)
  unfolding add_topic
  add_topic_unchanged len topic_name s e long = ground arith
