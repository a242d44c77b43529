-- ===== src/Proto/Service/Subscribe.antt =====
-- add_subscriber: the insertion, the count and the first subscriber.
use bpf_broker.Prelude.{
  ℕ, ◌-◌, ◌^◌, ◌≤◌, ◌<◌, ◌≡◌, refl, sym, ap, ◌∙◌, ◌≢◌, ◌⊎◌, inl, inr, arith, true, false, List, [],
  ◌∷◌, Option, none, some, Option-cases,
}
use native.Mathlib.Decide.{dec_le, ℕ_discrete}
use bpf_broker.Parse.{Key}
use bpf_broker.Maps.{keys_of_single, absent_of_keys}
use bpf_broker.Proto.Text.{strlen, padded, pack}
use bpf_broker.Proto.Store.{Platform, Store, Env, with_inner}
use bpf_broker.Proto.Service.{
  Status, ok, failed, done, next_count, store_first, insert_subscriber, add_subscriber,
}
use bpf_broker.Proto.Service.Invariant.{
  TopicFits, TopicFits-of, id_of, count_of, first_of_topic, WellFormed, ChangesOnly,
  WellFormed-of_change, with_inner_self, with_inner_ne,
}

-- Below the limit of 32 bits the count becomes one only from nothing, and never zero.
next_count_one :
    (o : Option ℕ)
    → ((c : ℕ) → o ≡ some c → c < 2 ^ 32 - 1)
    → next_count o ≡ 1
    → (o ≡ none) ⊎ (o ≡ some 0)
next_count_one none small one = inl refl
next_count_one (some c) small one = let h = small c refl in inr (ap some (omega arith))

next_count_pos : (o : Option ℕ) → ((c : ℕ) → o ≡ some c → c < 2 ^ 32 - 1) → next_count o ≢ 0
next_count_pos none small zero_count = absurd (omega arith)
next_count_pos (some c) small zero_count = let h = small c refl in absurd (omega arith)

module _ (p : Platform) (env : Env) (topic : Key) (id key : ℕ) (s : Store p) where
  -- The store with the subscriber in the inner map, with the new count, and with the subscriber as
  -- the first.
  abbrev inserted : p.subs.Map → Store p
  inserted subs = record s { inner = with_inner p s.inner id subs }

  abbrev current : ℕ
  current = next_count (count_of p s topic)

  abbrev counted : p.subs.Map → p.counts.Map → Store p
  counted subs counts = record (inserted subs) { topic_sub_cnt = counts }

  -- The subscriber is in with those before it, the topic's count is one higher, and nothing else has changed, but
  -- perhaps the topic's first subscriber: an answer of 0 to the only subscriber has stored it.
  pub record IsSubscription (status : Status) (s' : Store p) : Type 0 where
    pub changes : ChangesOnly p topic id s s'
    pub present : p.subs.lookup_elem (s'.inner id) key ≡ some env.dummy
    pub kept :
        (k : ℕ) → k ≢ key → p.subs.lookup_elem (s'.inner id) k ≡ p.subs.lookup_elem (s.inner id) k
    pub count : count_of p s' topic ≡ some (next_count (count_of p s topic))
    pub first : status ≡ ok → current ≡ 1 → first_of_topic p s' topic ≡ some key
    pub succeeds : p.firsts.update_elem s.topic_first_sub topic key ≢ none → status ≡ ok
    pub valid : WellFormed p s'

  module _ (subs : p.subs.Map) (counts : p.counts.Map)
      (insertion : p.subs.update_elem (s.inner id) key env.dummy ≡ some subs)
      (counting : p.counts.update_elem s.topic_sub_cnt topic current ≡ some counts)
      (at : id_of p s topic ≡ some id)
      (small : (c : ℕ) → count_of p s topic ≡ some c → c < 2 ^ 32 - 1) (w : WellFormed p s) where
    new_count :
        (first : p.firsts.Map)
        → count_of p (record (counted subs counts) { topic_first_sub = first }) topic ≡ some current
    new_count first = p.counts.lookup-update_self s.topic_sub_cnt counts topic current counting

    -- Where the count becomes one, there was no subscriber before.
    alone : current ≡ 1 → p.subs.keys subs ≡ key ∷ []
    alone one =
        keys_of_single p.subs subs ℕ_discrete key
          (λ e. cc (p.subs.lookup-update_self (s.inner id) subs key env.dummy insertion))
          λ k n.
            p.subs.lookup-update_ne (s.inner id) subs key k env.dummy insertion n
            ∙ absent_of_keys p.subs (s.inner id) ((w.topic topic id at).idle none_before) k
      where
        none_before : (count_of p s topic ≡ none) ⊎ (count_of p s topic ≡ some 0)
        none_before = next_count_one (count_of p s topic) small one

    -- The topic, with `first` as the map of first subscribers.
    fits :
        (first : p.firsts.Map)
        → (current ≡ 1 → (k : ℕ) → p.firsts.lookup_elem first topic ≡ some k → k ≡ key)
        → TopicFits (p.subs.keys subs) (some current) (p.firsts.lookup_elem first topic)
    fits first only = record {
      single = λ k e h.
          let one : current ≡ 1 = ground arith in alone one ∙ ap (λ j. j ∷ []) (sym (only one k h));
      idle = λ h. absurd (next_count_pos (count_of p s topic) small (zero_count h));
    }
      where
        zero_count : (some current ≡ none) ⊎ (some current ≡ some 0) → current ≡ 0
        zero_count (inl e) = absurd (cc e)
        zero_count (inr e) = ground arith

    subscription :
        (status : Status) (first : p.firsts.Map)
        → (status ≡ ok → current ≡ 1 → p.firsts.lookup_elem first topic ≡ some key)
        → (p.firsts.update_elem s.topic_first_sub topic key ≢ none → status ≡ ok)
        → ((t : Key) → t ≢ topic → p.firsts.lookup_elem first t ≡ first_of_topic p s t)
        → (current ≡ 1 → (k : ℕ) → p.firsts.lookup_elem first topic ≡ some k → k ≡ key)
        → IsSubscription status (record (counted subs counts) { topic_first_sub = first })
    subscription status first stored fine others only = record {
      changes = change;
      present =
          ap (λ m. p.subs.lookup_elem m key) (with_inner_self p s.inner id subs)
          ∙ p.subs.lookup-update_self (s.inner id) subs key env.dummy insertion;
      kept = λ k n.
          ap (λ m. p.subs.lookup_elem m k) (with_inner_self p s.inner id subs)
          ∙ p.subs.lookup-update_ne (s.inner id) subs key k env.dummy insertion n;
      count = new_count first;
      first = stored;
      succeeds = fine;
      valid = WellFormed-of_change p topic id s s' at change w (
          TopicFits-of (ap (λ m. p.subs.keys m) (with_inner_self p s.inner id subs))
            (new_count first) refl (fits first only));
    }
      where
        s' : Store p
        s' = record (counted subs counts) { topic_first_sub = first }

        change : ChangesOnly p topic id s s'
        change = record {
          same_topics = refl;
          same_inner = with_inner_ne p s.inner id subs;
          same_count =
              λ t n. p.counts.lookup-update_ne s.topic_sub_cnt counts topic t current counting n;
          same_first = others;
        }

    -- What store_first leaves behind, whether or not it can store.
    first_stored :
        (status : Status) × (s' : Store p) × (store_first p env topic key current
            (counted subs counts)
          ≡ (status, s'))
        × IsSubscription status s'
    unfolding store_first
    first_stored = elim (ℕ_discrete current 1) [
      | no n ↦ (
        ok,
        counted subs counts,
        ground arith,
        subscription ok s.topic_first_sub (λ q one. absurd (n one)) (λ q. refl) (λ t q. refl)
            (λ one. absurd (n one)),
      )
      | yes one ↦ elim (Option-cases (p.firsts.update_elem s.topic_first_sub topic key)) [
        | inl full ↦ (
          failed,
          counted subs counts,
          ground arith,
          subscription failed s.topic_first_sub (λ q one. absurd (cc q)) (λ q. absurd (q full))
              (λ t q. refl)
              λ _ k h.
                let (m, u) = p.firsts.update_present s.topic_first_sub topic key k h in absurd (cc),
        )
        | inr (first, stored) ↦ (
          ok,
          record (counted subs counts) { topic_first_sub = first },
          ground arith,
          subscription ok first
              (λ q one. p.firsts.lookup-update_self s.topic_first_sub first topic key stored)
              (λ q. refl)
              (λ t q. p.firsts.lookup-update_ne s.topic_first_sub first topic t key stored q)
              λ _ k h. cc (p.firsts.lookup-update_self s.topic_first_sub first topic key stored, h),
        )
      ]
    ]

module _ (p : Platform) (env : Env) where
  -- There is room for the topic's count.
  abbrev pub HasRoom : Key → Store p → Type 0
  HasRoom topic s = count_of p s topic ≡ none → p.counts.update_elem s.topic_sub_cnt topic 1 ≢ none

  count_updated :
      (topic : Key) (s : Store p)
      → HasRoom topic s
      → (counts : p.counts.Map) × (p.counts.update_elem s.topic_sub_cnt topic
            (next_count (count_of p s topic))
          ≡ some counts)
  count_updated topic s room = elim (Option-cases (count_of p s topic)) [
    | inr (c, e) ↦
        p.counts.update_present s.topic_sub_cnt topic (next_count (count_of p s topic)) c e
    | inl e ↦ elim (Option-cases (p.counts.update_elem s.topic_sub_cnt topic 1)) [
      | inl full ↦ absurd (room e full)
      | inr (m, u) ↦ (m, rw e u)
    ]
  ]

  insert_subscriber_steps :
      (topic : Key) (id key : ℕ) (s : Store p) (subs : p.subs.Map) (counts : p.counts.Map)
      → env.fd_by_id ≡ true
      → p.subs.update_elem (s.inner id) key env.dummy ≡ some subs
      → p.counts.update_elem s.topic_sub_cnt topic (next_count (count_of p s topic)) ≡ some counts
      → insert_subscriber p env topic id key s
        ≡ store_first p env topic key
            (next_count (count_of p s topic))
            (counted p env topic id key s subs counts)
  unfolding insert_subscriber
  insert_subscriber_steps topic id key s subs counts fd e u = ground arith

  -- For well-formed maps, a registered topic of fewer than 20 characters whose map can be opened
  -- and takes the subscriber, room for the topic's count and a count below 2 ^ 32 - 1:
  -- add_subscriber returns, the subscriber is in the topic's map with those before it, the count is
  -- one higher, no other topic changes and the invariant is kept. It returns 0 if the first
  -- subscriber can be stored, and after a return of 0 with a count of one it is stored.
  pub add_subscriber-IsSubscription :
      (len id ip port : ℕ) (topic_name : List ℕ) (s : Store p) (subs : p.subs.Map)
      → strlen topic_name ≡ some len
      → len < 20
      → id_of p s (padded len topic_name) ≡ some id
      → env.fd_by_id ≡ true
      → p.subs.update_elem (s.inner id) (pack ip port) env.dummy ≡ some subs
      → HasRoom (padded len topic_name) s
      → ((c : ℕ) → count_of p s (padded len topic_name) ≡ some c → c < 2 ^ 32 - 1)
      → WellFormed p s
      → (status : Status) × (s' : Store p) × (add_subscriber p env topic_name ip port s
          ≡ done (status, s'))
        × IsSubscription p env (padded len topic_name) id (pack ip port) s status s'
  unfolding add_subscriber
  add_subscriber-IsSubscription len id ip port topic_name s subs e short at fd inserting room small
        w =
      let topic = padded len topic_name in
      let (counts, counting) = count_updated topic s room in
      let (status, s', run, sub) =
        first_stored p env topic id (pack ip port) s subs counts inserting counting at small w in
      let steps =
        insert_subscriber_steps topic id (pack ip port) s subs counts fd inserting counting in
      (status, s', ground arith, sub)

  -- For a name that is terminated and of 20 characters or more, or a map that cannot be opened, or
  -- a topic that is not registered or whose map does not take the subscriber: add_subscriber
  -- returns -1 and changes nothing.
  pub add_subscriber_unchanged :
      (len ip port : ℕ) (topic_name : List ℕ) (s : Store p)
      → strlen topic_name ≡ some len
      → (20 ≤ len)
        ⊎ (env.fd_by_id ≡ false)
        ⊎ ((id : ℕ)
            → id_of p s (padded len topic_name) ≡ some id
            → p.subs.update_elem (s.inner id) (pack ip port) env.dummy ≡ none)
      → add_subscriber p env topic_name ip port s ≡ done (failed, s)
  unfolding add_subscriber
  add_subscriber_unchanged len ip port topic_name s e why = elim (dec_le 20 len) [
    | yes long ↦ ground arith
    | no short ↦ elim (Option-cases (id_of p s (padded len topic_name))) [
      | inl unknown ↦ ground arith
      | inr (id, at) ↦ elim why [
        | inl long ↦ absurd (short long)
        | inr (inl no_fd) ↦ ground arith
        | inr (inr refused) ↦ let full = refused id at in ground arith
      ]
    ]
  ]
