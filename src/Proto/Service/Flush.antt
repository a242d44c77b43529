-- ===== src/Proto/Service/Flush.antt =====
-- flush_topic: the loop ends, and the topic is left without subscribers.
use bpf_broker.Prelude.{
  ℕ, zero, suc, ◌<◌, ◌≤◌, ◌≡◌, refl, ap, ◌∙◌, ◌≢◌, ◌⊎◌, inl, inr, arith, true, false, List, [],
  none, some, Option-cases, length,
}
use native.Mathlib.Decide.{dec_le}
use bpf_broker.Parse.{Key}
use bpf_broker.Proto.Text.{strlen, padded}
use bpf_broker.Proto.Store.{Platform, Store, Env, with_inner}
use bpf_broker.Proto.Service.{Status, ok, failed, done, flush_loop, reset_count, flush_topic}
use bpf_broker.Proto.Service.Invariant.{
  id_of, count_of, first_of_topic, subscribers, WellFormed, ChangesOnly, WellFormed-of_change,
  with_inner_self, with_inner_ne,
}

module _ (p : Platform) (env : Env) where
  flush_loop_stops :
      (fuel : ℕ) (m : p.subs.Map)
      → p.subs.first_key m ≡ none
      → flush_loop p env (suc fuel) m ≡ some m
  unfolding flush_loop
  flush_loop_stops fuel m e = ground arith

  flush_loop_deletes :
      (fuel : ℕ) (m m' : p.subs.Map) (key : ℕ)
      → p.subs.first_key m ≡ some key
      → p.subs.delete_elem m key ≡ some m'
      → flush_loop p env (suc fuel) m ≡ flush_loop p env fuel m'
  unfolding flush_loop
  flush_loop_deletes fuel m m' key e d = ground arith

  -- With more fuel than entries the loop ends, at a map without entries.
  pub flush_loop_ends :
      (fuel : ℕ) (m : p.subs.Map)
      → length (p.subs.keys m) < fuel
      → (m' : p.subs.Map) × (flush_loop p env fuel m ≡ some m') × (p.subs.keys m' ≡ [])
  flush_loop_ends zero m h = absurd (omega arith)
  flush_loop_ends (suc fuel) m h = elim (Option-cases (p.subs.first_key m)) [
    | inl e ↦ (m, flush_loop_stops fuel m e, p.subs.first_key_none m e)
    | inr (key, e) ↦ elim (Option-cases (p.subs.delete_elem m key)) [
      | inl d ↦ absurd (
          p.subs.holds_present m key (p.subs.first_key_some m key e) (p.subs.delete_absent m key d))
      | inr (m', d) ↦
          rw (flush_loop_deletes fuel m m' key e d)
            (flush_loop_ends fuel m' (omega (arith, p.subs.length-delete m m' key d)))
    ]
  ]

  -- A reset count is zero or missing.
  reset_count_of :
      (key : Key) (s : Store p)
      → (count_of p (reset_count p env key s) key ≡ none)
        ⊎ (count_of p (reset_count p env key s) key ≡ some 0)
  unfolding reset_count
  reset_count_of key s = elim (Option-cases (p.counts.update_elem s.topic_sub_cnt key 0)) [
    | inr (m, e) ↦ inr (rw e (p.counts.lookup-update_self s.topic_sub_cnt m key 0 e))
    | inl e ↦ elim (Option-cases (count_of p s key)) [
      | inl n ↦ inl (rw e n)
      | inr (c, h) ↦ let (m, u) = p.counts.update_present s.topic_sub_cnt key 0 c h in absurd (cc)
    ]
  ]

  reset_first_of : (key : Key) (s : Store p) → first_of_topic p (reset_count p env key s) key ≡ none
  unfolding reset_count
  reset_first_of key s = elim (Option-cases (p.firsts.delete_elem s.topic_first_sub key)) [
    | inl e ↦ rw e (p.firsts.delete_absent s.topic_first_sub key e)
    | inr (m, e) ↦ rw e (p.firsts.lookup-delete_self s.topic_first_sub m key e)
  ]

  reset_count_ne :
      (key t : Key) (s : Store p)
      → t ≢ key
      → (count_of p (reset_count p env key s) t ≡ count_of p s t)
        × (first_of_topic p (reset_count p env key s) t ≡ first_of_topic p s t)
  unfolding reset_count
  reset_count_ne key t s n = (
    elim (Option-cases (p.counts.update_elem s.topic_sub_cnt key 0)) [
      | inl e ↦ rw e
      | inr (m, e) ↦ rw e (p.counts.lookup-update_ne s.topic_sub_cnt m key t 0 e n)
    ],
    elim (Option-cases (p.firsts.delete_elem s.topic_first_sub key)) [
      | inl e ↦ rw e
      | inr (m, e) ↦ rw e (p.firsts.lookup-delete_ne s.topic_first_sub m key t e n)
    ],
  )

  change :
      (key : Key) (id : ℕ) (s : Store p) (m : p.subs.Map)
      → ChangesOnly p key id s
          (reset_count p env key (record s { inner = with_inner p s.inner id m }))
  change key id s m = record {
    same_topics = unfold reset_count in refl;
    same_inner = unfold reset_count in with_inner_ne p s.inner id m;
    same_count = λ t n. (reset_count_ne key t (record s { inner = with_inner p s.inner id m }) n).0;
    same_first = λ t n. (reset_count_ne key t (record s { inner = with_inner p s.inner id m }) n).1;
  }

  -- The topic after the loop and the reset.
  flushed :
      (key : Key) (id : ℕ) (s : Store p) (m : p.subs.Map)
      → id_of p s key ≡ some id
      → p.subs.keys m ≡ []
      → WellFormed p s
      → WellFormed p (reset_count p env key (record s { inner = with_inner p s.inner id m }))
  flushed key id s m at empty w =
      WellFormed-of_change p key id s (reset_count p env key s1) at (change key id s m) w
        (record { single = λ k one first. absurd (no_first k first); idle = λ h. no_subscribers })
    where
      s1 : Store p
      s1 = record s { inner = with_inner p s.inner id m }

      no_first : (k : ℕ) → first_of_topic p (reset_count p env key s1) key ≢ some k
      no_first k e = cc (reset_first_of key s1)

      no_subscribers : subscribers p (reset_count p env key s1) id ≡ []
      no_subscribers =
          unfold reset_count in ap (λ n. p.subs.keys n) (with_inner_self p s.inner id m) ∙ empty

  -- What flush_topic does before its loop.
  flush_topic_loop :
      (fuel len id : ℕ) (topic_name : List ℕ) (s : Store p) (m : p.subs.Map)
      → strlen topic_name ≡ some len
      → len < 20
      → id_of p s (padded len topic_name) ≡ some id
      → env.fd_by_id ≡ true
      → flush_loop p env fuel (s.inner id) ≡ some m
      → flush_topic p env fuel topic_name s
        ≡ done (
          ok,
          reset_count p env
              (padded len topic_name)
              (record s { inner = with_inner p s.inner id m }),
        )
  unfolding flush_topic
  flush_topic_loop fuel len id topic_name s m e short at fd run = ground arith

  -- The topic `key` has lost its subscribers, and no other topic has changed.
  pub record IsFlushed (key : Key) (id : ℕ) (s s' : Store p) : Type 0 where
    pub changes : ChangesOnly p key id s s'
    pub no_subscribers : subscribers p s' id ≡ []
    pub no_count : (count_of p s' key ≡ none) ⊎ (count_of p s' key ≡ some 0)
    pub no_first : first_of_topic p s' key ≡ none

  -- For well-formed maps, a registered topic of fewer than 20 characters whose map can be opened,
  -- and more fuel than the topic has subscribers: flush_topic returns 0, leaves the topic without
  -- subscribers, without a first subscriber and with no count or a count of zero, changes no other
  -- topic, and keeps the invariant.
  pub flush_topic-IsFlushed :
      (fuel len id : ℕ) (topic_name : List ℕ) (s : Store p)
      → strlen topic_name ≡ some len
      → len < 20
      → id_of p s (padded len topic_name) ≡ some id
      → env.fd_by_id ≡ true
      → length (subscribers p s id) < fuel
      → WellFormed p s
      → (s' : Store p) × (flush_topic p env fuel topic_name s ≡ done (ok, s'))
        × IsFlushed (padded len topic_name) id s s'
        × WellFormed p s'
  flush_topic-IsFlushed fuel len id topic_name s e short at fd enough w =
      let key = padded len topic_name in
      let (m, run, empty) = flush_loop_ends fuel (s.inner id) enough in
      let s1 : Store p = record s { inner = with_inner p s.inner id m } in
      (
        reset_count p env key s1,
        flush_topic_loop fuel len id topic_name s m e short at fd run,
        record {
          changes = change key id s m;
          no_subscribers =
              unfold reset_count in
              ap (λ n. p.subs.keys n) (with_inner_self p s.inner id m) ∙ empty;
          no_count = reset_count_of key s1;
          no_first = reset_first_of key s1;
        },
        flushed key id s m at empty w,
      )

  -- For a name that is terminated and of 20 characters or more, or a topic that is not registered,
  -- or a map that cannot be opened: flush_topic returns, whatever the fuel, and changes nothing.
  pub flush_topic_unchanged :
      (fuel len : ℕ) (topic_name : List ℕ) (s : Store p)
      → strlen topic_name ≡ some len
      → (20 ≤ len) ⊎ (id_of p s (padded len topic_name) ≡ none) ⊎ (env.fd_by_id ≡ false)
      → (status : Status) × (flush_topic p env fuel topic_name s ≡ done (status, s))
  unfolding flush_topic
  flush_topic_unchanged fuel len topic_name s e why = elim (dec_le 20 len) [
    | yes long ↦ (failed, ground arith)
    | no short ↦ elim (Option-cases (id_of p s (padded len topic_name))) [
      | inl unknown ↦ (ok, ground arith)
      | inr (id, at) ↦ (failed, ground arith)
    ]
  ]
