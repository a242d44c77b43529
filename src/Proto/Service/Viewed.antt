-- ===== src/Proto/Service/Viewed.antt =====
-- The maps of the service as a view of its topics, up to the order and the repetition of subscribers.
use bpf_broker.Prelude.{
  ℕ, ◌≡◌, refl, sym, ap, ◌∙◌, ◌≢◌, ◌↔◌, ◌⊎◌, inl, inr, List, [], ◌∷◌, ◌++◌, Option, none, some,
  Option-cases,
}
use mathlib.Core.Path.{subst}
use native.Mathlib.Decide.{ℕ_discrete}
use bpf_broker.Parse.{Key}
use bpf_broker.Maps.{Holds}
use bpf_broker.Proto.Store.{Platform, Store, Env}
use bpf_broker.Proto.Service.{Status, ok, failed}
use bpf_broker.Proto.Service.Invariant.{
  Key-discrete, id_of, count_of, subscribers, WellFormed, ChangesOnly,
}
use bpf_broker.Proto.Service.Register.{IsRegistration}
use bpf_broker.Proto.Service.Subscribe.{IsSubscription}
use bpf_broker.Proto.Service.Flush.{IsFlushed}
use bpf_broker.Broker.{topics_of, topics_of-id, topics_of-none}
use bpf_broker.Proto.View.{
  View, replaced, replaced_self, replaced_ne, view_register, view_register_unknown, view_subscribe,
  view_subscribe_known, view_flush, view_flush_known,
}
use bpf_broker.Proto.View.Same.{SameMembers, Holds-append}

module _ (p : Platform) where
  -- A registered topic has a map whose keys are the members of the list, in any order.
  abbrev pub IsTopicIn : Store p → Key → Option (List ℕ) → Type 0
  IsTopicIn s t none = id_of p s t ≡ none
  IsTopicIn s t (some l) = (id : ℕ) × (id_of p s t ≡ some id) × SameMembers (subscribers p s id) l

  pub record IsViewOf (v : View) (s : Store p) : Type 0 where
    pub valid : WellFormed p s
    pub topic : (t : Key) → IsTopicIn s t (v t)

  -- What the view has for a topic of the maps.
  pub known_topic :
      (v : View) (s : Store p) (t : Key) (id : ℕ)
      → IsViewOf v s
      → id_of p s t ≡ some id
      → (l : List ℕ) × (v t ≡ some l) × SameMembers (subscribers p s id) l
  known_topic v s t id h at = elim (Option-cases (v t)) [
    | inl e ↦ absurd (cc (at, subst (IsTopicIn s t) e (h.topic t)))
    | inr (l, e) ↦
        let (i, at_i, same) = subst (IsTopicIn s t) e (h.topic t) in
        let q : i ≡ id = cc (at, at_i) in
        (l, e, subst (λ j. SameMembers (subscribers p s j) l) q same)
  ]

  pub unknown_topic :
      (v : View) (s : Store p) (t : Key) → IsViewOf v s → id_of p s t ≡ none → v t ≡ none
  unknown_topic v s t h absent = elim (Option-cases (v t)) [
    | inl e ↦ e
    | inr (l, e) ↦
        let (i, at, same) = subst (IsTopicIn s t) e (h.topic t) in absurd (cc (at, absent))
  ]

  IsTopicIn-of :
      (s s' : Store p) (t : Key) (o o' : Option (List ℕ))
      → o' ≡ o
      → id_of p s' t ≡ id_of p s t
      → ((id : ℕ) → id_of p s t ≡ some id → s'.inner id ≡ s.inner id)
      → IsTopicIn s t o
      → IsTopicIn s' t o'
  IsTopicIn-of s s' t none o' eo ei inner a = subst (IsTopicIn s' t) (sym eo) (ei ∙ a)
  IsTopicIn-of s s' t (some l) o' eo ei inner (id, at, same) =
      subst (IsTopicIn s' t) (sym eo)
        (id, ei ∙ at, subst (λ m. SameMembers (p.subs.keys m) l) (sym (inner id at)) same)

  -- A change to one topic, whose list becomes `l`.
  IsViewOf-of_change :
      (key : Key) (id : ℕ) (s s' : Store p) (v : View) (l : List ℕ)
      → id_of p s key ≡ some id
      → ChangesOnly p key id s s'
      → IsViewOf v s
      → WellFormed p s'
      → SameMembers (subscribers p s' id) l
      → IsViewOf (replaced v key l) s'
  IsViewOf-of_change key id s s' v l at c h valid same = record {
    valid = valid;
    topic = λ t. elim (Key-discrete t key) [
      | yes q ↦
          subst (λ u. IsTopicIn s' u (replaced v key l u)) (sym q)
            (subst (IsTopicIn s' key) (sym (replaced_self v key l)) (id, id_kept key ∙ at, same))
      | no q ↦
          IsTopicIn-of s s' t (v t) (replaced v key l t) (replaced_ne v key t l q) (id_kept t)
            (λ i a. c.same_inner i (λ e. q (h.valid.distinct t key id (a ∙ ap some e) at)))
            (h.topic t)
    ];
  }
    where
      id_kept : (t : Key) → id_of p s' t ≡ id_of p s t
      id_kept t = ap (λ m. p.topics.lookup_elem m t) c.same_topics

  -- A registration puts a topic without subscribers into the view, unless it is there.
  pub IsRegistration-IsViewOf :
      (env : Env) (key : Key) (s s' : Store p) (status : Status) (v : View)
      → IsRegistration p env key s status s'
      → IsViewOf v s
      → IsViewOf v s' ⊎ IsViewOf (view_register key v) s'
  IsRegistration-IsViewOf env key s s' failed v r h =
      inl (subst (IsViewOf v) (sym (r.failure refl)) h)
  IsRegistration-IsViewOf env key s s' ok v r h = elim (Option-cases (id_of p s key)) [
    | inr (id, at) ↦ inl (subst (IsViewOf v) (sym (r.known (λ e. cc (at, e)))) h)
    | inl absent ↦
        let unknown = unknown_topic v s key h absent in
        let (id, at) = r.success refl in
        let empty : subscribers p s' id ≡ [] =
          (r.valid.topic key id at).idle
            (inl (ap (λ m. p.counts.lookup_elem m key) r.same_counts ∙ no_count absent)) in
        inr (
          subst (λ u. IsViewOf u s') (sym (view_register_unknown key v unknown))
            (record {
              valid = r.valid;
              topic = λ t. elim (Key-discrete t key) [
                | yes q ↦
                    subst (λ u. IsTopicIn s' u (replaced v key [] u)) (sym q)
                      (subst (IsTopicIn s' key) (sym (replaced_self v key []))
                        (id, at, subst (λ l. SameMembers l []) (sym empty) (λ x. (λ a. a, λ a. a))))
                | no q ↦
                    IsTopicIn-of s s' t (v t) (replaced v key [] t) (replaced_ne v key t [] q)
                      (r.others t q) (r.same_inner t) (h.topic t)
              ];
            }))
  ]
    where
      no_count : id_of p s key ≡ none → count_of p s key ≡ none
      no_count absent = elim (Option-cases (count_of p s key)) [
        | inl e ↦ e
        | inr (n, e) ↦ let (i, a) = h.valid.counted key n e in absurd (cc (a, absent))
      ]

  -- The iteration over a map visits the keys that are present.
  Holds-keys : (m : p.subs.Map) (k : ℕ) → Holds k (p.subs.keys m) ↔ (p.subs.lookup_elem m k ≢ none)
  Holds-keys m k = (p.subs.holds_present m k, p.subs.present_holds m k)

  -- One more subscriber.
  subscribed-SameMembers :
      (env : Env) (topic : Key) (id key : ℕ) (s s' : Store p) (status : Status) (l : List ℕ)
      → IsSubscription p env topic id key s status s'
      → SameMembers (subscribers p s id) l
      → SameMembers (subscribers p s' id) (l ++ key ∷ [])
  subscribed-SameMembers env topic id key s s' status l sub same k = elim (ℕ_discrete k key) [
    | yes q ↦ (
      λ a. (Holds-append k key l).1 (inr q),
      λ a.
          (Holds-keys (s'.inner id) k).1
            (λ e. cc (sub.present, ap (p.subs.lookup_elem (s'.inner id)) q, e)),
    )
    | no n ↦ (
      λ a. (Holds-append k key l).1 (
          inl (
            (same k).0 (
              (Holds-keys (s.inner id) k).1
                (λ e. (Holds-keys (s'.inner id) k).0 a (sub.kept k n ∙ e))))),
      λ a. elim ((Holds-append k key l).0 a) [
        | inr q ↦ absurd (n q)
        | inl b ↦
            (Holds-keys (s'.inner id) k).1
              (λ e. (Holds-keys (s.inner id) k).0 ((same k).1 b) (sym (sub.kept k n) ∙ e))
      ],
    )
  ]

  pub IsSubscription-IsViewOf :
      (env : Env) (topic : Key) (id key : ℕ) (s s' : Store p) (status : Status) (v : View)
      → id_of p s topic ≡ some id
      → IsSubscription p env topic id key s status s'
      → IsViewOf v s
      → IsViewOf (view_subscribe topic key v) s'
  IsSubscription-IsViewOf env topic id key s s' status v at sub h =
      let (l, here, same) = known_topic v s topic id h at in
      subst (λ u. IsViewOf u s') (sym (view_subscribe_known topic key v l here))
        (IsViewOf-of_change topic id s s' v (l ++ key ∷ []) at sub.changes h sub.valid
          (subscribed-SameMembers env topic id key s s' status l sub same))

  pub IsFlushed-IsViewOf :
      (env : Env) (key : Key) (id : ℕ) (s s' : Store p) (v : View)
      → id_of p s key ≡ some id
      → IsFlushed p env key id s s'
      → WellFormed p s'
      → IsViewOf v s
      → IsViewOf (view_flush key v) s'
  IsFlushed-IsViewOf env key id s s' v at f valid h =
      let (l, here, same) = known_topic v s key id h at in
      subst (λ u. IsViewOf u s') (sym (view_flush_known key v l here))
        (IsViewOf-of_change key id s s' v [] at f.changes h valid
          (subst (λ k. SameMembers k []) (sym f.no_subscribers) (λ x. (λ a. a, λ a. a))))

  -- Well-formed maps are those of the view that reads them.
  pub topics_of-IsViewOf : (s : Store p) → WellFormed p s → IsViewOf (topics_of p s) s
  topics_of-IsViewOf s w = record {
    valid = w;
    topic = λ t. elim (Option-cases (id_of p s t)) [
      | inl e ↦ subst (IsTopicIn s t) (sym (topics_of-none p s t e)) e
      | inr (id, e) ↦
          subst (IsTopicIn s t) (sym (topics_of-id p s t id e)) (id, e, λ x. (λ a. a, λ a. a))
    ];
  }
