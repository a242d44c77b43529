-- ===== src/ArrayProto/Register.antt =====
-- add_topic over arrays: a new topic has an empty list.
use bpf_broker.Proto.View.{
  View, replaced, view_register, view_register_known, view_register_unknown,
}
use bpf_broker.Prelude.{
  ℕ, ◌<◌, ◌≡◌, refl, sym, ◌≢◌, ◌↔◌, ◌⊎◌, inl, inr, arith, List, [], none, some, Option-cases,
}
use mathlib.Core.Path.{subst}
use bpf_broker.Parse.{Key}
use bpf_broker.Proto.Text.{strlen, padded}
use bpf_broker.Proto.Service.{Status, ok, failed, done}
use bpf_broker.ArrayProto.{
  ArrayPlatform, ArrayStore, ArrayEnv, max_subscribers, with_array, create_array, add_topic,
}
use bpf_broker.ArrayProto.View.{id_of, IsTopic, Represents, Represents-of_new}
use bpf_broker.ArrayProto.Change.{After, known, with_array_self, with_array_ne}

module _ (p : ArrayPlatform) (env : ArrayEnv) where
  -- The id of a new array is the id of no topic.
  abbrev pub GivesFresh : ArrayStore p → Type 0
  GivesFresh s = (id : ℕ) → env.created ≡ some id → (t : Key) → id_of p s t ≢ some id

  -- A new array can be made and inserted.
  abbrev pub Creates : ArrayStore p → Key → Type 0
  Creates s topic =
      (id : ℕ) × (env.created ≡ some id) × (p.topics.update_elem s.topic_sub_array topic id ≢ none)

  module _ (s : ArrayStore p) (v : View) (w : Represents p s v) (topic : Key) where
    abbrev IsCreation : Status × ArrayStore p → Type 0
    IsCreation (status, s') =
        After p env status s' v (view_register topic v) × ((status ≡ ok) ↔ Creates s topic)

    abbrev created_store : p.topics.Map → ℕ → ArrayStore p
    created_store outer id = record s {
      topic_sub_array = outer;
      inner = with_array p env s.inner id (p.arrays.create max_subscribers);
    }

    created_view :
        (id : ℕ) (outer : p.topics.Map)
        → v topic ≡ none
        → ((t : Key) → id_of p s t ≢ some id)
        → p.topics.update_elem s.topic_sub_array topic id ≡ some outer
        → Represents p (created_store outer id) (replaced v topic [])
    created_view id outer unknown fresh stored =
        Represents-of_new p topic id s (created_store outer id) v unknown fresh
          (p.topics.lookup-update_self s.topic_sub_array outer topic id stored)
          (λ t n. p.topics.lookup-update_ne s.topic_sub_array outer topic t id stored n) refl
          (with_array_ne p env s.inner id (p.arrays.create max_subscribers))
          (with_array_self p env s.inner id (p.arrays.create max_subscribers)) w

    failing :
        (env.created ≡ none)
          ⊎ ((id : ℕ) × (env.created ≡ some id)
              × (p.topics.update_elem s.topic_sub_array topic id ≡ none))
        → (failed, s) ≡ create_array p env topic s
    unfolding create_array
    failing (inl e) = ground arith
    failing (inr (id, e, full)) = ground arith

    succeeding :
        (id : ℕ) (outer : p.topics.Map)
        → env.created ≡ some id
        → p.topics.update_elem s.topic_sub_array topic id ≡ some outer
        → (ok, created_store outer id) ≡ create_array p env topic s
    unfolding create_array
    succeeding id outer e stored = ground arith

    create_array-IsCreation :
        v topic ≡ none → GivesFresh s → IsCreation (create_array p env topic s)
    create_array-IsCreation unknown fresh = elim (Option-cases env.created) [
      | inl no_map ↦
          subst IsCreation (failing (inl no_map))
            (w, (λ e. absurd (cc e), λ (id, made, stored). absurd (cc (made, no_map))))
      | inr (id, made) ↦ elim (Option-cases (p.topics.update_elem s.topic_sub_array topic id)) [
        | inl full ↦
            subst IsCreation (failing (inr (id, made, full)))
              (w, (λ e. absurd (cc e), λ (i, e, stored). absurd (stored (cc (made, e, full)))))
        | inr (outer, stored) ↦ subst IsCreation (succeeding id outer made stored) (
          subst (Represents p (created_store outer id))
              (sym (view_register_unknown topic v unknown))
              (created_view id outer unknown (fresh id made) stored),
          (λ e. (id, made, λ n. cc), λ c. refl),
        )
      ]
    ]

  -- For a name of fewer than 20 characters, on maps that represent a view, where ids of new arrays
  -- are new: add_topic over arrays returns. After 0 the maps represent the view with the topic, its
  -- list empty if it is new, after -1 they represent the view as it was. It returns 0 exactly if
  -- the topic is registered or an array can be made and inserted.
  pub add_topic-registers :
      (s : ArrayStore p) (v : View) (len : ℕ) (topic_name : List ℕ)
      → Represents p s v
      → GivesFresh s
      → strlen topic_name ≡ some len
      → len < 20
      → (status : Status) × (s' : ArrayStore p) × (add_topic p env topic_name s ≡ done (status, s'))
        × After p env status s' v (view_register (padded len topic_name) v)
        × ((status ≡ ok) ↔ ((v (padded len topic_name) ≢ none) ⊎ Creates s (padded len topic_name)))
  unfolding add_topic
  add_topic-registers s v len topic_name w fresh e short =
      let topic = padded len topic_name in
      elim (Option-cases (v topic)) [
        | inr (l, here) ↦
            let (id, at, h) = known p env s v w topic l here in
            (
              ok,
              s,
              ground arith,
              subst (Represents p s) (sym (view_register_known topic v l here)) w,
              (λ q. inl (λ n. cc (n, here)), λ q. refl),
            )
        | inl unknown ↦
            let absent = (subst (IsTopic p s topic) unknown (w.topic topic)).0 in
            let (status, s') = create_array p env topic s in
            let (after, made) = create_array-IsCreation s v w topic unknown fresh in
            (
              status,
              s',
              ground arith,
              after,
              (λ q. inr (made.0 q), λ q. elim q [ inl n ↦ absurd (n unknown) | inr c ↦ made.1 c ]),
            )
      ]
