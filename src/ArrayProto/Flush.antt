-- ===== src/ArrayProto/Flush.antt =====
-- flush_topic over arrays: the topic's list becomes empty.
use bpf_broker.Proto.View.{
  View, replaced, replaced_self, replaced_ne, view_flush, view_flush_known, view_flush_unknown,
  replaced_same,
}
use bpf_broker.Prelude.{
  ℕ, zero, suc, ◌+◌, ◌<◌, ◌≡◌, refl, sym, ap, ◌∙◌, ◌≢◌, ◌↔◌, ◌⊎◌, inl, inr, arith, false, List, [],
  ◌∷◌, none, some, Option-cases, Bool-cases,
}
use mathlib.Core.Path.{subst}
use bpf_broker.Parse.{Key}
use bpf_broker.Proto.Text.{strlen, padded}
use bpf_broker.Proto.Service.{Status, ok, failed, done}
use bpf_broker.ArrayProto.{
  ArrayPlatform, ArrayStore, ArrayEnv, count_or_zero, updated, with_array, zero_entries,
  flush_topic,
}
use bpf_broker.ArrayProto.View.{Represents_ext, id_of, count_of, IsTopicOf, IsTopic, Represents}
use bpf_broker.ArrayProto.Change.{After, known, replacing}

module _ (p : ArrayPlatform) (env : ArrayEnv) where
  max_entries-updated :
      (array : p.arrays.Map) (i v : ℕ)
      → p.arrays.max_entries (updated array (p.arrays.update_elem array i v))
        ≡ p.arrays.max_entries array
  max_entries-updated array i v = elim (Option-cases (p.arrays.update_elem array i v)) [
    | inl e ↦ rw e refl
    | inr (m, e) ↦ rw e (p.arrays.max_entries-update array m i v e)
  ]

  max_entries-zero_entries :
      (rounds i : ℕ) (array : p.arrays.Map)
      → p.arrays.max_entries (zero_entries p env rounds i array) ≡ p.arrays.max_entries array
  unfolding zero_entries
  max_entries-zero_entries zero i array = refl
  max_entries-zero_entries (suc rounds) i array =
      max_entries-zero_entries rounds (i + 1) (updated array (p.arrays.update_elem array i 0))
      ∙ max_entries-updated array i 0

  module _ (s : ArrayStore p) (v : View) (w : Represents p s v) (topic : Key) where
    abbrev flushed_array : ℕ → p.arrays.Map
    flushed_array id = zero_entries p env (count_or_zero (count_of p s topic)) 0 (s.inner id)

    abbrev flushed_counts : p.counts.Map
    flushed_counts = updated s.topic_sub_cnt (p.counts.update_elem s.topic_sub_cnt topic 0)

    -- The array keeps its size and the count is zero.
    flushed_view :
        (id : ℕ) (l : List ℕ)
        → id_of p s topic ≡ some id
        → IsTopicOf p (s.inner id) (count_of p s topic) l
        → v topic ≡ some l
        → count_of p s topic ≢ none
        → Represents p
            (record s {
              inner = with_array p env s.inner id (flushed_array id);
              topic_sub_cnt = flushed_counts;
            })
            (view_flush topic v)
    flushed_view id l at h here present = elim (Option-cases (count_of p s topic)) [
      | inl absent ↦ absurd (present absent)
      | inr (c, e) ↦
          let (counts, u) = p.counts.update_present s.topic_sub_cnt topic 0 c e in
          let same : flushed_counts ≡ counts = ap (updated s.topic_sub_cnt) u in
          subst
            (Represents p (record s {
              inner = with_array p env s.inner id (flushed_array id);
              topic_sub_cnt = flushed_counts;
            }))
            (sym (view_flush_known topic v l here))
            (replacing p env s v w topic id (flushed_array id) flushed_counts (replaced v topic [])
              [] at
              (λ t n.
                ap (λ m. p.counts.lookup_elem m t) same
                ∙ p.counts.lookup-update_ne s.topic_sub_cnt counts topic t 0 u n)
              (λ t n. replaced_ne v topic t [] n) (replaced_self v topic [])
              (record {
                size =
                    max_entries-zero_entries (count_or_zero (count_of p s topic)) 0 (s.inner id)
                    ∙ h.size;
                counted =
                    ap (λ m. count_or_zero (p.counts.lookup_elem m topic)) same
                    ∙ ap count_or_zero
                        (p.counts.lookup-update_self s.topic_sub_cnt counts topic 0 u);
                few = omega arith;
                entries = tt;
              }))
    ]

  view_cases :
      (v : View) (t : Key)
      → (v t ≡ none) ⊎ (v t ≡ some []) ⊎ ((x : ℕ) × (l : List ℕ) × (v t ≡ some (x ∷ l)))
  view_cases v t = elim (Option-cases (v t)) [
    | inl e ↦ inl e
    | inr ([], e) ↦ inr (inl e)
    | inr (x ∷ l, e) ↦ inr (inr (x, l, e))
  ]

  -- For a name of fewer than 20 characters, on maps that represent a view: flush_topic over arrays
  -- returns. After 0 the maps represent the view with an empty list for the topic, if it is
  -- registered, after -1 they represent the view as it was. It returns -1 exactly if the topic has
  -- a subscriber and its array cannot be opened.
  pub flush_topic-empties :
      (s : ArrayStore p) (v : View) (len : ℕ) (topic_name : List ℕ)
      → Represents p s v
      → strlen topic_name ≡ some len
      → len < 20
      → (status : Status) × (s' : ArrayStore p) × (flush_topic p env topic_name s
          ≡ done (status, s'))
        × After p env status s' v (view_flush (padded len topic_name) v)
        × ((status ≡ failed) ↔ (
            (env.fd_by_id ≡ false)
            × ((x : ℕ) × (l : List ℕ) × (v (padded len topic_name) ≡ some (x ∷ l)))))
  unfolding flush_topic
  flush_topic-empties s v len topic_name w e short =
      let topic = padded len topic_name in
      elim (view_cases v topic) [
        | inl unknown ↦
            let (a, b) = subst (IsTopic p s topic) unknown (w.topic topic) in
            (
              ok,
              s,
              ground arith,
              subst (Represents p s) (sym (view_flush_unknown topic v unknown)) w,
              (λ q. absurd (cc q), λ (fd, (x, l, q)). absurd (cc (q, unknown))),
            )
        | inr (inl here) ↦
            let (id, at, h) = known p env s v w topic [] here in
            let none_left = h.counted in
            (
              ok,
              s,
              ground arith,
              subst (Represents p s) (sym (view_flush_known topic v [] here))
                  (Represents_ext p s v (replaced v topic []) (replaced_same v topic [] here) w),
              (λ q. absurd (cc q), λ (fd, (x, l, q)). absurd (cc (q, here))),
            )
        | inr (inr (x, l, here)) ↦
            let (id, at, h) = known p env s v w topic (x ∷ l) here in
            let some_left : count_or_zero (count_of p s topic) ≢ 0 =
              λ z. omega (arith, h.counted) in
            elim (Bool-cases env.fd_by_id) [
              | inr no_fd ↦ (failed, s, ground arith, w, (λ q. (no_fd, (x, l, here)), λ q. refl))
              | inl fd ↦ (
                ok,
                _,
                ground arith,
                flushed_view s v w topic id (x ∷ l) at h here (λ e. some_left (ap count_or_zero e)),
                (λ q. absurd (cc q), λ q. absurd (cc (q.0, fd))),
              )
            ]
      ]
