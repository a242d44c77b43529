-- ===== src/ArrayProto/Subscribe.antt =====
-- add_subscriber over arrays: the packed client is appended to the topic's list.
use bpf_broker.Proto.View.{
  View, replaced, replaced_self, replaced_ne, view_subscribe, view_subscribe_known,
}
use bpf_broker.Prelude.{
  ℕ, suc, ◌+◌, ◌≤◌, ◌<◌, ◌≡◌, refl, sym, ap, ◌∙◌, ◌≢◌, ◌↔◌, ◌⊎◌, inl, inr, arith, true, false,
  length, length-append, List, [], ◌∷◌, ◌++◌, Option, none, some, Option-cases, Bool-cases,
}
use mathlib.Core.Path.{subst}
use native.Mathlib.Decide.{dec_lt}
use bpf_broker.Frame.{u32}
use bpf_broker.Parse.{Key}
use bpf_broker.Proto.Text.{strlen, padded, pack}
use bpf_broker.Proto.Service.{Status, ok, failed, done}
use bpf_broker.ArrayProto.{
  ArrayPlatform, ArrayStore, ArrayEnv, max_subscribers, count_or_zero, with_array, append_entry,
  add_subscriber,
}
use bpf_broker.ArrayProto.View.{
  Lists, Lists-ext, Lists-append, id_of, count_of, IsTopicOf, IsTopic, Represents,
}
use bpf_broker.ArrayProto.Change.{After, known, replacing}

module _ (p : ArrayPlatform) (env : ArrayEnv) (s : ArrayStore p) (v : View) (topic : Key) where
  -- What a subscription needs: the topic is registered, its array can be opened and is not full,
  -- and the map of counts takes the new count.
  pub record Accepts : Type 0 where
    pub fd : env.fd_by_id ≡ true
    pub l : List ℕ
    pub here : v topic ≡ some l
    pub few : length l < max_subscribers
    pub room : p.counts.update_elem s.topic_sub_cnt topic (suc (length l)) ≢ none

module _ (p : ArrayPlatform) (env : ArrayEnv) (s : ArrayStore p) (v : View) (w : Represents p s v)
    (topic : Key) where
  module _ (id packed : ℕ) (l : List ℕ) (at : id_of p s topic ≡ some id)
      (h : IsTopicOf p (s.inner id) (count_of p s topic) l) (here : v topic ≡ some l)
      (array : p.arrays.Map)
      (storing : p.arrays.update_elem (s.inner id) (length l) packed ≡ some array) where
    size : p.arrays.max_entries array ≡ max_subscribers
    size = p.arrays.max_entries-update (s.inner id) array (length l) packed storing ∙ h.size

    old_entries : Lists p array 0 l
    old_entries =
        Lists-ext p (s.inner id) array 0 l
          (λ j b.
            p.arrays.lookup-update_ne (s.inner id) array (length l) j packed storing
              (λ e. omega arith))
          h.entries

    -- The entry without its count.
    uncounted : Represents p (record s { inner = with_array p env s.inner id array }) v
    uncounted =
        replacing p env s v w topic id array s.topic_sub_cnt v l at (λ t n. refl) (λ t n. refl) here
          (record { size = size; counted = h.counted; few = h.few; entries = old_entries })

    -- The entry and its count.
    counted :
        (counts : p.counts.Map)
        → length l < max_subscribers
        → p.counts.update_elem s.topic_sub_cnt topic (suc (length l)) ≡ some counts
        → Represents p
            (record s { inner = with_array p env s.inner id array; topic_sub_cnt = counts })
            (replaced v topic (l ++ packed ∷ []))
    counted counts few counting =
        let one_more : length (l ++ packed ∷ []) ≡ suc (length l) =
          omega (arith, length-append l (packed ∷ [])) in
        replacing p env s v w topic id array counts (replaced v topic (l ++ packed ∷ []))
          (l ++ packed ∷ []) at
          (λ t n.
            p.counts.lookup-update_ne s.topic_sub_cnt counts topic t (suc (length l)) counting n)
          (λ t n. replaced_ne v topic t (l ++ packed ∷ []) n)
          (replaced_self v topic (l ++ packed ∷ []))
          (record {
            size = size;
            counted =
                ap count_or_zero (
                  p.counts.lookup-update_self s.topic_sub_cnt counts topic (suc (length l))
                    counting)
                ∙ sym one_more;
            few = omega (arith, one_more);
            entries = Lists-append p array 0 l packed old_entries (
                ap (p.arrays.lookup_elem array) (omega arith)
                ∙ p.arrays.lookup-update_self (s.inner id) array (length l) packed storing);
          })

  module _ (id packed : ℕ) (l : List ℕ) (at : id_of p s topic ≡ some id)
      (h : IsTopicOf p (s.inner id) (count_of p s topic) l) (here : v topic ≡ some l) where
    -- The index of the new entry is the length of the list.
    append_entry_refused :
        (env.fd_by_id ≡ false) ⊎ (max_subscribers ≤ length l)
        → append_entry p env topic id packed s ≡ (failed, s)
    unfolding append_entry
    append_entry_refused (inl e) = ground arith
    append_entry_refused (inr full) =
        let e = h.counted in
        let r = p.arrays.update_outside (s.inner id) (length l) packed (omega (arith, h.size)) in
        elim (Bool-cases env.fd_by_id) [ inl fd ↦ rw (fd, e, r) refl | inr fd ↦ rw fd refl ]

    append_entry_stored :
        (array : p.arrays.Map) (o : Option p.counts.Map)
        → env.fd_by_id ≡ true
        → length l < max_subscribers
        → p.arrays.update_elem (s.inner id) (length l) packed ≡ some array
        → p.counts.update_elem s.topic_sub_cnt topic (suc (length l)) ≡ o
        → append_entry p env topic id packed s ≡ (elim o [
          | none ↦ (failed, record s { inner = with_array p env s.inner id array })
          | some counts ↦
              (ok, record s { inner = with_array p env s.inner id array; topic_sub_cnt = counts })
        ])
    unfolding append_entry
    append_entry_stored array o fd few storing counting =
        let idx : ℕ = count_or_zero (count_of p s topic) in
        let e : idx ≡ length l = h.counted in
        let at_idx : p.arrays.update_elem (s.inner id) idx packed ≡ some array =
          ap (λ (n : ℕ). p.arrays.update_elem (s.inner id) n packed) e ∙ storing in
        let at_count : p.counts.update_elem s.topic_sub_cnt topic (u32 (idx + 1)) ≡ o =
          ap (p.counts.update_elem s.topic_sub_cnt topic) (omega (arith, e, few)) ∙ counting in
        rw (fd, at_idx, at_count) refl

    accepted_list : (a : Accepts p env s v topic) → a.l ≡ l
    accepted_list a = cc (a.here, here)

    -- Either way the subscriber is at the end of the list exactly if the call succeeds.
    abbrev pub IsAppend : Status × ArrayStore p → Type 0
    IsAppend (status, s') =
        After p env status s' v (view_subscribe topic packed v)
        × ((status ≡ ok) ↔ Accepts p env s v topic)

    refusal : ¬ Accepts p env s v topic → IsAppend (failed, s)
    refusal n = (w, (λ e. absurd (cc e), λ a. absurd (n a)))

    append_entry-IsAppend : IsAppend (append_entry p env topic id packed s)
    append_entry-IsAppend = elim (Bool-cases env.fd_by_id) [
      | inr no_fd ↦
          subst IsAppend (sym (append_entry_refused (inl no_fd)))
            (refusal (λ a. absurd (cc (a.fd, no_fd))))
      | inl fd ↦ elim (dec_lt (length l) max_subscribers) [
        | no full ↦
            subst IsAppend (sym (append_entry_refused (inr (omega arith)))) (
              refusal (λ a. full (subst (λ k. length k < max_subscribers) (accepted_list a) a.few)))
        | yes few ↦
            let (array, storing) =
              p.arrays.update_inside (s.inner id) (length l) packed (omega (arith, h.size)) in
            elim (Option-cases (p.counts.update_elem s.topic_sub_cnt topic (suc (length l)))) [
              | inl no_room ↦
                  subst IsAppend (sym (append_entry_stored array none fd few storing no_room)) (
                    uncounted id packed l at h here array storing,
                    (
                      λ e. absurd (cc e),
                      λ a. absurd (
                          a.room (
                            ap (λ k. p.counts.update_elem s.topic_sub_cnt topic (suc (length k)))
                              (accepted_list a)
                            ∙ no_room)),
                    ),
                  )
              | inr (counts, counting) ↦
                  subst IsAppend
                    (sym (append_entry_stored array (some counts) fd few storing counting))
                    (
                      subst
                          (Represents p (record s {
                            inner = with_array p env s.inner id array;
                            topic_sub_cnt = counts;
                          }))
                          (sym (view_subscribe_known topic packed v l here))
                          (counted id packed l at h here array storing counts few counting),
                      (
                        λ e. record { fd = fd; l = l; here = here; few = few; room = λ n. cc },
                        λ a. refl,
                      ),
                    )
            ]
      ]
    ]

module _ (p : ArrayPlatform) (env : ArrayEnv) (s : ArrayStore p) (v : View) where
  -- For a name of fewer than 20 characters, on maps that represent a view: add_subscriber over
  -- arrays returns. After 0 the maps represent the view with the packed client at the end of the
  -- topic's list, after -1 they represent the view as it was. It returns 0 exactly if the topic is
  -- registered, its array can be opened and has fewer than 2048 subscribers, and the map of counts
  -- takes the new count.
  pub add_subscriber-appends :
      (len ip port : ℕ) (topic_name : List ℕ)
      → Represents p s v
      → strlen topic_name ≡ some len
      → len < 20
      → (status : Status) × (s' : ArrayStore p) × (add_subscriber p env topic_name ip port s
          ≡ done (status, s'))
        × After p env status s' v (view_subscribe (padded len topic_name) (pack ip port) v)
        × ((status ≡ ok) ↔ Accepts p env s v (padded len topic_name))
  unfolding add_subscriber
  add_subscriber-appends len ip port topic_name w e short =
      let topic = padded len topic_name in
      elim (Option-cases (v topic)) [
        | inl unknown ↦
            let (a, b) = subst (IsTopic p s topic) unknown (w.topic topic) in
            (failed, s, ground arith, w, (λ q. absurd (cc q), λ q. absurd (cc (q.here, unknown))))
        | inr (l, here) ↦
            let (id, at, h) = known p env s v w topic l here in
            let (status, s') = append_entry p env topic id (pack ip port) s in
            let (after, succeeds) =
              append_entry-IsAppend p env s v w topic id (pack ip port) l at h here in
            (status, s', ground arith, after, succeeds)
      ]
