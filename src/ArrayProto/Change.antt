-- ===== src/ArrayProto/Change.antt =====
-- A change to the array and the count of one topic, and what it does to the view.
use bpf_broker.Proto.View.{View}
use bpf_broker.Prelude.{ℕ, ◌≡◌, refl, sym, ◌≢◌, arith, List, some}
use mathlib.Core.Path.{subst}
use bpf_broker.Parse.{Key}
use bpf_broker.Proto.Service.{Status, ok, failed}
use bpf_broker.ArrayProto.{ArrayPlatform, ArrayStore, ArrayEnv, with_array}
use bpf_broker.ArrayProto.View.{
  id_of, count_of, IsTopicOf, IsTopic, Represents, Represents-of_change,
}

module _ (p : ArrayPlatform) (env : ArrayEnv) where
  -- The maps after a call that turns the view `v` into `v'`, if it succeeds.
  abbrev pub After : Status → ArrayStore p → View → View → Type 0
  After ok s v v' = Represents p s v'
  After failed s v v' = Represents p s v

  pub with_array_self :
      (inner : ℕ → p.arrays.Map) (id : ℕ) (m : p.arrays.Map) → with_array p env inner id m id ≡ m
  with_array_self inner id m = ground arith

  pub with_array_ne :
      (inner : ℕ → p.arrays.Map) (id : ℕ) (m : p.arrays.Map) (i : ℕ)
      → i ≢ id
      → with_array p env inner id m i ≡ inner i
  with_array_ne inner id m i n = ground arith

  module _ (s : ArrayStore p) (v : View) (w : Represents p s v) (topic : Key) where
    pub known : (l : List ℕ) → v topic ≡ some l → IsTopic p s topic (some l)
    known l e = subst (IsTopic p s topic) e (w.topic topic)

    -- An array in place of the topic's, with a count.
    pub replacing :
        (id : ℕ) (array : p.arrays.Map) (counts : p.counts.Map) (v' : View) (l : List ℕ)
        → id_of p s topic ≡ some id
        → ((t : Key) → t ≢ topic → p.counts.lookup_elem counts t ≡ count_of p s t)
        → ((t : Key) → t ≢ topic → v' t ≡ v t)
        → v' topic ≡ some l
        → IsTopicOf p array (p.counts.lookup_elem counts topic) l
        → Represents p
            (record s { inner = with_array p env s.inner id array; topic_sub_cnt = counts })
            v'
    replacing id array counts v' l at same_count same_view now h =
        Represents-of_change p topic id s
          (record s { inner = with_array p env s.inner id array; topic_sub_cnt = counts }) v v' l at
          (record {
            same_topics = refl;
            same_inner = with_array_ne s.inner id array;
            same_count = same_count;
            same_view = same_view;
          })
          w now
          (subst (λ m. IsTopicOf p m (p.counts.lookup_elem counts topic) l)
            (sym (with_array_self s.inner id array)) h)
