-- ===== src/ArrayProto.antt =====
-- bpf_broker_xdp/bpf_broker_proto.c: add_topic, add_subscriber and flush_topic of the service behind
-- the cloning XDP program. A topic's subscribers stand in an array, at the indexes below its count.
pub mod View
pub mod Change
pub mod Register
pub mod Subscribe
pub mod Flush
pub mod Handler
pub mod Startup
pub mod Simulation
pub mod Reachable
pub mod Delivery
pub mod Fanout
use bpf_broker.Prelude.{
  ℕ, zero, suc, ◌+◌, Bool, true, false, not, leb, ◌==◌, if◌then◌else◌, List, [], ◌∷◌, Option, none,
  some,
}
use bpf_broker.Frame.{u32}
use bpf_broker.Parse.{Key}
use bpf_broker.Maps.{HashMap}
use bpf_broker.Maps.Arrays.{ArrayMap}
use bpf_broker.Proto.Text.{strlen, padded, pack}
use bpf_broker.Proto.Service.{Status, ok, failed, Outcome, done, overread, stuck}

-- The kernel's maps, by the types of their keys and values.
pub record ArrayPlatform : Type 1 where
  pub topics : HashMap Key ℕ
  pub counts : HashMap Key ℕ
  pub arrays : ArrayMap ℕ

-- The two maps keyed by topic, and the inner arrays by the ids that the kernel gave them.
pub record ArrayStore (p : ArrayPlatform) : Type 0 where
  pub topic_sub_array : p.topics.Map
  pub topic_sub_cnt : p.counts.Map
  pub inner : ℕ → p.arrays.Map

-- What the kernel answers during one call: whether the map's id gives a descriptor, and the id of a
-- map that is created (`none` if that fails).
pub record ArrayEnv : Type 0 where
  pub fd_by_id : Bool
  pub created : Option ℕ

-- MAX_SUBSCRIBERS
abbrev pub max_subscribers : ℕ
max_subscribers = 2048

-- `__u32 count = 0; bpf_map_lookup_elem(sub_count_fd, topic_key, &count)`
abbrev pub count_or_zero : Option ℕ → ℕ
count_or_zero none = 0
count_or_zero (some n) = n

-- An update with the return ignored.
abbrev pub updated {ℓ} : {M : Type ℓ} → M → Option M → M
updated m none = m
updated m (some m') = m'

module _ (p : ArrayPlatform) (env : ArrayEnv) where
  -- `array` in place of the inner array `id`.
  abbrev pub with_array : (ℕ → p.arrays.Map) → ℕ → p.arrays.Map → ℕ → p.arrays.Map
  with_array inner id array j = if j == id then array else inner j

  abbrev pub ArrayRun : Type 0
  ArrayRun = Outcome (Status × ArrayStore p)

  -- The new array is released where it could not be inserted, so the store is as before.
  unfoldable pub create_array : Key → ArrayStore p → Status × ArrayStore p
  create_array topic_key s = elim env.created [
    | none ↦ (failed, s)
    | some inner_fd ↦ elim (p.topics.update_elem s.topic_sub_array topic_key inner_fd) [
      | none ↦ (failed, s)
      | some outer ↦ (
        ok,
        record s {
          topic_sub_array = outer;
          inner = with_array s.inner inner_fd (p.arrays.create max_subscribers);
        },
      )
    ]
  ]

  unfoldable pub add_topic : List ℕ → ArrayStore p → ArrayRun
  unfolding create_array
  add_topic topic_name s = elim (strlen topic_name) [
    | none ↦ overread
    | some len ↦
        if leb 20 len
        then done (failed, s)
        else (let topic_key = padded len topic_name in
            elim (p.topics.lookup_elem s.topic_sub_array topic_key) [
              | some id ↦ done (ok, s)
              | none ↦ done (create_array topic_key s)
            ])
  ]

  -- The entry stays where the count cannot be stored.
  unfoldable pub append_entry : Key → ℕ → ℕ → ArrayStore p → Status × ArrayStore p
  append_entry topic_key id packed s =
      if not env.fd_by_id
      then (failed, s)
      else (let idx = count_or_zero (p.counts.lookup_elem s.topic_sub_cnt topic_key) in
          elim (p.arrays.update_elem (s.inner id) idx packed) [
            | none ↦ (failed, s)
            | some array ↦
                (let stored = record s { inner = with_array s.inner id array } in
                  elim (p.counts.update_elem s.topic_sub_cnt topic_key (u32 (idx + 1))) [
                    | none ↦ (failed, stored)
                    | some counts ↦ (ok, record stored { topic_sub_cnt = counts })
                  ])
          ])

  unfoldable pub add_subscriber : List ℕ → ℕ → ℕ → ArrayStore p → ArrayRun
  unfolding append_entry
  add_subscriber topic_name ip port s = elim (strlen topic_name) [
    | none ↦ overread
    | some len ↦
        if leb 20 len
        then done (failed, s)
        else (let topic_key = padded len topic_name in
            elim (p.topics.lookup_elem s.topic_sub_array topic_key) [
              | none ↦ done (failed, s)
              | some id ↦ done (append_entry topic_key id (pack ip port) s)
            ])
  ]

  -- `for (i = 0; i < count; i++)`, by the rounds that are left: what an update returns is not looked
  -- at.
  unfoldable pub zero_entries : ℕ → ℕ → p.arrays.Map → p.arrays.Map
  zero_entries zero i array = array
  zero_entries (suc rounds) i array =
      zero_entries rounds (i + 1) (updated array (p.arrays.update_elem array i 0))

  unfoldable pub flush_topic : List ℕ → ArrayStore p → ArrayRun
  unfolding zero_entries
  flush_topic topic_name s = elim (strlen topic_name) [
    | none ↦ overread
    | some len ↦
        if leb 20 len
        then done (failed, s)
        else (let topic_key = padded len topic_name in
            let count = count_or_zero (p.counts.lookup_elem s.topic_sub_cnt topic_key) in
            if count == 0
            then done (ok, s)
            else elim (p.topics.lookup_elem s.topic_sub_array topic_key) [
              | none ↦ done (ok, s)
              | some id ↦
                  if not env.fd_by_id
                  then done (failed, s)
                  else done (
                    ok,
                    record s {
                      inner = with_array s.inner id (zero_entries count 0 (s.inner id));
                      topic_sub_cnt =
                          updated s.topic_sub_cnt
                            (p.counts.update_elem s.topic_sub_cnt topic_key 0);
                    },
                  )
            ])
  ]
