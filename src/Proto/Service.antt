-- ===== src/Proto/Service.antt =====
-- add_topic, add_subscriber and flush_topic.
pub mod Invariant
pub mod Flush
pub mod Register
pub mod Subscribe
pub mod Viewed
use bpf_broker.Prelude.{
  ℕ, zero, suc, ◌+◌, Bool, true, false, not, leb, ◌==◌, if◌then◌else◌, List, [], ◌∷◌, Option, none,
  some,
}
use bpf_broker.Frame.{u32}
use bpf_broker.Parse.{Key}
use bpf_broker.Maps.{HashMap}
use bpf_broker.Proto.Text.{strlen, padded, pack}
use bpf_broker.Proto.Store.{Platform, Store, Env, with_inner}

-- `ok` is the return of 0, `failed` that of -1.
pub data Status : Type 0 where
  ok failed : Status

-- `overread` is a read past the end of the caller's array, `stuck` a loop that did not end within
-- its fuel.
pub data Outcome (A : Type 0) : Type 0 where
  done : A → Outcome A
  overread stuck : Outcome A

-- The count after one more subscriber; a missing entry counts as none.
abbrev pub next_count : Option ℕ → ℕ
next_count none = 1
next_count (some current) = u32 (current + 1)

module _ (p : Platform) (env : Env) where
  abbrev pub Run : Type 0
  Run = Outcome (Status × Store p)

  -- The new map is released where it could not be inserted, so the store is as before.
  unfoldable pub create_topic : Key → Store p → Status × Store p
  create_topic topic_key s = elim env.created [
    | none ↦ (failed, s)
    | some inner_fd ↦ elim (p.topics.update_elem s.topic_subscribe topic_key inner_fd) [
      | none ↦ (failed, s)
      | some outer ↦ (
        ok,
        record s { topic_subscribe = outer; inner = with_inner p s.inner inner_fd p.subs.empty },
      )
    ]
  ]

  unfoldable pub add_topic : List ℕ → Store p → Run
  add_topic topic_name s = elim (strlen topic_name) [
    | none ↦ overread
    | some len ↦
        if leb 20 len
        then done (failed, s)
        else (let topic_key = padded len topic_name in
            elim (p.topics.lookup_elem s.topic_subscribe topic_key) [
              | some id ↦ done (ok, s)
              | none ↦ done (create_topic topic_key s)
            ])
  ]

  unfoldable pub store_first : Key → ℕ → ℕ → Store p → Status × Store p
  store_first topic_key key current s =
      if current == 1
      then elim (p.firsts.update_elem s.topic_first_sub topic_key key) [
        | none ↦ (failed, s)
        | some firsts ↦ (ok, record s { topic_first_sub = firsts })
      ]
      else (ok, s)

  unfoldable pub count_subscriber : Key → ℕ → Store p → Status × Store p
  unfolding store_first
  count_subscriber topic_key key s =
      let current = next_count (p.counts.lookup_elem s.topic_sub_cnt topic_key) in
      elim (p.counts.update_elem s.topic_sub_cnt topic_key current) [
        | none ↦ (failed, s)
        | some counts ↦ store_first topic_key key current (record s { topic_sub_cnt = counts })
      ]

  unfoldable pub insert_subscriber : Key → ℕ → ℕ → Store p → Status × Store p
  unfolding count_subscriber
  insert_subscriber topic_key id key s =
      if not env.fd_by_id
      then (failed, s)
      else elim (p.subs.update_elem (s.inner id) key env.dummy) [
        | none ↦ (failed, s)
        | some subs ↦
            count_subscriber topic_key key (record s { inner = with_inner p s.inner id subs })
      ]

  unfoldable pub add_subscriber : List ℕ → ℕ → ℕ → Store p → Run
  unfolding insert_subscriber
  add_subscriber topic_name ip port s = elim (strlen topic_name) [
    | none ↦ overread
    | some len ↦
        if leb 20 len
        then done (failed, s)
        else (let topic_key = padded len topic_name in
            elim (p.topics.lookup_elem s.topic_subscribe topic_key) [
              | none ↦ done (failed, s)
              | some id ↦ done (insert_subscriber topic_key id (pack ip port) s)
            ])
  ]

  -- `while (bpf_map_get_next_key(fd, NULL, &key) == 0) bpf_map_delete_elem(fd, &key)`: what a
  -- deletion returns is not looked at.
  unfoldable pub flush_loop : ℕ → p.subs.Map → Option p.subs.Map
  flush_loop zero m = none
  flush_loop (suc fuel) m = elim (p.subs.first_key m) [
    | none ↦ some m
    | some key ↦ flush_loop fuel (elim (p.subs.delete_elem m key) [ none ↦ m | some m' ↦ m' ])
  ]

  -- The two entries of the topic, with the returns ignored.
  unfoldable pub reset_count : Key → Store p → Store p
  reset_count topic_key s = record s {
    topic_sub_cnt = elim (p.counts.update_elem s.topic_sub_cnt topic_key 0) [
      | none ↦ s.topic_sub_cnt
      | some counts ↦ counts
    ];
    topic_first_sub = elim (p.firsts.delete_elem s.topic_first_sub topic_key) [
      | none ↦ s.topic_first_sub
      | some firsts ↦ firsts
    ];
  }

  unfoldable pub flush_topic : ℕ → List ℕ → Store p → Run
  unfolding flush_loop reset_count
  flush_topic fuel topic_name s = elim (strlen topic_name) [
    | none ↦ overread
    | some len ↦
        if leb 20 len
        then done (failed, s)
        else (let topic_key = padded len topic_name in
            elim (p.topics.lookup_elem s.topic_subscribe topic_key) [
              | none ↦ done (ok, s)
              | some id ↦
                  if not env.fd_by_id
                  then done (failed, s)
                  else elim (flush_loop fuel (s.inner id)) [
                    | none ↦ stuck
                    | some subs ↦ done (
                      ok,
                      reset_count topic_key (record s { inner = with_inner p s.inner id subs }),
                    )
                  ]
            ])
  ]
