-- ===== src/Broker.antt =====
-- The two halves of the broker together: bpf_broker/bpf_broker_proto.c fills the maps that
-- bpf_broker/bpf_broker_kern.c reads.
pub mod Keys
pub mod Pack
pub mod FastPath
pub mod Paths
pub mod Ingress
pub mod Fanout
pub mod Silence
pub mod Startup
use bpf_broker.Prelude.{ℕ, ◌≡◌, arith, List, Option, none, some}
use bpf_broker.Parse.{Key}
use bpf_broker.Xdp.{Tables}
use bpf_broker.Proto.Store.{Platform, Store}

-- The maps as the XDP program reads them.
abbrev pub tables_of : (p : Platform) → Store p → Tables
tables_of p s = record {
  topic_sub_cnt = p.counts.lookup_elem s.topic_sub_cnt;
  topic_first_sub = p.firsts.lookup_elem s.topic_first_sub;
}

-- The map topic_subscribe as tc_ingress_broker reads it: the keys of a topic's inner map.
abbrev pub topics_of : (p : Platform) → Store p → Key → Option (List ℕ)
topics_of p s key = elim (p.topics.lookup_elem s.topic_subscribe key) [
  | none ↦ none
  | some id ↦ some (p.subs.keys (s.inner id))
]

pub topics_of-id :
    (p : Platform) (s : Store p) (key : Key) (id : ℕ)
    → p.topics.lookup_elem s.topic_subscribe key ≡ some id
    → topics_of p s key ≡ some (p.subs.keys (s.inner id))
topics_of-id p s key id at = ground arith

pub topics_of-none :
    (p : Platform) (s : Store p) (key : Key)
    → p.topics.lookup_elem s.topic_subscribe key ≡ none
    → topics_of p s key ≡ none
topics_of-none p s key absent = ground arith
