-- ===== src/Proto/Store.antt =====
-- The state that the broker's processes share: three maps keyed by topic, and the inner maps of
-- subscribers, which the outer map names by the id that the kernel gave them.
use bpf_broker.Prelude.{ℕ, ◌==◌, if◌then◌else◌, Bool, Option}
use bpf_broker.Parse.{Key}
use bpf_broker.Maps.{HashMap}

-- The kernel's maps, by the types of their keys and values.
pub record Platform : Type 1 where
  pub topics : HashMap Key ℕ
  pub counts : HashMap Key ℕ
  pub firsts : HashMap Key ℕ
  pub subs : HashMap ℕ ℕ

module _ (p : Platform) where
  pub record Store : Type 0 where
    pub topic_subscribe : p.topics.Map
    pub topic_sub_cnt : p.counts.Map
    pub topic_first_sub : p.firsts.Map
    pub inner : ℕ → p.subs.Map

  -- `map` in place of the inner map `id`.
  abbrev pub with_inner : (ℕ → p.subs.Map) → ℕ → p.subs.Map → ℕ → p.subs.Map
  with_inner inner id map j = if j == id then map else inner j

-- What the kernel answers during one call: whether the map's id gives a descriptor, the id of a
-- map that is created (`none` if that fails), and the value that an insertion copies from the
-- stack.
pub record Env : Type 0 where
  pub fd_by_id : Bool
  pub created : Option ℕ
  pub dummy : ℕ
