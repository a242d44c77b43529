-- ===== src/Proto/Handler/Answered.antt =====
-- SUBSCRIBE: the answer, whatever add_subscriber does.
use bpf_broker.Prelude.{ℕ, ◌≡◌, ◌⊎◌, false, none, some}
use bpf_broker.Parse.{Key}
use bpf_broker.Proto.Store.{Platform, Store, Env, with_inner}
use bpf_broker.Proto.Service.Invariant.{id_of}

module _ (p : Platform) (env : Env) where
  -- The topic is not registered, its map cannot be opened, or the map does not take the subscriber.
  abbrev pub IsRefused : Key → ℕ → Store p → Type 0
  IsRefused topic packed s =
      (id_of p s topic ≡ none)
      ⊎ (env.fd_by_id ≡ false)
      ⊎ ((id : ℕ) × (id_of p s topic ≡ some id)
          × (p.subs.update_elem (s.inner id) packed env.dummy ≡ none))

  -- The subscriber is in the topic's map, and the other maps of subscribers are as before.
  abbrev pub IsTaken : Key → ℕ → Store p → Store p → Type 0
  IsTaken topic packed s s' =
      (id : ℕ) × (subs : p.subs.Map) × (id_of p s topic ≡ some id)
      × (p.subs.update_elem (s.inner id) packed env.dummy ≡ some subs)
      × (s'.inner ≡ with_inner p s.inner id subs)
