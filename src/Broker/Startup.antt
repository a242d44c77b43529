-- ===== src/Broker/Startup.antt =====
-- The loaders and the services: each service opens by name what its loader has pinned.
use bpf_broker.Prelude.{
  Bool, ℕ, suc, ◌≡◌, ◌≢◌, refl, sym, inl, inr, true, List, Option, none, some, Option-cases,
}
use mathlib.Core.Path.{subst}
use bpf_broker.Loader.{running, Libc, Object}
use bpf_broker.Loader.Kernel.{Host, ObjGet}
use bpf_broker.Loader.Tables.{
  map_topic_subscribe, map_topic_sub_cnt, map_topic_first_sub, map_topic_sub_array, pin_path,
}
use bpf_broker.Loader.Main.{Resources, main_broker, main_array}
use bpf_broker.Loader.Phases.{IsPinned}
use bpf_broker.Loader.Ended.{IsEnd, main_broker-IsEnd}
use bpf_broker.Loader.EndedArray.{IsArrayEnd, main_array-IsArrayEnd}
use bpf_broker.Proto.Startup.{inaddr_any, broker_port, Descriptors, open_service}
use bpf_broker.Frame.{swap16}
use bpf_broker.ArrayProto.Startup.{ArrayDescriptors, open_array_service}

module _ (h : Host) (g : ObjGet h) (o : Object) where
  -- The descriptor is of the loaded object's map of that name.
  abbrev pub IsMap : List ℕ → ℕ → Type 0
  IsMap name d = o.map_fd name ≡ some (g.object d)

  -- The service may open what is pinned.
  abbrev pub MayOpen : h.State → Type 0
  MayOpen s = (name : List ℕ) → h.pinned_at s name ≢ none → g.obj_get s (pin_path name) ≢ none

  opened :
      (s : h.State) (name : List ℕ)
      → MayOpen s
      → IsPinned h o name s
      → (d : ℕ) × (g.obj_get s (pin_path name) ≡ some d) × IsMap name d
  opened s name may (fd, at, pinned) = elim (Option-cases (g.obj_get s (pin_path name))) [
    | inl e ↦ absurd (may name (λ q. cc (pinned, q)) e)
    | inr (d, e) ↦ (d, e, subst (λ k. o.map_fd name ≡ some k) (sym (g.get s name fd d pinned e)) at)
  ]

module _ (h : Host) (g : ObjGet h) (o : Object) (libc : Libc) (res : Resources)
    (args : List (List ℕ)) (signals : List (Option ℕ)) (s s' : h.State) (sock : ℕ)
    (bind : ℕ → ℕ → ℕ → Bool) (bound : bind sock inaddr_any (swap16 broker_port) ≡ true) where
  -- While the loader of bpf_broker waits, and where pins may be opened and the socket can be made
  -- and bound to port 49152: the service gets past the opening of its maps and of its socket, and
  -- its three descriptors are of the loaded object's topic_subscribe, topic_sub_cnt and
  -- topic_first_sub.
  pub main_broker-open_service :
      (fuel : ℕ)
      → main_broker h o libc res (suc (suc fuel)) args signals s ≡ running s'
      → MayOpen h g o s'
      → (d : Descriptors) × (open_service (g.obj_get s') (some sock) bind ≡ some d)
        × (d.sock ≡ sock)
        × IsMap h g o map_topic_subscribe d.outer_fd
        × IsMap h g o map_topic_sub_cnt d.sub_count_fd
        × IsMap h g o map_topic_first_sub d.first_sub_fd
  unfolding open_service
  main_broker-open_service fuel runs may =
      let (l, known, serving) =
        subst (IsEnd h o libc res args) runs (main_broker-IsEnd h o libc res fuel args signals s) in
      let pins = serving.0.pins in
      let (outer, e0, m0) = opened h g o s' map_topic_subscribe may pins.0 in
      let (count, e1, m1) = opened h g o s' map_topic_sub_cnt may pins.1.0 in
      let (first, e2, m2) = opened h g o s' map_topic_first_sub may pins.1.1.0 in
      (
        record { outer_fd = outer; sub_count_fd = count; first_sub_fd = first; sock = sock },
        rw (open_service, e0, e1, e2, bound) refl,
        refl,
        m0,
        m1,
        m2,
      )

  -- While the loader of bpf_broker_xdp waits, and where pins may be opened and the socket can be
  -- made and bound: the service over arrays gets past the opening of its maps and of its socket,
  -- and its two descriptors are of the loaded object's topic_sub_array and topic_sub_cnt.
  pub main_array-open_array_service :
      main_array h o libc res args signals s ≡ running s'
      → MayOpen h g o s'
      → (d : ArrayDescriptors) × (open_array_service (g.obj_get s') (some sock) bind ≡ some d)
        × (d.sock ≡ sock)
        × IsMap h g o map_topic_sub_array d.outer_fd
        × IsMap h g o map_topic_sub_cnt d.sub_count_fd
  unfolding open_array_service
  main_array-open_array_service runs may =
      let (l, known, serving) =
        subst (IsArrayEnd h o libc res args) runs
          (main_array-IsArrayEnd h o libc res args signals s) in
      let pins = serving.pins in
      let (outer, e0, m0) = opened h g o s' map_topic_sub_array may pins.0 in
      let (count, e1, m1) = opened h g o s' map_topic_sub_cnt may pins.1.0 in
      (
        record { outer_fd = outer; sub_count_fd = count; sock = sock },
        rw (open_array_service, e0, e1, bound) refl,
        refl,
        m0,
        m1,
      )
