-- ===== src/Loader/Phases.antt =====
-- The phases of the loader: what a loop that runs through has done.
use bpf_broker.Prelude.{
  ℕ, ◌⊎◌, ◌≡◌, ◌≢◌, refl, sym, ap, ◌∙◌, All, inl, inr, arith, List, [], ◌∷◌, some, Option-cases,
}
use mathlib.Core.Path.{subst}
use native.Mathlib.Decide.{ℕ_discrete}
use bpf_broker.Proto.Service.Invariant.{Key-discrete}
use bpf_broker.Loader.{
  Start, running, retrying, exited, detached, and_then, each, Object, pin_map, attach_xdp,
  attach_tc,
}
use bpf_broker.Loader.Kernel.{Host, pinned, PinResult-cases}

pub and_then_inv :
    {S : Type 0} (r : Start S) (next : S → Start S) (s' : S)
    → and_then r next ≡ running s'
    → (s1 : S) × (r ≡ running s1) × (next s1 ≡ running s')
and_then_inv (running s) next s' e = (s, refl, e)
and_then_inv (retrying s) next s' e = absurd (cc e)
and_then_inv (exited code s) next s' e = absurd (cc e)

module _ {A S : Type 0} (step : A → S → Start S) where
  -- What every round keeps.
  pub each_keeps :
      (Q : S → Type 0)
      → ((x : A) (s s' : S) → step x s ≡ running s' → Q s → Q s')
      → (xs : List A) (s s' : S) → each step xs s ≡ running s'
      → Q s
      → Q s'
  each_keeps Q keeps [] s s' e q = subst Q (cc e) q
  each_keeps Q keeps (x ∷ xs) s s' e q =
      let (s1, first, rest) = and_then_inv (step x s) (each step xs) s' e in
      each_keeps Q keeps xs s1 s' rest (keeps x s s1 first q)

  -- What every round does, and the other rounds keep.
  pub each-All :
      (P : A → S → Type 0)
      → ((x : A) (s s' : S) → step x s ≡ running s' → P x s')
      → ((x y : A) (s s' : S) → step y s ≡ running s' → P x s → P x s')
      → (xs : List A) (s s' : S) → each step xs s ≡ running s'
      → All (λ x. P x s') xs
  each-All P does keeps [] s s' e = tt
  each-All P does keeps (x ∷ xs) s s' e =
      let (s1, first, rest) = and_then_inv (step x s) (each step xs) s' e in
      (
        each_keeps (P x) (keeps x) xs s1 s' rest (does x s s1 first),
        each-All P does keeps xs s1 s' rest,
      )

module _ (h : Host) (o : Object) where
  -- A round of attaching to an interface.
  attach_xdp_inv :
      (fd i : ℕ) (s s' : h.State)
      → attach_xdp h o fd i s ≡ running s'
      → h.xdp_attach s i fd ≡ some s'
  unfolding attach_xdp
  attach_xdp_inv fd i s s' e = elim (Option-cases (h.xdp_attach s i fd)) [
    | inl a ↦ absurd (ground arith)
    | inr (k, a) ↦ ground arith
  ]

  pub attach_xdp-All :
      (fd : ℕ) (l : List ℕ) (s s' : h.State)
      → each (attach_xdp h o fd) l s ≡ running s'
      → All (λ i. h.xdp_at s' i ≡ some fd) l
  attach_xdp-All fd l s s' e =
      each-All (attach_xdp h o fd) (λ i k. h.xdp_at k i ≡ some fd)
        (λ i k k' a. h.xdp-attach_self k k' i fd (attach_xdp_inv fd i k k' a))
        (λ i j k k' a done. elim (ℕ_discrete i j) [
          | yes q ↦ ap (h.xdp_at k') q ∙ h.xdp-attach_self k k' j fd (attach_xdp_inv fd j k k' a)
          | no n ↦ h.xdp-attach_ne k k' j i fd (attach_xdp_inv fd j k k' a) n ∙ done
        ])
        l s s' e

  -- The removal of a stale qdisc, which may fail.
  destroyed_others :
      (s : h.State) (i : ℕ)
      → ((j : ℕ) → j ≢ i → h.tc_at (detached s (h.hook_destroy s i)) j ≡ h.tc_at s j)
        × (h.xdp_at (detached s (h.hook_destroy s i)) ≡ h.xdp_at s)
        × (h.pinned_at (detached s (h.hook_destroy s i)) ≡ h.pinned_at s)
  destroyed_others s i = elim (Option-cases (h.hook_destroy s i)) [
    | inl e ↦ rw e ((λ j n. refl), refl, refl)
    | inr (s', e) ↦
        rw e ((λ j n. h.tc-destroy_ne s s' i j e n), h.xdp-destroy s s' i e, h.pin-destroy s s' i e)
  ]

  -- A round of tc.
  attach_tc_inv :
      (fd i : ℕ) (s s' : h.State)
      → attach_tc h o fd i s ≡ running s'
      → (k : h.State) × (h.hook_create (detached s (h.hook_destroy s i)) i ≡ some k)
        × (h.tc_attach k i fd ≡ some s')
  unfolding attach_tc
  attach_tc_inv fd i s s' e =
      elim (Option-cases (h.hook_create (detached s (h.hook_destroy s i)) i)) [
        | inl a ↦ absurd (ground arith)
        | inr (k, a) ↦ elim (Option-cases (h.tc_attach k i fd)) [
          | inl b ↦ absurd (ground arith)
          | inr (k', b) ↦ (k, a, ground arith)
        ]
      ]

  pub attach_tc-All :
      (fd : ℕ) (l : List ℕ) (s s' : h.State)
      → each (attach_tc h o fd) l s ≡ running s'
      → All (λ i. h.tc_at s' i ≡ some fd) l
  attach_tc-All fd l s s' e =
      each-All (attach_tc h o fd) (λ i k. h.tc_at k i ≡ some fd)
        (λ i k k' a. let (m, made, on) = attach_tc_inv fd i k k' a in h.tc-attach_self m k' i fd on)
        (λ i j k k' a done.
          let (m, made, on) = attach_tc_inv fd j k k' a in
          elim (ℕ_discrete i j) [
            | yes q ↦ ap (h.tc_at k') q ∙ h.tc-attach_self m k' j fd on
            | no n ↦
                h.tc-attach_ne m k' j i fd on n
                ∙ h.tc-create_ne (detached k (h.hook_destroy k j)) m j i made n
                ∙ (destroyed_others k j).0 i n
                ∙ done
          ])
        l s s' e

  pub attach_tc_others :
      (fd : ℕ) (l : List ℕ) (s s' : h.State)
      → each (attach_tc h o fd) l s ≡ running s'
      → (h.xdp_at s' ≡ h.xdp_at s) × (h.pinned_at s' ≡ h.pinned_at s)
  attach_tc_others fd l s s' e =
      each_keeps (attach_tc h o fd)
        (λ k. (h.xdp_at k ≡ h.xdp_at s) × (h.pinned_at k ≡ h.pinned_at s))
        (λ i k k' a same.
          let (m, made, on) = attach_tc_inv fd i k k' a in
          (
            h.xdp-tc_attach m k' i fd on
                ∙ h.xdp-create (detached k (h.hook_destroy k i)) m i made
                ∙ (destroyed_others k i).1
                ∙ same.0,
            h.pin-tc_attach m k' i fd on
                ∙ h.pin-create (detached k (h.hook_destroy k i)) m i made
                ∙ (destroyed_others k i).2
                ∙ same.1,
          ))
        l s s' e (refl, refl)

  -- The map of a name is pinned under it.
  abbrev pub IsPinned : List ℕ → h.State → Type 0
  IsPinned name s = (fd : ℕ) × (o.map_fd name ≡ some fd) × (h.pinned_at s name ≡ some fd)

  -- A pin at the first attempt, or after the removal of an older one.
  pin_map_inv :
      (name : List ℕ) (s s' : h.State)
      → pin_map h o name s ≡ running s'
      → (fd : ℕ) × (o.map_fd name ≡ some fd)
        × ((h.obj_pin s fd name ≡ pinned s')
            ⊎ ((s1 : h.State) × (h.unlink s name ≡ some s1) × (h.obj_pin s1 fd name ≡ pinned s')))
  unfolding pin_map
  pin_map_inv name s s' e = elim (Option-cases (o.map_fd name)) [
    | inl a ↦ absurd (ground arith)
    | inr (fd, a) ↦ elim (PinResult-cases (h.obj_pin s fd name)) [
      | inl (k, b) ↦ (fd, a, inl (ground arith))
      | inr (inr b) ↦ absurd (ground arith)
      | inr (inl b) ↦ elim (Option-cases (h.unlink s name)) [
        | inl c ↦ absurd (ground arith)
        | inr (s1, c) ↦ elim (PinResult-cases (h.obj_pin s1 fd name)) [
          | inl (k, d) ↦ (fd, a, inr (s1, c, ground arith))
          | inr (inl d) ↦ absurd (ground arith)
          | inr (inr d) ↦ absurd (ground arith)
        ]
      ]
    ]
  ]

  pin_map-IsPinned :
      (name : List ℕ) (s s' : h.State) → pin_map h o name s ≡ running s' → IsPinned name s'
  pin_map-IsPinned name s s' e =
      let (fd, at, how) = pin_map_inv name s s' e in
      elim how [
        | inl a ↦ (fd, at, h.pin-pin_self s s' fd name a)
        | inr (s1, removed, a) ↦ (fd, at, h.pin-pin_self s1 s' fd name a)
      ]

  pin_map_others :
      (name : List ℕ) (s s' : h.State)
      → pin_map h o name s ≡ running s'
      → ((m : List ℕ) → m ≢ name → h.pinned_at s' m ≡ h.pinned_at s m) × (h.xdp_at s' ≡ h.xdp_at s)
  pin_map_others name s s' e =
      let (fd, at, how) = pin_map_inv name s s' e in
      elim how [
        | inl a ↦ (λ m n. h.pin-pin_ne s s' fd name m a n, h.xdp-pin s s' fd name a)
        | inr (s1, removed, a) ↦ (
          λ m n. h.pin-pin_ne s1 s' fd name m a n ∙ h.pin-unlink_ne s s1 name m removed n,
          h.xdp-pin s1 s' fd name a ∙ h.xdp-unlink s s1 name removed,
        )
      ]

  pub pin_map-All :
      (names : List (List ℕ)) (s s' : h.State)
      → each (pin_map h o) names s ≡ running s'
      → All (λ name. IsPinned name s') names
  pin_map-All names s s' e =
      each-All (pin_map h o) IsPinned pin_map-IsPinned
        (λ x y k k' a (fd, at, here). elim (Key-discrete x y) [
          | yes q ↦ subst (λ z. IsPinned z k') (sym q) (pin_map-IsPinned y k k' a)
          | no n ↦ (fd, at, (pin_map_others y k k' a).0 x n ∙ here)
        ])
        names s s' e

  pub pin_map_xdp :
      (names : List (List ℕ)) (s s' : h.State)
      → each (pin_map h o) names s ≡ running s'
      → h.xdp_at s' ≡ h.xdp_at s
  pin_map_xdp names s s' e =
      each_keeps (pin_map h o) (λ k. h.xdp_at k ≡ h.xdp_at s)
        (λ name k k' a same. (pin_map_others name k k' a).1 ∙ same) names s s' e refl
