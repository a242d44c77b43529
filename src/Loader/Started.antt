-- ===== src/Loader/Started.antt =====
-- What holds once the loader's phases have run through.
use bpf_broker.Prelude.{
  ℕ, ◌≡◌, refl, sym, ◌∙◌, inl, inr, arith, All, List, [], ◌∷◌, some, Option-cases, Bool-cases,
}
use mathlib.Core.Path.{subst}
use bpf_broker.Loader.{
  running, and_then, each, Libc, Object, pin_map, resolve_all, attach_xdp, attach_tc,
}
use bpf_broker.Loader.Tables.{xdp_program, tc_program, progs, maps, map_progs_xdp, map_progs_tc}
use bpf_broker.Loader.Main.{Resources, load, open_program, attach_and_pin, attach_hooks, bring_up}
use bpf_broker.Loader.Kernel.{Host}
use bpf_broker.Loader.Phases.{
  and_then_inv, attach_xdp-All, attach_tc-All, attach_tc_others, IsPinned, pin_map-All, pin_map_xdp,
}

module _ (h : Host) (o : Object) (libc : Libc) (res : Resources) where
  -- The XDP program is on every interface, and every map is pinned.
  pub record Serving (names : List (List ℕ)) (interfaces_idx : List ℕ) (s : h.State) : Type 0 where
    pub fd : ℕ
    pub program : o.program_fd xdp_program ≡ some fd
    pub attached : All (λ i. h.xdp_at s i ≡ some fd) interfaces_idx
    pub pins : All (λ name. IsPinned h o name s) names

  attach_and_pin_lem :
      (names : List (List ℕ)) (l : List ℕ) (s : h.State) (fd : ℕ)
      → o.program_fd xdp_program ≡ some fd
      → and_then (each (attach_xdp h o fd) l s) (each (pin_map h o) names)
        ≡ attach_and_pin h o libc res names l s
  unfolding attach_and_pin
  attach_and_pin_lem names l s fd a = rw (attach_and_pin, a) refl

  pub attach_and_pin-Serving :
      (names : List (List ℕ)) (l : List ℕ) (s s' : h.State)
      → attach_and_pin h o libc res names l s ≡ running s'
      → Serving names l s'
  unfolding attach_and_pin
  attach_and_pin-Serving names l s s' e = elim (Option-cases (o.program_fd xdp_program)) [
    | inl a ↦ absurd (ground arith)
    | inr (fd, a) ↦
        let (k, attaching, pinning) =
          and_then_inv (each (attach_xdp h o fd) l s) (each (pin_map h o) names) s'
            (attach_and_pin_lem names l s fd a ∙ e) in
        record {
          fd = fd;
          program = a;
          attached =
              subst (λ at. All (λ i. at i ≡ some fd) l) (sym (pin_map_xdp h o names k s' pinning))
                (attach_xdp-All h o fd l s k attaching);
          pins = pin_map-All h o names k s' pinning;
        }
  ]

  -- The hooks leave the programs and the pins alone.
  Serving-kept :
      (names : List (List ℕ)) (l : List ℕ) (s s' : h.State)
      → h.xdp_at s' ≡ h.xdp_at s
      → h.pinned_at s' ≡ h.pinned_at s
      → Serving names l s
      → Serving names l s'
  Serving-kept names l s s' xdp pins r = record {
    fd = r.fd;
    program = r.program;
    attached = subst (λ at. All (λ i. at i ≡ some r.fd) l) (sym xdp) r.attached;
    pins =
        subst (λ at. All (λ name. (fd : ℕ) × (o.map_fd name ≡ some fd) × (at name ≡ some fd)) names)
          (sym pins) r.pins;
  }

  attach_hooks_inv :
      (l : List ℕ) (s s' : h.State)
      → attach_hooks h o libc res l s ≡ running s'
      → (fd : ℕ) × (o.program_fd tc_program ≡ some fd) × (each (attach_tc h o fd) l s ≡ running s')
  unfolding attach_hooks
  attach_hooks_inv l s s' e = elim (Bool-cases res.hooks) [
    | inr a ↦ absurd (ground arith)
    | inl a ↦ elim (Option-cases (o.program_fd tc_program)) [
      | inl b ↦ absurd (ground arith)
      | inr (fd, b) ↦ (fd, b, ground arith)
    ]
  ]

  pub load-resolve_all :
      (args names : List (List ℕ)) (l : List ℕ)
      → load h o libc res args names ≡ some l
      → resolve_all libc args ≡ some l
  unfolding load
  load-resolve_all [] names l e = absurd (cc e)
  load-resolve_all (arg ∷ args) names l e = elim (Option-cases (resolve_all libc (arg ∷ args))) [
    | inl a ↦ absurd (ground arith)
    | inr (k, a) ↦ ground arith
  ]

  bring_up_inv :
      (fuel : ℕ) (l : List ℕ) (s s' : h.State)
      → bring_up h o libc res fuel l s ≡ running s'
      → and_then
          (each (open_program h o libc res fuel) progs s)
          (λ s1. and_then (attach_and_pin h o libc res maps l s1) (attach_hooks h o libc res l))
        ≡ running s'
  unfolding bring_up
  bring_up_inv fuel l s s' e = elim (Option-cases (o.map_fd map_progs_xdp)) [
    | inl b ↦ absurd (cc (rw (bring_up, b) at e))
    | inr (xdp_fd, b) ↦ elim (Option-cases (o.map_fd map_progs_tc)) [
      | inl c ↦ absurd (cc (rw (bring_up, b, c) at e))
      | inr (tc_fd, c) ↦ rw (bring_up, b, c) at e
    ]
  ]

  -- Both programs are on every interface, and every map is pinned.
  abbrev pub IsServing : List ℕ → h.State → Type 0
  IsServing l s =
      Serving maps l s
      × (fd : ℕ) × (o.program_fd tc_program ≡ some fd)
      × All (λ i. h.tc_at s i ≡ some fd) l

  pub bring_up-IsServing :
      (fuel : ℕ) (l : List ℕ) (s s' : h.State)
      → bring_up h o libc res fuel l s ≡ running s'
      → IsServing l s'
  bring_up-IsServing fuel l s s' e =
      let (s1, opened, serving) =
        and_then_inv (each (open_program h o libc res fuel) progs s)
          (λ s1. and_then (attach_and_pin h o libc res maps l s1) (attach_hooks h o libc res l)) s'
          (bring_up_inv fuel l s s' e) in
      let (s2, attached, hooked) =
        and_then_inv (attach_and_pin h o libc res maps l s1) (attach_hooks h o libc res l) s'
          serving in
      let (fd, program, hooks) = attach_hooks_inv l s2 s' hooked in
      let (xdp, pins) = attach_tc_others h o fd l s2 s' hooks in
      (
        Serving-kept maps l s2 s' xdp pins (attach_and_pin-Serving maps l s1 s2 attached),
        fd,
        program,
        attach_tc-All h o fd l s2 s' hooks,
      )
