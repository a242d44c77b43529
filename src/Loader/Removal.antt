-- ===== src/Loader/Removal.antt =====
-- The removal of the programs at the end of a loader, of which every call may fail.
use bpf_broker.Prelude.{
  ℕ, ◌≡◌, ◌⊎◌, refl, ap, ◌∙◌, inl, inr, All, List, [], ◌∷◌, Option, none, some, Option-cases,
}
use native.Mathlib.Decide.{ℕ_discrete}
use bpf_broker.Loader.{detached, Libc, Object}
use bpf_broker.Loader.Kernel.{Host}
use bpf_broker.Loader.Main.{Resources, teardown, teardown_array}

-- Removals that have succeeded, one after the other.
pub data Removals (h : Host) : h.State → h.State → Type 0 where
  here : {s : h.State} → Removals h s s
  hook :
      {s s1 s2 : h.State} (i : ℕ)
      → h.hook_destroy s i ≡ some s1
      → Removals h s1 s2
      → Removals h s s2
  program :
      {s s1 s2 : h.State} (i : ℕ) → h.xdp_detach s i ≡ some s1 → Removals h s1 s2 → Removals h s s2

module _ (h : Host) where
  append : {s s1 s2 : h.State} → Removals h s s1 → Removals h s1 s2 → Removals h s s2
  append here b = b
  append (hook i e a) b = hook i e (append a b)
  append (program i e a) b = program i e (append a b)

  -- Between two states a removal has emptied the place or has left it alone.
  abbrev Shrinks : (h.State → ℕ → Option ℕ) → ℕ → h.State → h.State → Type 0
  Shrinks at j s s' = (at s' j ≡ none) ⊎ (at s' j ≡ at s j)

  Shrinks-trans :
      (at : h.State → ℕ → Option ℕ) (j : ℕ) (s s1 s2 : h.State)
      → Shrinks at j s s1
      → Shrinks at j s1 s2
      → Shrinks at j s s2
  Shrinks-trans at j s s1 s2 a (inl e) = inl e
  Shrinks-trans at j s s1 s2 (inl d) (inr e) = inl (e ∙ d)
  Shrinks-trans at j s s1 s2 (inr d) (inr e) = inr (e ∙ d)

  -- No program is left on the interface, or a call that removes it has failed, in a state that the
  -- removals come to from `s`, and what is left is what was there then.
  abbrev pub IsRemoved :
      (h.State → ℕ → Option ℕ) → (h.State → ℕ → Option h.State) → h.State → h.State → ℕ → Type 0
  IsRemoved at remove s s' i =
      (at s' i ≡ none) ⊎ ((t : h.State) × Removals h s t × (remove t i ≡ none) × (at s' i ≡ at t i))

  IsRemoved-before :
      (at : h.State → ℕ → Option ℕ) (remove : h.State → ℕ → Option h.State) (s s1 s' : h.State)
      (i : ℕ)
      → Removals h s s1
      → IsRemoved at remove s1 s' i
      → IsRemoved at remove s s' i
  IsRemoved-before at remove s s1 s' i r (inl e) = inl e
  IsRemoved-before at remove s s1 s' i r (inr (t, way, failed, same)) =
      inr (t, append r way, failed, same)

  -- A call that removes, and states that only shrink after it.
  removed :
      (at : h.State → ℕ → Option ℕ) (remove : h.State → ℕ → Option h.State) (s s' : h.State) (i : ℕ)
      → ((t : h.State) → remove s i ≡ some t → at t i ≡ none)
      → Shrinks at i (detached s (remove s i)) s'
      → IsRemoved at remove s s' i
  removed at remove s s' i self (inl e) = inl e
  removed at remove s s' i self (inr e) = elim (Option-cases (remove s i)) [
    | inl a ↦ inr (s, here, a, e ∙ rw a refl)
    | inr (t, a) ↦ inl (e ∙ rw a (self t a))
  ]

  -- One call of each kind.
  program-Removals : (s : h.State) (i : ℕ) → Removals h s (detached s (h.xdp_detach s i))
  program-Removals s i = elim (Option-cases (h.xdp_detach s i)) [
    | inl e ↦ rw e here
    | inr (t, e) ↦ rw e (program i e here)
  ]

  hook-Removals : (s : h.State) (i : ℕ) → Removals h s (detached s (h.hook_destroy s i))
  hook-Removals s i = elim (Option-cases (h.hook_destroy s i)) [
    | inl e ↦ rw e here
    | inr (t, e) ↦ rw e (hook i e here)
  ]

  -- After any removals.
  Removals-Shrinks :
      {s s' : h.State}
      → Removals h s s'
      → (j : ℕ) → Shrinks h.xdp_at j s s' × Shrinks h.tc_at j s s'
  Removals-Shrinks {s} here j = (inr refl, inr refl)
  Removals-Shrinks {s} {s'} (hook {s1 = s1} i e r) j =
      let (xdp, tc) = Removals-Shrinks r j in
      (
        Shrinks-trans h.xdp_at j s s1 s' (inr (ap (λ f. f j) (h.xdp-destroy s s1 i e))) xdp,
        Shrinks-trans h.tc_at j s s1 s'
            (elim (ℕ_discrete j i) [
              | yes q ↦ inl (ap (h.tc_at s1) q ∙ h.tc-destroy_self s s1 i e)
              | no n ↦ inr (h.tc-destroy_ne s s1 i j e n)
            ])
            tc,
      )
  Removals-Shrinks {s} {s'} (program {s1 = s1} i e r) j =
      let (xdp, tc) = Removals-Shrinks r j in
      (
        Shrinks-trans h.xdp_at j s s1 s'
            (elim (ℕ_discrete j i) [
              | yes q ↦ inl (ap (h.xdp_at s1) q ∙ h.xdp-detach_self s s1 i e)
              | no n ↦ inr (h.xdp-detach_ne s s1 i j e n)
            ])
            xdp,
        Shrinks-trans h.tc_at j s s1 s' (inr (ap (λ f. f j) (h.tc-detach s s1 i e))) tc,
      )

  -- A round of the loop at the end, and the loops.
  round-Removals :
      (s : h.State) (i : ℕ)
      → Removals h s (
          detached
            (detached s (h.hook_destroy s i))
            (h.xdp_detach (detached s (h.hook_destroy s i)) i))
  round-Removals s i =
      append (hook-Removals s i) (program-Removals (detached s (h.hook_destroy s i)) i)

  module _ (o : Object) (libc : Libc) (res : Resources) where
    pub teardown-Removals : (l : List ℕ) (s : h.State) → Removals h s (teardown h o libc res l s)
    unfolding teardown
    teardown-Removals [] s = here
    teardown-Removals (i ∷ l) s = append (round-Removals s i) (
        teardown-Removals l (
          detached (detached s (h.hook_destroy s i))
            (h.xdp_detach (detached s (h.hook_destroy s i)) i)))

    pub teardown_array-Removals :
        (l : List ℕ) (s : h.State) → Removals h s (teardown_array h o libc res l s)
    unfolding teardown_array
    teardown_array-Removals [] s = here
    teardown_array-Removals (i ∷ l) s =
        append (program-Removals s i) (teardown_array-Removals l (detached s (h.xdp_detach s i)))

    -- The loop may have begun at an earlier state.
    teardown-All :
        (l : List ℕ) (s0 s : h.State)
        → Removals h s0 s
        → All
            (λ i.
              IsRemoved h.xdp_at h.xdp_detach s0 (teardown h o libc res l s) i
              × IsRemoved h.tc_at h.hook_destroy s0 (teardown h o libc res l s) i)
            l
    unfolding teardown
    teardown-All [] s0 s r = tt
    teardown-All (i ∷ l) s0 s r =
        let s1 = detached s (h.hook_destroy s i) in
        let s2 = detached s1 (h.xdp_detach s1 i) in
        let s' = teardown h o libc res l s2 in
        let r1 = append r (hook-Removals s i) in
        let rest = teardown-Removals l s2 in
        (
          (
            IsRemoved-before h.xdp_at h.xdp_detach s0 s1 s' i r1 (
                removed h.xdp_at h.xdp_detach s1 s' i (λ t e. h.xdp-detach_self s1 t i e)
                  (Removals-Shrinks rest i).0),
            IsRemoved-before h.tc_at h.hook_destroy s0 s s' i r (
                removed h.tc_at h.hook_destroy s s' i (λ t e. h.tc-destroy_self s t i e)
                  (Removals-Shrinks (append (program-Removals s1 i) rest) i).1),
          ),
          teardown-All l s0 s2 (append r (round-Removals s i)),
        )

    teardown_array-All :
        (l : List ℕ) (s0 s : h.State)
        → Removals h s0 s
        → All (IsRemoved h.xdp_at h.xdp_detach s0 (teardown_array h o libc res l s)) l
    unfolding teardown_array
    teardown_array-All [] s0 s r = tt
    teardown_array-All (i ∷ l) s0 s r =
        let s1 = detached s (h.xdp_detach s i) in
        let s' = teardown_array h o libc res l s1 in
        (
          IsRemoved-before h.xdp_at h.xdp_detach s0 s s' i r (
              removed h.xdp_at h.xdp_detach s s' i (λ t e. h.xdp-detach_self s t i e)
                (Removals-Shrinks (teardown_array-Removals l s1) i).0),
          teardown_array-All l s0 s1 (append r (program-Removals s i)),
        )

    -- What the two loops leave on the interfaces.
    abbrev pub IsEmptied : List ℕ → h.State → h.State → Type 0
    IsEmptied l s s' =
        Removals h s s'
        × All
            (λ i. IsRemoved h.xdp_at h.xdp_detach s s' i × IsRemoved h.tc_at h.hook_destroy s s' i)
            l

    abbrev pub IsArrayEmptied : List ℕ → h.State → h.State → Type 0
    IsArrayEmptied l s s' = Removals h s s' × All (IsRemoved h.xdp_at h.xdp_detach s s') l

    pub teardown-IsEmptied : (l : List ℕ) (s : h.State) → IsEmptied l s (teardown h o libc res l s)
    teardown-IsEmptied l s = (teardown-Removals l s, teardown-All l s s here)

    pub teardown_array-IsEmptied :
        (l : List ℕ) (s : h.State) → IsArrayEmptied l s (teardown_array h o libc res l s)
    teardown_array-IsEmptied l s = (teardown_array-Removals l s, teardown_array-All l s s here)
