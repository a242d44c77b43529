-- ===== src/Loader/Settles.antt =====
-- The loader comes to an end or to its wait: a pin is tried twice at most.
use bpf_broker.Prelude.{
  arith, ◌<◌, ℕ, suc, ◌≡◌, inl, inr, true, false, not, List, [], ◌∷◌, Bool, Option, none, some,
  Option-cases, if◌then◌else◌,
}
use bpf_broker.Loader.{
  Start, running, retrying, exited, minus_one, detached, and_then, each, Libc, Object, pin_map,
  pin_program, attach_xdp, attach_tc,
}
use bpf_broker.Loader.Tables.{xdp_program, tc_program, progs, maps, map_progs_xdp, map_progs_tc}
use bpf_broker.Loader.Main.{Resources, open_program, attach_and_pin, attach_hooks, bring_up}
use bpf_broker.Loader.Kernel.{Host, PinResult, pinned, exists, refused, PinResult-cases}

-- It is not trying again, and has not returned 0.
abbrev pub Settles : {S : Type 0} → Start S → Type 0
Settles (running s) = Unit
Settles (retrying s) = ⊥
Settles (exited code s) = 0 < code

pub and_then-Settles :
    {S : Type 0} (r : Start S) (next : S → Start S)
    → Settles r
    → ((s : S) → Settles (next s))
    → Settles (and_then r next)
and_then-Settles (running s) next a b = b s
and_then-Settles (retrying s) next a b = a
and_then-Settles (exited code s) next a b = a

pub each-Settles :
    {A S : Type 0} (step : A → S → Start S)
    → ((x : A) (s : S) → Settles (step x s))
    → (xs : List A) (s : S) → Settles (each step xs s)
each-Settles step a [] s = tt
each-Settles step a (x ∷ xs) s =
    and_then-Settles (step x s) (each step xs) (a x s) (each-Settles step a xs)

pub option-Settles :
    {A S : Type 0} (o : Option A) (code : ℕ) (error : 0 < code) (s : S) (next : A → Start S)
    → ((a : A) → Settles (next a))
    → Settles (elim o [ none ↦ exited code s | some a ↦ next a ])
option-Settles none code error s next h = error
option-Settles (some a) code error s next h = h a

if-Settles :
    {S : Type 0} (b : Bool) (x y : Start S) → Settles x → Settles y → Settles (if b then x else y)
if-Settles true x y a c = a
if-Settles false x y a c = c

pin-Settles :
    {S : Type 0} (r : PinResult S) (code : ℕ) (error : 0 < code) (s : S) (again : Start S)
    → Settles again
    → Settles (elim r [ pinned k ↦ running k | refused ↦ exited code s | exists ↦ again ])
pin-Settles (pinned k) code error s again h = tt
pin-Settles exists code error s again h = h
pin-Settles refused code error s again h = error

pub error_one : 0 < 1
error_one = omega arith

error_minus_one : 0 < minus_one
error_minus_one = omega arith

module _ (h : Host) (o : Object) where
  pin_map-Settles : (name : List ℕ) (s : h.State) → Settles (pin_map h o name s)
  unfolding pin_map
  pin_map-Settles name s = option-Settles (o.map_fd name) minus_one error_minus_one s _ λ fd.
      pin-Settles (h.obj_pin s fd name) minus_one error_minus_one s _ (
        option-Settles (h.unlink s name) minus_one error_minus_one s _
          λ s1. pin-Settles (h.obj_pin s1 fd name) minus_one error_minus_one s1 _ error_minus_one)

  -- A name that is free is not taken at the second attempt.
  pin_program_free :
      (fuel fd : ℕ) (name : List ℕ) (s : h.State)
      → h.pinned_at s name ≡ none
      → Settles (pin_program h o (suc fuel) fd name s)
  unfolding pin_program
  pin_program_free fuel fd name s free = elim (PinResult-cases (h.obj_pin s fd name)) [
    | inl (k, e) ↦ rw (pin_program, e) tt
    | inr (inl e) ↦ absurd (h.pin_exists s fd name e free)
    | inr (inr e) ↦ rw (pin_program, e) error_minus_one
  ]

  pin_program-Settles :
      (fuel fd : ℕ) (name : List ℕ) (s : h.State)
      → Settles (pin_program h o (suc (suc fuel)) fd name s)
  unfolding pin_program
  pin_program-Settles fuel fd name s =
      pin-Settles (h.obj_pin s fd name) minus_one error_minus_one s _
        (elim (Option-cases (h.unlink s name)) [
          | inl e ↦ rw e error_minus_one
          | inr (s1, e) ↦ rw e (pin_program_free fuel fd name s1 (h.pin-unlink_self s s1 name e))
        ])

  attach_xdp-Settles : (fd i : ℕ) (s : h.State) → Settles (attach_xdp h o fd i s)
  unfolding attach_xdp
  attach_xdp-Settles fd i s = option-Settles (h.xdp_attach s i fd) 1 error_one s _ (λ k. tt)

  attach_tc-Settles : (fd i : ℕ) (s : h.State) → Settles (attach_tc h o fd i s)
  unfolding attach_tc
  attach_tc-Settles fd i s =
      option-Settles (h.hook_create (detached s (h.hook_destroy s i)) i) 1 error_one
        (detached s (h.hook_destroy s i)) _
        λ k. option-Settles (h.tc_attach k i fd) 1 error_one k _ (λ m. tt)

module _ (h : Host) (o : Object) (libc : Libc) (res : Resources) where
  pub open_program-Settles :
      (fuel : ℕ) (p : List ℕ × Bool) (s : h.State)
      → Settles (open_program h o libc res (suc (suc fuel)) p s)
  unfolding open_program
  open_program-Settles fuel (name, pin) s =
      option-Settles (o.program_fd name) 1 error_one s _
        λ fd. if-Settles pin _ _ (pin_program-Settles h o fuel fd name s) tt

  pub attach_and_pin-Settles :
      (names : List (List ℕ)) (l : List ℕ) (s : h.State)
      → Settles (attach_and_pin h o libc res names l s)
  unfolding attach_and_pin
  attach_and_pin-Settles names l s = option-Settles (o.program_fd xdp_program) 1 error_one s _ λ fd.
      and_then-Settles (each (attach_xdp h o fd) l s) (each (pin_map h o) names)
        (each-Settles (attach_xdp h o fd) (attach_xdp-Settles h o fd) l s)
        (each-Settles (pin_map h o) (pin_map-Settles h o) names)

  attach_hooks-Settles : (l : List ℕ) (s : h.State) → Settles (attach_hooks h o libc res l s)
  unfolding attach_hooks
  attach_hooks-Settles l s = if-Settles (not res.hooks) (exited 1 s) _ error_one (
      option-Settles (o.program_fd tc_program) 1 error_one s _
        λ fd. each-Settles (attach_tc h o fd) (attach_tc-Settles h o fd) l s)

  pub bring_up-Settles :
      (fuel : ℕ) (l : List ℕ) (s : h.State) → Settles (bring_up h o libc res (suc (suc fuel)) l s)
  unfolding bring_up
  bring_up-Settles fuel l s = option-Settles (o.map_fd map_progs_xdp) 1 error_one s _ λ a.
      option-Settles (o.map_fd map_progs_tc) 1 error_one s _ λ b.
        and_then-Settles (each (open_program h o libc res (suc (suc fuel))) progs s) _
          (each-Settles (open_program h o libc res (suc (suc fuel))) (open_program-Settles fuel)
            progs s)
          λ s1.
            and_then-Settles (attach_and_pin h o libc res maps l s1) (attach_hooks h o libc res l)
              (attach_and_pin-Settles maps l s1) (attach_hooks-Settles l)
