-- ===== src/Loader/EndedArray.antt =====
-- The whole of `main` of bpf_broker_xdp/bpf_broker_user.c, which has one program and no tc.
use bpf_broker.Prelude.{ℕ, ◌≡◌, inl, inr, false, List, [], ◌∷◌, Option, some, Option-cases}
use bpf_broker.Loader.{Start, running, and_then, each, Libc, resolve_all, Object}
use bpf_broker.Loader.Kernel.{Host}
use bpf_broker.Loader.Tables.{xdp_program, array_maps}
use bpf_broker.Loader.Main.{
  Resources, load, open_program, attach_and_pin, teardown_array, main_array,
}
use bpf_broker.Loader.Phases.{and_then_inv}
use bpf_broker.Loader.Settles.{
  Settles, and_then-Settles, option-Settles, error_one, attach_and_pin-Settles,
}
use bpf_broker.Loader.Started.{Serving, attach_and_pin-Serving, load-resolve_all}
use bpf_broker.Loader.Removal.{IsArrayEmptied, teardown_array-IsEmptied}
use bpf_broker.Loader.Ending.{EndsIn, EndsIn-of_known, started-EndsIn}

module _ (h : Host) (o : Object) (libc : Libc) (res : Resources) where
  open_program_unpinned :
      (name : List ℕ) (s : h.State) → Settles (open_program h o libc res 0 (name, false) s)
  unfolding open_program
  open_program_unpinned name s = option-Settles (o.program_fd name) 1 error_one s _ (λ fd. tt)

  -- The loader serves while it runs; where it has returned 0, it had served, and its program has
  -- been removed as far as the calls did not fail.
  abbrev pub IsArrayQuit : List ℕ → h.State → Type 0
  IsArrayQuit l s' =
      (s : h.State) × Serving h o libc res array_maps l s × IsArrayEmptied h o libc res l s s'

  abbrev pub IsArrayEnd : List (List ℕ) → Start h.State → Type 0
  IsArrayEnd args =
      EndsIn
        (λ s. (l : List ℕ) × (resolve_all libc args ≡ some l) × Serving h o libc res array_maps l s)
        (λ s. (l : List ℕ) × (resolve_all libc args ≡ some l) × IsArrayQuit l s)

  abbrev start_array : List ℕ → h.State → Start h.State
  start_array l s =
      and_then (each (open_program h o libc res 0) ((xdp_program, false) ∷ []) s)
        (attach_and_pin h o libc res array_maps l)

  start_array-Settles : (l : List ℕ) (s : h.State) → Settles (start_array l s)
  start_array-Settles l s =
      and_then-Settles (each (open_program h o libc res 0) ((xdp_program, false) ∷ []) s)
        (attach_and_pin h o libc res array_maps l)
        (and_then-Settles (open_program h o libc res 0 (xdp_program, false) s) _
          (open_program_unpinned xdp_program s) (λ k. tt))
        (attach_and_pin-Settles h o libc res array_maps l)

  start_array-Serving :
      (l : List ℕ) (s s' : h.State)
      → start_array l s ≡ running s'
      → Serving h o libc res array_maps l s'
  start_array-Serving l s s' e =
      let (s1, opening, serving) =
        and_then_inv (each (open_program h o libc res 0) ((xdp_program, false) ∷ []) s)
          (attach_and_pin h o libc res array_maps l) s' e in
      attach_and_pin-Serving h o libc res array_maps l s1 s' serving

  -- For all arguments, object files, signals and states of a kernel that meets the interface: while
  -- the loader of bpf_broker_xdp waits, every argument is resolved to an interface, its program is
  -- on each of them, and each map of its table is pinned by its own descriptor. Where it has
  -- returned 0, all this held in some state, and successful removals have led from there to the
  -- end. On each of the interfaces no XDP program is left then, or a call that removes it has
  -- failed in a state reached from there by removals, and what is left is what was there. Any other
  -- return is an error.
  pub main_array-IsArrayEnd :
      (args : List (List ℕ)) (signals : List (Option ℕ)) (s : h.State)
      → IsArrayEnd args (main_array h o libc res args signals s)
  unfolding main_array
  main_array-IsArrayEnd args signals s =
      elim (Option-cases (load h o libc res args (xdp_program ∷ []))) [
        | inl e ↦ rw (main_array, e) tt
        | inr (l, e) ↦
            let known = load-resolve_all h o libc res args (xdp_program ∷ []) l e in
            rw (main_array, e)
              (EndsIn-of_known (Serving h o libc res array_maps) IsArrayQuit
                (λ k. resolve_all libc args ≡ some k) l _ known
                (started-EndsIn h o libc res (Serving h o libc res array_maps l) (IsArrayQuit l)
                  (teardown_array h o libc res l)
                  (λ s serving. (s, serving, teardown_array-IsEmptied h o libc res l s)) signals
                  (start_array l s) (start_array-Settles l s) (start_array-Serving l s)))
      ]
