-- ===== src/Loader/Ended.antt =====
-- The whole of the loader's `main`: what holds while it waits, and after it has returned 0.
use bpf_broker.Prelude.{ℕ, suc, ◌≡◌, inl, inr, map, List, Option, some, Option-cases}
use bpf_broker.Loader.{Start, Libc, resolve_all, Object}
use bpf_broker.Loader.Kernel.{Host}
use bpf_broker.Loader.Tables.{progs}
use bpf_broker.Loader.Main.{Resources, load, bring_up, teardown, main_broker}
use bpf_broker.Loader.Settles.{bring_up-Settles}
use bpf_broker.Loader.Removal.{IsEmptied, teardown-IsEmptied}
use bpf_broker.Loader.Ending.{EndsIn, EndsIn-of_known, started-EndsIn}
use bpf_broker.Loader.Started.{IsServing, bring_up-IsServing, load-resolve_all}

module _ (h : Host) (o : Object) (libc : Libc) (res : Resources) where
  -- The loader serves while it runs; where it has returned 0, it had served, and its programs have
  -- been removed as far as the calls did not fail.
  abbrev pub IsQuit : List ℕ → h.State → Type 0
  IsQuit l s' = (s : h.State) × IsServing h o libc res l s × IsEmptied h o libc res l s s'

  abbrev pub IsEnd : List (List ℕ) → Start h.State → Type 0
  IsEnd args =
      EndsIn (λ s. (l : List ℕ) × (resolve_all libc args ≡ some l) × IsServing h o libc res l s)
        (λ s. (l : List ℕ) × (resolve_all libc args ≡ some l) × IsQuit l s)

  -- For all arguments, object files, signals and states of a kernel that meets the interface, and
  -- fuel of at least 2 for the label `retry`: the loader is not trying again. While it waits, every
  -- argument is resolved to an interface, its XDP program is on each of them and its tc program
  -- behind tc ingress of each, and each map of its table is pinned by its own descriptor. Where it
  -- has returned 0, all this held in some state, and successful removals have led from there to the
  -- end. On each of the interfaces, at XDP and at tc ingress, no program is left then, or a call
  -- that removes it has failed in a state reached from there by removals and what is left is what
  -- was there. Any other return is an error.
  pub main_broker-IsEnd :
      (fuel : ℕ) (args : List (List ℕ)) (signals : List (Option ℕ)) (s : h.State)
      → IsEnd args (main_broker h o libc res (suc (suc fuel)) args signals s)
  unfolding main_broker
  main_broker-IsEnd fuel args signals s =
      elim (Option-cases (load h o libc res args (map (λ e. e.0) progs))) [
        | inl e ↦ rw (main_broker, e) tt
        | inr (l, e) ↦
            let known = load-resolve_all h o libc res args (map (λ e. e.0) progs) l e in
            rw (main_broker, e)
              (EndsIn-of_known (IsServing h o libc res) IsQuit (λ k. resolve_all libc args ≡ some k)
                l _ known
                (started-EndsIn h o libc res (IsServing h o libc res l) (IsQuit l)
                  (teardown h o libc res l)
                  (λ s serving. (s, serving, teardown-IsEmptied h o libc res l s)) signals
                  (bring_up h o libc res (suc (suc fuel)) l s)
                  (bring_up-Settles h o libc res fuel l s)
                  (bring_up-IsServing h o libc res (suc (suc fuel)) l s)))
      ]
