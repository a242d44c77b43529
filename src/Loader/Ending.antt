-- ===== src/Loader/Ending.antt =====
-- The ends of a loader: what holds where it waits, and where it has returned 0.
use bpf_broker.Prelude.{
  ℕ, zero, suc, ◌≡◌, refl, arith, true, false, List, Option, none, some, Bool, not, if◌then◌else◌,
}
use bpf_broker.Loader.{Start, running, retrying, exited, and_then, Libc, Object}
use bpf_broker.Loader.Kernel.{Host}
use bpf_broker.Loader.Main.{Resources, wait_signal, wait_and_quit}
use bpf_broker.Loader.Settles.{Settles}

module _ {S : Type 0} (On Off : S → Type 0) where
  -- It is not trying again, and any other return is an error.
  abbrev pub EndsIn : Start S → Type 0
  EndsIn (running s) = On s
  EndsIn (retrying s) = ⊥
  EndsIn (exited zero s) = Off s
  EndsIn (exited (suc code) s) = Unit

-- The ends for the list that the arguments come to.
pub EndsIn-of_known :
    {S : Type 0} (On Off : List ℕ → S → Type 0) (Known : List ℕ → Type 0) (l : List ℕ) (r : Start S)
    → Known l
    → EndsIn (On l) (Off l) r
    → EndsIn (λ s. (k : List ℕ) × Known k × On k s) (λ s. (k : List ℕ) × Known k × Off k s) r
EndsIn-of_known On Off Known l (running s) e a = (l, e, a)
EndsIn-of_known On Off Known l (retrying s) e a = a
EndsIn-of_known On Off Known l (exited zero s) e a = (l, e, a)
EndsIn-of_known On Off Known l (exited (suc code) s) e a = tt

module _ (h : Host) (o : Object) (libc : Libc) (res : Resources) (On Off : h.State → Type 0)
    (remove : h.State → h.State) (removes : (s : h.State) → On s → Off (remove s)) where
  quit_cases :
      (s : h.State)
      → On s
      → (mask : Bool) (quit : Option Bool)
      → EndsIn On Off (
          if not mask then exited 1 s else elim quit [
            | none ↦ running s
            | some q ↦ if q then exited 0 (remove s) else exited 1 s
          ])
  quit_cases s on false quit = tt
  quit_cases s on true none = on
  quit_cases s on true (some true) = removes s on
  quit_cases s on true (some false) = tt

  wait_and_quit-EndsIn :
      (signals : List (Option ℕ)) (s : h.State)
      → On s
      → EndsIn On Off (wait_and_quit h o libc res remove signals s)
  unfolding wait_and_quit
  wait_and_quit-EndsIn signals s on = quit_cases s on res.mask (wait_signal signals)

  -- A start that settles, and the wait after it.
  pub started-EndsIn :
      (signals : List (Option ℕ)) (r : Start h.State)
      → Settles r
      → ((s : h.State) → r ≡ running s → On s)
      → EndsIn On Off (and_then r (wait_and_quit h o libc res remove signals))
  started-EndsIn signals (running s) settled serves = wait_and_quit-EndsIn signals s (serves s refl)
  started-EndsIn signals (retrying s) settled serves = settled
  started-EndsIn signals (exited zero s) settled serves = absurd (omega arith)
  started-EndsIn signals (exited (suc code) s) settled serves = tt
