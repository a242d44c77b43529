-- ===== src/Loader/Main.antt =====
-- `main` of the two loaders: the phases, the wait for a signal and the removal of the programs.
use bpf_broker.Prelude.{
  ℕ, Bool, true, false, not, ◌&&◌, ◌||◌, ◌==◌, if◌then◌else◌, List, [], ◌∷◌, map, Option, none,
  some,
}
use bpf_broker.Loader.{
  Start, running, exited, detached, and_then, each, Libc, resolve_all, Object, pin_map, pin_program,
  attach_xdp, attach_tc,
}
use bpf_broker.Loader.Kernel.{Host}
use bpf_broker.Loader.Tables.{
  xdp_program, tc_program, progs, maps, array_maps, map_progs_xdp, map_progs_tc,
}

-- SIGINT, SIGTERM and SIGUSR1
abbrev pub is_quit : ℕ → Bool
is_quit sig = sig == 2 || (sig == 15 || sig == 10)

-- The loop around `sigwait`, by what that gives: `none` is an error, and the result `none` says that
-- the loop is still waiting.
unfoldable pub wait_signal : List (Option ℕ) → Option Bool
wait_signal [] = none
wait_signal (none ∷ signals) = some false
wait_signal (some sig ∷ signals) =
    let rest = wait_signal signals in if is_quit sig then some true else rest

-- Whether the two allocations, setrlimit and sigprocmask succeed.
pub record Resources : Type 0 where
  pub interfaces : Bool
  pub rlimit : Bool
  pub hooks : Bool
  pub mask : Bool

module _ (h : Host) (o : Object) (libc : Libc) (res : Resources) where
  abbrev pub all_programs : List (List ℕ) → Bool
  all_programs [] = true
  all_programs (name ∷ names) = o.has_program name && all_programs names

  -- The arguments, and the object file with its programs: `none` is an end with status 1.
  unfoldable pub load : List (List ℕ) → List (List ℕ) → Option (List ℕ)
  load [] names = none
  load (arg ∷ args) names =
      if not res.interfaces then none else elim (resolve_all libc (arg ∷ args)) [
        | none ↦ none
        | some interfaces_idx ↦
            if not res.rlimit
            then none
            else if not o.opened
            then none
            else if not (all_programs names)
            then none
            else if not o.loaded
            then none
            else some interfaces_idx
      ]

  -- A round of the loop over `progs`.
  unfoldable pub open_program : ℕ → List ℕ × Bool → h.State → Start h.State
  unfolding pin_program
  open_program fuel (name, pin) s = elim (o.program_fd name) [
    | none ↦ exited 1 s
    | some prog_fd ↦ if pin then pin_program h o fuel prog_fd name s else running s
  ]

  -- The program on the interfaces, and the pins.
  unfoldable pub attach_and_pin : List (List ℕ) → List ℕ → h.State → Start h.State
  attach_and_pin names interfaces_idx s = elim (o.program_fd xdp_program) [
    | none ↦ exited 1 s
    | some xdp_main_prog_fd ↦
        and_then (each (attach_xdp h o xdp_main_prog_fd) interfaces_idx s)
          (each (pin_map h o) names)
  ]

  unfoldable pub attach_hooks : List ℕ → h.State → Start h.State
  attach_hooks interfaces_idx s =
      if not res.hooks then exited 1 s else elim (o.program_fd tc_program) [
        | none ↦ exited 1 s
        | some tc_prog_fd ↦ each (attach_tc h o tc_prog_fd) interfaces_idx s
      ]

  -- From the lookup of "map_progs_xdp" to the last hook.
  unfoldable pub bring_up : ℕ → List ℕ → h.State → Start h.State
  unfolding open_program attach_and_pin attach_hooks
  bring_up fuel interfaces_idx s = elim (o.map_fd map_progs_xdp) [
    | none ↦ exited 1 s
    | some map_progs_xdp_fd ↦ elim (o.map_fd map_progs_tc) [
      | none ↦ exited 1 s
      | some map_progs_tc_fd ↦
          and_then (each (open_program fuel) progs s)
            λ s1. and_then (attach_and_pin maps interfaces_idx s1) (attach_hooks interfaces_idx)
    ]
  ]

  -- The last loop. What the two calls return is not looked at.
  unfoldable pub teardown : List ℕ → h.State → h.State
  teardown [] s = s
  teardown (idx ∷ interfaces_idx) s =
      let s1 = detached s (h.hook_destroy s idx) in
      teardown interfaces_idx (detached s1 (h.xdp_detach s1 idx))

  -- From sigprocmask on, with the loop at the end as an argument.
  unfoldable pub wait_and_quit : (h.State → h.State) → List (Option ℕ) → h.State → Start h.State
  unfolding wait_signal
  wait_and_quit remove signals s = if not res.mask then exited 1 s else elim (wait_signal signals) [
    | none ↦ running s
    | some quit ↦ if quit then exited 0 (remove s) else exited 1 s
  ]

  -- `main` of bpf_broker_user.c
  unfoldable pub main_broker : ℕ → List (List ℕ) → List (Option ℕ) → h.State → Start h.State
  unfolding load bring_up teardown wait_and_quit
  main_broker fuel args signals s = elim (load args (map (λ e. e.0) progs)) [
    | none ↦ exited 1 s
    | some interfaces_idx ↦
        and_then (bring_up fuel interfaces_idx s) (wait_and_quit (teardown interfaces_idx) signals)
  ]

  -- The last loop of bpf_broker_xdp/bpf_broker_user.c
  unfoldable pub teardown_array : List ℕ → h.State → h.State
  teardown_array [] s = s
  teardown_array (idx ∷ interfaces_idx) s =
      teardown_array interfaces_idx (detached s (h.xdp_detach s idx))

  -- `main` of bpf_broker_xdp/bpf_broker_user.c
  unfoldable pub main_array : List (List ℕ) → List (Option ℕ) → h.State → Start h.State
  unfolding load open_program attach_and_pin teardown_array wait_and_quit
  main_array args signals s = elim (load args (xdp_program ∷ [])) [
    | none ↦ exited 1 s
    | some interfaces_idx ↦
        and_then
          (and_then (each (open_program 0) ((xdp_program, false) ∷ []) s)
            (attach_and_pin array_maps interfaces_idx))
          (wait_and_quit (teardown_array interfaces_idx) signals)
  ]
