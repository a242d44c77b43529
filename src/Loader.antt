-- ===== src/Loader.antt =====
-- bpf_broker/bpf_broker_user.c: the program that loads the two BPF programs, attaches them to the
-- interfaces of its arguments and pins the maps that the service opens.
-- bpf_broker_xdp/bpf_broker_user.c is the same but for its tables and for tc.
pub mod Kernel
pub mod Tables
pub mod Main
pub mod Phases
pub mod Settles
pub mod Started
pub mod Ending
pub mod Removal
pub mod Ended
pub mod EndedArray
use bpf_broker.Prelude.{
  ℕ, zero, suc, ◌%◌, ◌-◌, ◌^◌, Bool, true, false, not, ltb, ◌&&◌, ◌==◌, if◌then◌else◌, List, [],
  ◌∷◌, map, Option, none, some,
}
use bpf_broker.Frame.{u32}
use bpf_broker.Loader.Kernel.{Host, PinResult, pinned, exists, refused}

-- `running` is the program that still runs, at the end of a phase or in its wait for a signal, `exited` a return of `main` or a call of
-- `exit` with its status, and `retrying` a pin that is tried again beyond the fuel.
pub data Start (S : Type 0) : Type 0 where
  running retrying : S → Start S
  exited : ℕ → S → Start S

-- -1 on 32 bits
abbrev pub minus_one : ℕ
minus_one = 2 ^ 32 - 1

abbrev pub and_then : {S : Type 0} → Start S → (S → Start S) → Start S
and_then (running s) next = next s
and_then (retrying s) next = retrying s
and_then (exited code s) next = exited code s

-- A removal with the return ignored.
abbrev pub detached : {S : Type 0} → S → Option S → S
detached s none = s
detached s (some s') = s'

-- A loop whose body returns from `main` on an error.
abbrev pub each : {A S : Type 0} → (A → S → Start S) → List A → S → Start S
each step [] s = running s
each step (x ∷ xs) s = and_then (step x s) (each step xs)

-- The calls of libc for an argument. `strtol` gives the number in two's complement on 64 bits and
-- what stands behind its digits; `if_nametoindex` gives 0 for a name that is unknown.
pub record Libc : Type 0 where
  pub strtol : List ℕ → ℕ × List ℕ
  pub if_nametoindex : List ℕ → ℕ

-- `idx > 0` for an int
abbrev pub is_positive : ℕ → Bool
is_positive idx = ltb 0 idx && ltb idx (2 ^ 31)

unfoldable pub resolve_interface : Libc → List ℕ → ℕ
resolve_interface libc arg =
    let (value, rest) = libc.strtol arg in
    let idx = u32 value in
    let by_name = libc.if_nametoindex arg in
    let named = if by_name == 0 then minus_one else by_name in
    elim rest [ [] ↦ if is_positive idx then idx else named | c ∷ rest ↦ named ]

-- The loop over the arguments: `none` is the exit at one that has no interface.
unfoldable pub resolve_all : Libc → List (List ℕ) → Option (List ℕ)
unfolding resolve_interface
resolve_all libc [] = some []
resolve_all libc (arg ∷ args) =
    let idx = resolve_interface libc arg in
    let rest = resolve_all libc args in
    if not (is_positive idx)
    then none
    else elim rest [ none ↦ none | some interfaces_idx ↦ some (idx ∷ interfaces_idx) ]

-- What libbpf answers for the object file: whether it opens, has the program of a name and loads,
-- the descriptor of a map by its name and of a program by its place in `progs`.
pub record Object : Type 0 where
  pub opened : Bool
  pub has_program : List ℕ → Bool
  pub loaded : Bool
  pub map_fd : List ℕ → Option ℕ
  pub program_fd : List ℕ → Option ℕ

module _ (h : Host) (o : Object) where
  unfoldable pub pin_map : List ℕ → h.State → Start h.State
  pin_map map_name s = elim (o.map_fd map_name) [
    | none ↦ exited minus_one s
    | some map_fd ↦ elim (h.obj_pin s map_fd map_name) [
      | pinned s1 ↦ running s1
      | refused ↦ exited minus_one s
      | exists ↦ elim (h.unlink s map_name) [
        | none ↦ exited minus_one s
        | some s1 ↦ elim (h.obj_pin s1 map_fd map_name) [
          | pinned s2 ↦ running s2
          | refused ↦ exited minus_one s1
          | exists ↦ exited minus_one s1
        ]
      ]
    ]
  ]

  -- From the label `retry` on.
  unfoldable pub pin_program : ℕ → ℕ → List ℕ → h.State → Start h.State
  pin_program zero prog_fd name s = retrying s
  pin_program (suc fuel) prog_fd name s = elim (h.obj_pin s prog_fd name) [
    | pinned s1 ↦ running s1
    | refused ↦ exited minus_one s
    | exists ↦ elim (h.unlink s name) [
      | none ↦ exited minus_one s
      | some s1 ↦ pin_program fuel prog_fd name s1
    ]
  ]

  unfoldable pub attach_xdp : ℕ → ℕ → h.State → Start h.State
  attach_xdp prog_fd idx s = elim (h.xdp_attach s idx prog_fd) [
    | none ↦ exited 1 s
    | some s1 ↦ running s1
  ]

  -- What the removal of a stale qdisc returns is not looked at.
  unfoldable pub attach_tc : ℕ → ℕ → h.State → Start h.State
  attach_tc prog_fd idx s =
      let s1 = detached s (h.hook_destroy s idx) in
      elim (h.hook_create s1 idx) [
        | none ↦ exited 1 s1
        | some s2 ↦ elim (h.tc_attach s2 idx prog_fd) [ none ↦ exited 1 s2 | some s3 ↦ running s3 ]
      ]
