-- ===== src/Tests/Loader.antt =====
-- The loader with a kernel that keeps programs and pins as functions.
use bpf_broker.Prelude.{
  ℕ, Bool, ◌≡◌, ◌≢◌, refl, sym, ap, ◌∙◌, arith, true, false, List, [], ◌∷◌, Option, none, some,
}
use mathlib.Core.Logic.{ite, if_pos, if_neg}
use native.Mathlib.Decide.{ℕ_discrete}
use bpf_broker.Proto.Service.Invariant.{Key-discrete}
use bpf_broker.Loader.{
  Start, running, retrying, exited, Libc, Object, resolve_interface, resolve_all, pin_map,
  pin_program, attach_xdp, attach_tc,
}
use bpf_broker.Loader.Tables.{tc_program, map_topic_sub_cnt}
use bpf_broker.Loader.Main.{
  Resources, load, open_program, attach_and_pin, attach_hooks, bring_up, wait_signal, teardown,
  wait_and_quit, main_broker,
}
use bpf_broker.Loader.Kernel.{Host, PinResult, pinned, exists}
use bpf_broker.Loader.Ended.{IsEnd, main_broker-IsEnd}

pub record Programs : Type 0 where
  pub xdp : ℕ → Option ℕ
  pub tc : ℕ → Option ℕ
  pub pins : List ℕ → Option ℕ

abbrev pub at_index : (ℕ → Option ℕ) → ℕ → Option ℕ → ℕ → Option ℕ
at_index f i v j = ite (ℕ_discrete j i) v (f j)

abbrev pub at_name : (List ℕ → Option ℕ) → List ℕ → Option ℕ → List ℕ → Option ℕ
at_name f i v j = ite (Key-discrete j i) v (f j)

pub at_index_self : (f : ℕ → Option ℕ) (i : ℕ) (v : Option ℕ) → at_index f i v i ≡ v
at_index_self f i v = if_pos (ℕ_discrete i i) refl _ _

pub at_index_ne : (f : ℕ → Option ℕ) (i j : ℕ) (v : Option ℕ) → j ≢ i → at_index f i v j ≡ f j
at_index_ne f i j v n = if_neg (ℕ_discrete j i) n _ _

pub at_name_self : (f : List ℕ → Option ℕ) (i : List ℕ) (v : Option ℕ) → at_name f i v i ≡ v
at_name_self f i v = if_pos (Key-discrete i i) refl _ _

pub at_name_ne :
    (f : List ℕ → Option ℕ) (i j : List ℕ) (v : Option ℕ) → j ≢ i → at_name f i v j ≡ f j
at_name_ne f i j v n = if_neg (Key-discrete j i) n _ _

abbrev pub pin_with : Programs → ℕ → List ℕ → Option ℕ → PinResult Programs
pin_with s fd n none = pinned (record s { pins = at_name s.pins n (some fd) })
pin_with s fd n (some old) = exists

abbrev pub unlink_with : Programs → List ℕ → Option ℕ → Option Programs
unlink_with s n none = none
unlink_with s n (some old) = some (record s { pins = at_name s.pins n none })

pub pin_with_inv :
    (s s' : Programs) (fd : ℕ) (n : List ℕ) (o : Option ℕ)
    → pin_with s fd n o ≡ pinned s'
    → s' ≡ record s { pins = at_name s.pins n (some fd) }
pin_with_inv s s' fd n none e = ground arith
pin_with_inv s s' fd n (some old) e = absurd (cc e)

pub unlink_with_inv :
    (s s' : Programs) (n : List ℕ) (o : Option ℕ)
    → unlink_with s n o ≡ some s'
    → s' ≡ record s { pins = at_name s.pins n none }
unlink_with_inv s s' n none e = absurd (cc e)
unlink_with_inv s s' n (some old) e = ground arith

pub pin_with_exists :
    (s : Programs) (fd : ℕ) (n : List ℕ) (o : Option ℕ) → pin_with s fd n o ≡ exists → o ≢ none
pin_with_exists s fd n none e = absurd (cc e)
pin_with_exists s fd n (some old) e = λ q. cc q

abbrev pub function_host : Host
function_host = record {
  State = Programs;
  xdp_at = λ s. s.xdp;
  tc_at = λ s. s.tc;
  pinned_at = λ s. s.pins;
  xdp_attach = λ s i fd. some (record s { xdp = at_index s.xdp i (some fd) });
  xdp_detach = λ s i. some (record s { xdp = at_index s.xdp i none });
  hook_create = λ s i. some s;
  hook_destroy = λ s i. some (record s { tc = at_index s.tc i none });
  tc_attach = λ s i fd. some (record s { tc = at_index s.tc i (some fd) });
  obj_pin = λ s fd n. pin_with s fd n (s.pins n);
  unlink = λ s n. unlink_with s n (s.pins n);
  xdp-attach_self = λ s s' i fd e.
      ap (λ (k : Option Programs). at_state k i) (sym e) ∙ at_index_self s.xdp i (some fd);
  xdp-attach_ne = λ s s' i j fd e n.
      ap (λ (k : Option Programs). at_state k j) (sym e) ∙ at_index_ne s.xdp i j (some fd) n;
  xdp-detach_self =
      λ s s' i e. ap (λ (k : Option Programs). at_state k i) (sym e) ∙ at_index_self s.xdp i none;
  xdp-detach_ne = λ s s' i j e n.
      ap (λ (k : Option Programs). at_state k j) (sym e) ∙ at_index_ne s.xdp i j none n;
  tc-detach = λ s s' i e. ap (λ (k : Option Programs). tc_state k) (sym e);
  tc-destroy_self =
      λ s s' i e. ap (λ (k : Option Programs). tc_state k i) (sym e) ∙ at_index_self s.tc i none;
  pin-pin_self = λ s s' fd n e.
      ap (λ k. k.pins n) (pin_with_inv s s' fd n (s.pins n) e) ∙ at_name_self s.pins n (some fd);
  pin-pin_ne = λ s s' fd n m e q.
      ap (λ k. k.pins m) (pin_with_inv s s' fd n (s.pins n) e) ∙ at_name_ne s.pins n m (some fd) q;
  pin_exists = λ s fd n e. pin_with_exists s fd n (s.pins n) e;
  pin-unlink_self = λ s s' n e.
      ap (λ k. k.pins n) (unlink_with_inv s s' n (s.pins n) e) ∙ at_name_self s.pins n none;
  pin-unlink_ne = λ s s' n m e q.
      ap (λ k. k.pins m) (unlink_with_inv s s' n (s.pins n) e) ∙ at_name_ne s.pins n m none q;
  tc-attach_self = λ s s' i fd e.
      ap (λ (k : Option Programs). tc_state k i) (sym e) ∙ at_index_self s.tc i (some fd);
  tc-attach_ne = λ s s' i j fd e n.
      ap (λ (k : Option Programs). tc_state k j) (sym e) ∙ at_index_ne s.tc i j (some fd) n;
  tc-create_ne = λ s s' i j e n. ap (λ (k : Option Programs). tc_state k j) (sym e);
  tc-destroy_ne = λ s s' i j e n.
      ap (λ (k : Option Programs). tc_state k j) (sym e) ∙ at_index_ne s.tc i j none n;
  xdp-pin = λ s s' fd n e. ap (λ k. k.xdp) (pin_with_inv s s' fd n (s.pins n) e);
  xdp-unlink = λ s s' n e. ap (λ k. k.xdp) (unlink_with_inv s s' n (s.pins n) e);
  xdp-create = λ s s' i e. ap (λ (k : Option Programs). at_state k) (sym e);
  xdp-destroy = λ s s' i e. ap (λ (k : Option Programs). at_state k) (sym e);
  xdp-tc_attach = λ s s' i fd e. ap (λ (k : Option Programs). at_state k) (sym e);
  pin-create = λ s s' i e. ap (λ (k : Option Programs). pin_state k) (sym e);
  pin-destroy = λ s s' i e. ap (λ (k : Option Programs). pin_state k) (sym e);
  pin-tc_attach = λ s s' i fd e. ap (λ (k : Option Programs). pin_state k) (sym e);
}
  where
    at_state : Option Programs → ℕ → Option ℕ
    at_state none = λ i. none
    at_state (some s) = s.xdp

    tc_state : Option Programs → ℕ → Option ℕ
    tc_state none = λ i. none
    tc_state (some s) = s.tc

    pin_state : Option Programs → List ℕ → Option ℕ
    pin_state none = λ n. none
    pin_state (some s) = s.pins

-- "38", for which strtol gives 38 and nothing behind it.
abbrev pub sample_libc : Libc
sample_libc = record { strtol = λ arg. (38, []); if_nametoindex = λ arg. 0 }

abbrev pub sample_object : Object
sample_object = record {
  opened = true;
  has_program = λ name. true;
  loaded = true;
  map_fd = λ name. some 5;
  program_fd = λ name. some 9;
}

abbrev pub plenty : Resources
plenty = record { interfaces = true; rlimit = true; hooks = true; mask = true }

-- An older run has left its pin of topic_sub_cnt and of the tc program.
abbrev pub stale : Programs
stale = record {
  xdp = λ i. none;
  tc = λ i. none;
  pins = at_name (at_name (λ n. none) map_topic_sub_cnt (some 1)) tc_program (some 2);
}

-- Once SIGHUP, which the loop reports as unknown, and SIGTERM have come.
abbrev signals : List (Option ℕ)
signals = some 1 ∷ some 15 ∷ []

abbrev run : Start Programs
run =
    main_broker function_host sample_object sample_libc plenty 2 ((b'3' ∷ b'8' ∷ []) ∷ []) signals
      stale

main_broker-IsEnd_example :
    IsEnd function_host sample_object sample_libc plenty ((b'3' ∷ b'8' ∷ []) ∷ []) run
main_broker-IsEnd_example =
    main_broker-IsEnd function_host sample_object sample_libc plenty 0 ((b'3' ∷ b'8' ∷ []) ∷ [])
      signals stale

abbrev pub is_running : Start Programs → Bool
is_running (running s) = true
is_running (retrying s) = false
is_running (exited code s) = false

abbrev status_of : Start Programs → Option ℕ
status_of (running s) = none
status_of (retrying s) = none
status_of (exited code s) = some code

-- The same run without a signal is at its wait, and with the signals it returns 0.
pub waits :
    is_running (
      main_broker function_host sample_object sample_libc plenty 2
        ((b'3' ∷ b'8' ∷ []) ∷ [])
        []
        stale)
    ≡ true
unfolding main_broker load bring_up wait_and_quit wait_signal open_program attach_and_pin
    attach_hooks attach_xdp attach_tc pin_map pin_program resolve_all resolve_interface teardown
    Key-discrete ℕ_discrete
waits = refl

quits : status_of run ≡ some 0
unfolding main_broker load bring_up wait_and_quit wait_signal open_program attach_and_pin
    attach_hooks attach_xdp attach_tc pin_map pin_program resolve_all resolve_interface teardown
    Key-discrete ℕ_discrete
quits = refl

-- A kernel that refuses to remove a program from an interface.
abbrev refusing_host : Host
refusing_host = record function_host {
  xdp_detach = λ s i. none;
  xdp-detach_self = λ s s' i e. absurd (cc e);
  xdp-detach_ne = λ s s' i j e n. absurd (cc e);
  tc-detach = λ s s' i e. absurd (cc e);
}

abbrev left_at : Start Programs → ℕ → Option ℕ
left_at (running s) i = none
left_at (retrying s) i = none
left_at (exited code s) i = s.xdp i

abbrev refused_run : Start Programs
refused_run =
    main_broker refusing_host sample_object sample_libc plenty 2 ((b'3' ∷ b'8' ∷ []) ∷ []) signals
      stale

-- There the loader returns 0 and its program stays on the interface.
pub quits_attached : (status_of refused_run ≡ some 0) × (left_at refused_run 38 ≡ some 9)
unfolding main_broker load bring_up wait_and_quit wait_signal open_program attach_and_pin
    attach_hooks attach_xdp attach_tc pin_map pin_program resolve_all resolve_interface teardown
    Key-discrete ℕ_discrete
quits_attached = (refl, refl)
