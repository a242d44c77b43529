-- ===== src/Loader/Kernel.antt =====
-- What the loader asks of the kernel through libbpf: programs on interfaces, and pins under
-- /sys/fs/bpf. It is an interface, with the documented behaviour that the loader relies on.
use bpf_broker.Prelude.{ℕ, ◌≡◌, ◌≢◌, ◌⊎◌, inl, inr, refl, Option, none, some, List}
use bpf_broker.Loader.Tables.{pin_path}

-- `bpf_obj_pin` and `bpf_program__pin`: `exists` is the error EEXIST, `refused` any other.
pub data PinResult (S : Type 0) : Type 0 where
  pinned : S → PinResult S
  exists refused : PinResult S

pub record Host : Type 1 where
  pub State : Type 0
  -- The program on an interface, the one behind it at tc ingress, and what a name is a pin of.
  pub xdp_at : State → ℕ → Option ℕ
  pub tc_at : State → ℕ → Option ℕ
  pub pinned_at : State → List ℕ → Option ℕ
  -- `none` is an error, which changes nothing.
  pub xdp_attach : State → ℕ → ℕ → Option State
  -- `bpf_xdp_attach` with -1.
  pub xdp_detach : State → ℕ → Option State
  pub hook_create : State → ℕ → Option State
  pub hook_destroy : State → ℕ → Option State
  pub tc_attach : State → ℕ → ℕ → Option State
  pub obj_pin : State → ℕ → List ℕ → PinResult State
  pub unlink : State → List ℕ → Option State
  pub xdp-attach_self :
      (s s' : State) (i fd : ℕ) → xdp_attach s i fd ≡ some s' → xdp_at s' i ≡ some fd
  pub xdp-attach_ne :
      (s s' : State) (i j fd : ℕ) → xdp_attach s i fd ≡ some s' → j ≢ i → xdp_at s' j ≡ xdp_at s j
  -- A removal that succeeds leaves nothing. It may fail.
  pub xdp-detach_self : (s s' : State) (i : ℕ) → xdp_detach s i ≡ some s' → xdp_at s' i ≡ none
  pub xdp-detach_ne :
      (s s' : State) (i j : ℕ) → xdp_detach s i ≡ some s' → j ≢ i → xdp_at s' j ≡ xdp_at s j
  pub tc-detach : (s s' : State) (i : ℕ) → xdp_detach s i ≡ some s' → tc_at s' ≡ tc_at s
  pub tc-destroy_self : (s s' : State) (i : ℕ) → hook_destroy s i ≡ some s' → tc_at s' i ≡ none
  -- A pin is of what was pinned, and no call on one name changes another.
  pub pin-pin_self :
      (s s' : State) (fd : ℕ) (n : List ℕ) → obj_pin s fd n ≡ pinned s' → pinned_at s' n ≡ some fd
  pub pin-pin_ne :
      (s s' : State) (fd : ℕ) (n m : List ℕ)
      → obj_pin s fd n ≡ pinned s'
      → m ≢ n
      → pinned_at s' m ≡ pinned_at s m
  pub pin_exists :
      (s : State) (fd : ℕ) (n : List ℕ) → obj_pin s fd n ≡ exists → pinned_at s n ≢ none
  pub pin-unlink_self : (s s' : State) (n : List ℕ) → unlink s n ≡ some s' → pinned_at s' n ≡ none
  pub pin-unlink_ne :
      (s s' : State) (n m : List ℕ) → unlink s n ≡ some s' → m ≢ n → pinned_at s' m ≡ pinned_at s m
  pub tc-attach_self : (s s' : State) (i fd : ℕ) → tc_attach s i fd ≡ some s' → tc_at s' i ≡ some fd
  pub tc-attach_ne :
      (s s' : State) (i j fd : ℕ) → tc_attach s i fd ≡ some s' → j ≢ i → tc_at s' j ≡ tc_at s j
  pub tc-create_ne :
      (s s' : State) (i j : ℕ) → hook_create s i ≡ some s' → j ≢ i → tc_at s' j ≡ tc_at s j
  pub tc-destroy_ne :
      (s s' : State) (i j : ℕ) → hook_destroy s i ≡ some s' → j ≢ i → tc_at s' j ≡ tc_at s j
  -- Pins and tc leave the programs on the interfaces alone, and tc the pins.
  pub xdp-pin :
      (s s' : State) (fd : ℕ) (n : List ℕ) → obj_pin s fd n ≡ pinned s' → xdp_at s' ≡ xdp_at s
  pub xdp-unlink : (s s' : State) (n : List ℕ) → unlink s n ≡ some s' → xdp_at s' ≡ xdp_at s
  pub xdp-create : (s s' : State) (i : ℕ) → hook_create s i ≡ some s' → xdp_at s' ≡ xdp_at s
  pub xdp-destroy : (s s' : State) (i : ℕ) → hook_destroy s i ≡ some s' → xdp_at s' ≡ xdp_at s
  pub xdp-tc_attach : (s s' : State) (i fd : ℕ) → tc_attach s i fd ≡ some s' → xdp_at s' ≡ xdp_at s
  pub pin-create : (s s' : State) (i : ℕ) → hook_create s i ≡ some s' → pinned_at s' ≡ pinned_at s
  pub pin-destroy : (s s' : State) (i : ℕ) → hook_destroy s i ≡ some s' → pinned_at s' ≡ pinned_at s
  pub pin-tc_attach :
      (s s' : State) (i fd : ℕ) → tc_attach s i fd ≡ some s' → pinned_at s' ≡ pinned_at s

pub PinResult-cases :
    {S : Type 0} (r : PinResult S) → ((s : S) × (r ≡ pinned s)) ⊎ (r ≡ exists) ⊎ (r ≡ refused)
PinResult-cases (pinned s) = inl (s, refl)
PinResult-cases exists = inr (inl refl)
PinResult-cases refused = inr (inr refl)

-- `bpf_obj_get` of a path, and what a descriptor that it gives is of, by the descriptor under which
-- that was pinned.
pub record ObjGet (h : Host) : Type 0 where
  pub obj_get : h.State → List ℕ → Option ℕ
  pub object : ℕ → ℕ
  pub get :
      (s : h.State) (name : List ℕ) (fd d : ℕ)
      → h.pinned_at s name ≡ some fd
      → obj_get s (pin_path name) ≡ some d
      → object d ≡ fd
