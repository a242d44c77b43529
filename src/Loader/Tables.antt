-- ===== src/Loader/Tables.antt =====
-- The constant tables of the two loaders.
use bpf_broker.Prelude.{ℕ, Bool, true, false, List, [], ◌∷◌, ◌++◌}

-- The tables of bpf_broker_user.c: the programs, each with its flag `pin` (the index into a map of
-- programs is -1 for both, so none is put there), and the maps.
abbrev pub xdp_program : List ℕ
xdp_program = b'x' ∷ b'd' ∷ b'p' ∷ b'_' ∷ b'b' ∷ b'r' ∷ b'o' ∷ b'k' ∷ b'e' ∷ b'r' ∷ []

abbrev pub tc_program : List ℕ
tc_program =
    b't' ∷ b'c' ∷ b'_' ∷ b'i' ∷ b'n' ∷ b'g' ∷ b'r' ∷ b'e' ∷ b's' ∷ b's' ∷ b'_' ∷ b'b' ∷ b'r' ∷ b'o'
    ∷ b'k' ∷ b'e' ∷ b'r' ∷ []

abbrev pub progs : List (List ℕ × Bool)
progs = (xdp_program, false) ∷ (tc_program, true) ∷ []

abbrev pub map_topic_sub_cnt : List ℕ
map_topic_sub_cnt =
    b't' ∷ b'o' ∷ b'p' ∷ b'i' ∷ b'c' ∷ b'_' ∷ b's' ∷ b'u' ∷ b'b' ∷ b'_' ∷ b'c' ∷ b'n' ∷ b't' ∷ []

abbrev pub map_pub_counter_2 : List ℕ
map_pub_counter_2 =
    b'p' ∷ b'u' ∷ b'b' ∷ b'_' ∷ b'c' ∷ b'o' ∷ b'u' ∷ b'n' ∷ b't' ∷ b'e' ∷ b'r' ∷ b'_' ∷ b'2' ∷ []

abbrev pub map_topic_subscribe : List ℕ
map_topic_subscribe =
    b't' ∷ b'o' ∷ b'p' ∷ b'i' ∷ b'c' ∷ b'_' ∷ b's' ∷ b'u' ∷ b'b' ∷ b's' ∷ b'c' ∷ b'r' ∷ b'i' ∷ b'b'
    ∷ b'e' ∷ []

abbrev pub map_topic_first_sub : List ℕ
map_topic_first_sub =
    b't' ∷ b'o' ∷ b'p' ∷ b'i' ∷ b'c' ∷ b'_' ∷ b'f' ∷ b'i' ∷ b'r' ∷ b's' ∷ b't' ∷ b'_' ∷ b's' ∷ b'u'
    ∷ b'b' ∷ []

abbrev pub maps : List (List ℕ)
maps = map_topic_subscribe ∷ map_topic_sub_cnt ∷ map_topic_first_sub ∷ map_pub_counter_2 ∷ []

-- "map_progs_xdp" and "map_progs_tc"
abbrev pub map_progs_xdp : List ℕ
map_progs_xdp =
    b'm' ∷ b'a' ∷ b'p' ∷ b'_' ∷ b'p' ∷ b'r' ∷ b'o' ∷ b'g' ∷ b's' ∷ b'_' ∷ b'x' ∷ b'd' ∷ b'p' ∷ []

abbrev pub map_progs_tc : List ℕ
map_progs_tc =
    b'm' ∷ b'a' ∷ b'p' ∷ b'_' ∷ b'p' ∷ b'r' ∷ b'o' ∷ b'g' ∷ b's' ∷ b'_' ∷ b't' ∷ b'c' ∷ []

-- Those of bpf_broker_xdp/bpf_broker_user.c
abbrev pub map_topic_sub_array : List ℕ
map_topic_sub_array =
    b't' ∷ b'o' ∷ b'p' ∷ b'i' ∷ b'c' ∷ b'_' ∷ b's' ∷ b'u' ∷ b'b' ∷ b'_' ∷ b'a' ∷ b'r' ∷ b'r' ∷ b'a'
    ∷ b'y' ∷ []

abbrev pub array_maps : List (List ℕ)
array_maps = map_topic_sub_array ∷ map_topic_sub_cnt ∷ map_pub_counter_2 ∷ []

-- BPF_SYSFS_ROOT, and the path of a pin, "%s/%s" with this root and a name.
abbrev pub sysfs_root : List ℕ
sysfs_root = b'/' ∷ b's' ∷ b'y' ∷ b's' ∷ b'/' ∷ b'f' ∷ b's' ∷ b'/' ∷ b'b' ∷ b'p' ∷ b'f' ∷ []

abbrev pub pin_path : List ℕ → List ℕ
pin_path name = sysfs_root ++ b'/' ∷ name
