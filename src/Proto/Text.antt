-- ===== src/Proto/Text.antt =====
-- The C strings of bpf_broker_proto.c. A buffer is the list of its characters; `none` is a read
-- past its end.
use bpf_broker.Prelude.{
  ℕ, zero, suc, ◌+◌, ◌-◌, ◌*◌, ◌/◌, ◌%◌, ◌^◌, Bool, true, false, ◌||◌, ◌==◌, if◌then◌else◌, List,
  [], ◌∷◌, ◌++◌, Option, none, some, take, replicate,
}
use bpf_broker.Frame.{swap16}
use bpf_broker.Parse.{Key}

unfoldable pub strlen : List ℕ → Option ℕ
strlen [] = none
strlen (c ∷ s) = if c == 0 then some 0 else elim (strlen s) [ none ↦ none | some n ↦ some (suc n) ]

-- `strnlen(s, n)`
unfoldable pub strnlen : List ℕ → ℕ → ℕ
strnlen s zero = 0
strnlen [] (suc n) = 0
strnlen (c ∷ s) (suc n) = if c == 0 then 0 else suc (strnlen s n)

-- `strncmp(s, prefix, strlen(prefix)) == 0`
unfoldable pub strncmp : List ℕ → List ℕ → Bool
strncmp s [] = true
strncmp [] (c ∷ prefix) = false
strncmp (b ∷ s) (c ∷ prefix) = if b == c then strncmp s prefix else false

-- `len` characters copied into a zeroed array of 20.
unfoldable pub padded : ℕ → List ℕ → Key
padded len s = take len s ++ replicate (20 - len) 0

-- The loop that puts a NUL in place of the first newline or carriage return.
unfoldable pub trim : List ℕ → List ℕ
trim [] = []
trim (c ∷ s) = if c == 10 || c == 13 then 0 ∷ s else c ∷ trim s

-- The array `topic_key` of the handlers, from the text behind the command.
unfoldable pub read_topic : List ℕ → Key
unfolding padded strnlen trim
read_topic topic_raw = trim (padded (strnlen topic_raw 20) topic_raw)

-- What `%s` prints of an array: the characters before the NUL.
unfoldable pub printed : List ℕ → Option (List ℕ)
printed s = elim (strlen s) [ none ↦ none | some n ↦ some (take n s) ]

-- `htonl` and `ntohl` on a little-endian host.
unfoldable pub swap32 : ℕ → ℕ
swap32 v = swap16 (v % 65536) * 65536 + swap16 (v / 65536)

-- `((__u64)htonl(ip) << 32) | ((__u64)htons(port) << 16)`: the fields do not overlap.
unfoldable pub pack : ℕ → ℕ → ℕ
pack ip port = swap32 ip * 2 ^ 32 + swap16 (port % 65536) * 2 ^ 16
