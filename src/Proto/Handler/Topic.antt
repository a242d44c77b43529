-- ===== src/Proto/Handler/Topic.antt =====
-- read_topic and the string functions: the key that a command's text gives.
use bpf_broker.Prelude.{
  ℕ, suc, ◌+◌, ◌-◌, ◌==◌, ◌||◌, ◌<◌, ◌≡◌, refl, sym, ap, ◌∙◌, inl, inr, true, false, Bool,
  Bool-cases, arith, length, take, replicate, All, List, [], ◌∷◌, ◌++◌, none, some,
}
use native.Mathlib.Nat.{zero-add, suc-add}
use bpf_broker.Parse.Topic.{key_of}
use bpf_broker.Proto.Text.{strlen, strnlen, padded, trim, read_topic}

-- What ends a line of a command: NUL, newline or carriage return.
abbrev pub ends_line : ℕ → Bool
ends_line c = c == 0 || (c == 10 || c == 13)

-- No character of the text ends a line.
abbrev pub IsLine : List ℕ → Type 0
IsLine t = All (λ c. ends_line c ≡ false) t

-- An array of `k` characters that read_topic fills.
abbrev pub cell : ℕ → List ℕ → List ℕ
cell k raw = trim (take (strnlen raw k) raw ++ replicate (k - strnlen raw k) 0)

cell-cons : (k c : ℕ) (raw : List ℕ) → ends_line c ≡ false → cell (suc k) (c ∷ raw) ≡ c ∷ cell k raw
unfolding trim strnlen
cell-cons k c raw plain = ground arith

-- A character that ends the line becomes a NUL.
cell-end :
    (k c : ℕ) (raw : List ℕ)
    → ends_line c ≡ true
    → (rest : List ℕ) × (cell (suc k) (c ∷ raw) ≡ 0 ∷ rest)
unfolding trim strnlen
cell-end k c raw delim = elim (Bool-cases (c == 0)) [
  | inl e ↦ (trim (replicate k 0), ground arith)
  | inr n ↦ (take (strnlen raw k) raw ++ replicate (k - strnlen raw k) 0, ground arith)
]

cell-line :
    (t raw : List ℕ) (n d : ℕ)
    → IsLine t
    → ends_line d ≡ true
    → (rest : List ℕ) × (cell (length t + suc n) (t ++ d ∷ raw) ≡ t ++ 0 ∷ rest)
cell-line [] raw n d line delim = rw (zero-add) (cell-end n d raw delim)
cell-line (c ∷ t) raw n d line delim =
    let (rest, e) = cell-line t raw n d line.1 delim in
    (rest, rw (suc-add) (cell-cons (length t + suc n) c (t ++ d ∷ raw) line.0 ∙ ap (λ l. c ∷ l) e))

cell-full : (t raw : List ℕ) → IsLine t → cell (length t) (t ++ raw) ≡ t
unfolding trim strnlen
cell-full [] raw line = refl
cell-full (c ∷ t) raw line =
    cell-cons (length t) c (t ++ raw) line.0 ∙ ap (λ l. c ∷ l) (cell-full t raw line.1)

strlen-line : (t rest : List ℕ) → IsLine t → strlen (t ++ 0 ∷ rest) ≡ some (length t)
unfolding strlen
strlen-line [] rest line = refl
strlen-line (c ∷ t) rest line = ground (arith, strlen-line t rest line.1)

strlen-full : (t : List ℕ) → IsLine t → strlen t ≡ none
unfolding strlen
strlen-full [] line = refl
strlen-full (c ∷ t) line = ground (arith, strlen-full t line.1)

take-append : (t l : List ℕ) → take (length t) (t ++ l) ≡ t
take-append [] l = refl
take-append (c ∷ t) l = ap (λ k. c ∷ k) (take-append t l)

-- For a text of fewer than 20 characters, none of which ends a line, with the end of a line behind
-- it: the array that the handlers fill has the text with a NUL behind it, and the key made of it is
-- the text with zeros up to 20.
pub read_topic-line :
    (t raw : List ℕ) (d : ℕ)
    → IsLine t
    → length t < 20
    → ends_line d ≡ true
    → (strlen (read_topic (t ++ d ∷ raw)) ≡ some (length t))
      × (take (length t) (read_topic (t ++ d ∷ raw)) ≡ t)
      × (padded (length t) (read_topic (t ++ d ∷ raw)) ≡ key_of t)
unfolding read_topic key_of
read_topic-line t raw d line short delim =
    let n : ℕ = 19 - length t in
    let (rest, e) = cell-line t raw n d line delim in
    let size : length t + suc n ≡ 20 = omega arith in
    let whole : read_topic (t ++ d ∷ raw) ≡ t ++ 0 ∷ rest =
      ap (λ (k : ℕ). cell k (t ++ d ∷ raw)) (sym size) ∙ e in
    (
      ap strlen whole ∙ strlen-line t rest line,
      ap (take (length t)) whole ∙ take-append t (0 ∷ rest),
      ap (padded (length t)) whole
          ∙ ap (λ l. l ++ replicate (20 - length t) 0) (take-append t (0 ∷ rest)),
    )

-- A line of 20 characters or more leaves no NUL in the array.
pub read_topic-long :
    (t raw : List ℕ) → IsLine t → length t ≡ 20 → strlen (read_topic (t ++ raw)) ≡ none
unfolding read_topic
read_topic-long t raw line full =
    ap (λ (k : ℕ). strlen (cell k (t ++ raw))) (sym full)
    ∙ ap strlen (cell-full t raw line)
    ∙ strlen-full t line
