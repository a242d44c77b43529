-- ===== src/Parse/Topic.antt =====
-- extract_topic_id: the key of the topic that stands in the payload.
use bpf_broker.Prelude.{
  ℕ, zero, suc, ◌+◌, ◌-◌, ltb, if◌then◌else◌, ◌≤◌, ◌<◌, ◌≡◌, refl, sym, ap, ◌∙◌, ◌⊎◌, inl, inr,
  true, false, Bool-cases, arith, length, length-append, take, take-append-drop, length-take_of_le,
  All-take, drop, set, replicate, All, List, [], ◌∷◌, ◌++◌, Option, none, some,
}
use bpf_broker.Frame.{Frame, load8}
use bpf_broker.Parse.{Key, is_delimiter, topic_loop, extract_topic_id}
use bpf_broker.Parse.Prefix.{drop-cons, drop-eq-nil}
use mathlib.Core.List.{append_assoc, append-nil}
use native.Mathlib.Decide.{dec_lt}
use native.Mathlib.Nat.{zero-add, add-zero, suc-add}

-- No character of the name ends a topic.
abbrev pub IsName : List ℕ → Type 0
IsName t = All (λ c. is_delimiter c ≡ false) t

-- The characters before the first delimiter.
unfoldable pub name_of : List ℕ → List ℕ
name_of [] = []
name_of (c ∷ l) = if is_delimiter c then [] else c ∷ name_of l

-- The name in an array of 20 characters, zeros behind it.
unfoldable pub key_of : List ℕ → Key
key_of t = t ++ replicate (20 - length t) 0

-- What the bytes of the payload say of the topic: the characters before the first delimiter, if
-- one stands among the first 20 bytes; else the first 19, if there are 20; else nothing.
unfoldable pub topic_spec : List ℕ → Option Key
topic_spec l =
    let t = name_of l in
    if ltb (length t) 20
    then (if ltb (length t) (length l) then some (key_of t) else none)
    else some (set (take 20 t) 19 0)

-- A write just behind `pre`.
set-append :
    (pre : List ℕ) (i x c : ℕ) (rest : List ℕ)
    → length pre ≡ i
    → set (pre ++ x ∷ rest) i c ≡ pre ++ c ∷ rest
set-append [] zero x c rest e = refl
set-append [] (suc i) x c rest e = absurd (omega arith)
set-append (y ∷ pre) zero x c rest e = absurd (omega arith)
set-append (y ∷ pre) (suc i) x c rest e = ap (λ l. y ∷ l) (set-append pre i x c rest (omega arith))

-- What stands at `p` if the bytes from there are `c ∷ l`.
uncons :
    (f : Frame) (p c : ℕ) (l : List ℕ)
    → drop p f ≡ c ∷ l
    → (p < length f) × (load8 f p ≡ c) × (drop (p + 1) f ≡ l)
uncons f p c l e = elim (dec_lt p (length f)) [
  | yes h ↦ ground (arith, drop-cons f p)
  | no h ↦ ground (arith, drop-eq-nil f p)
]

moved : (i k : ℕ) → i + 1 + k ≡ i + suc k
moved i k = omega arith

module _ (f : Frame) (s : ℕ) where
  -- One round, by what stands at `s + i`.
  loop-copy :
      (n i c : ℕ) (l : List ℕ) (out_id : Key)
      → drop (s + i) f ≡ c ∷ l
      → is_delimiter c ≡ false
      → topic_loop f s (suc n) i out_id ≡ topic_loop f s n (i + 1) (set out_id i c)
  unfolding topic_loop
  loop-copy n i c l out_id at plain = ground (arith, uncons f (s + i) c l)

  loop-stop :
      (n i c : ℕ) (l : List ℕ) (out_id : Key)
      → drop (s + i) f ≡ c ∷ l
      → is_delimiter c ≡ true
      → topic_loop f s (suc n) i out_id ≡ some (set out_id i 0)
  unfolding topic_loop
  loop-stop n i c l out_id at delim = ground (arith, uncons f (s + i) c l)

  loop-end : (n i : ℕ) (out_id : Key) → drop (s + i) f ≡ [] → topic_loop f s (suc n) i out_id ≡ none
  unfolding topic_loop
  loop-end n i out_id at = ground (arith, drop-cons f (s + i))

  drop-next : (i c : ℕ) (l : List ℕ) → drop (s + i) f ≡ c ∷ l → drop (s + (i + 1)) f ≡ l
  drop-next i c l at =
      ap (λ k. drop k f) {x = s + (i + 1)} {y = s + i + 1} (omega arith)
      ∙ (uncons f (s + i) c l at).2

  -- The loop over a name, with the array written so far.
  loop-name :
      (t : List ℕ) (n i : ℕ) (pre l : List ℕ)
      → length pre ≡ i
      → IsName t
      → drop (s + i) f ≡ t ++ l
      → topic_loop f s (length t + n) i (pre ++ replicate (length t + n) 0)
        ≡ topic_loop f s n (i + length t) ((pre ++ t) ++ replicate n 0)
  loop-name [] n i pre l e name at = rw (zero-add, append-nil, add-zero)
  loop-name (c ∷ t) n i pre l e name at = rw (suc-add) (
      rw
        (
          loop-copy (length t + n) i c (t ++ l) (pre ++ 0 ∷ replicate (length t + n) 0) at name.0,
          set-append pre i 0 c (replicate (length t + n) 0) e,
        )
        (cc (
          loop-name t n (i + 1) (pre ++ c ∷ []) l (omega (arith, length-append pre (c ∷ []))) name.1
              (drop-next i c (t ++ l) at),
          append_assoc pre (c ∷ []) (replicate (length t + n) 0),
          append_assoc pre (c ∷ []) t,
          moved i (length t),
        )))

  drop-name :
      (t : List ℕ) (i : ℕ) (l : List ℕ) → drop (s + i) f ≡ t ++ l → drop (s + (i + length t)) f ≡ l
  drop-name [] i l at = rw add-zero at
  drop-name (c ∷ t) i l at =
      rw (← moved i (length t)) (drop-name t (i + 1) l (drop-next i c (t ++ l) at))

  -- extract_topic_id after a name of at most 20 characters.
  module _ (t l : List ℕ) (at : drop s f ≡ t ++ l) where
    extract_topic_id-name :
        (n : ℕ)
        → length t + n ≡ 20
        → IsName t
        → extract_topic_id f s ≡ topic_loop f s n (length t) (t ++ replicate n 0)
    unfolding extract_topic_id
    extract_topic_id-name n e name =
        let at' : drop (s + 0) f ≡ t ++ l = rw add-zero at in
        ap (λ (k : ℕ). topic_loop f s k 0 (replicate k 0)) (sym e)
        ∙ loop-name t n 0 [] l refl name at'
        ∙ ap (λ (i : ℕ). topic_loop f s n i (t ++ replicate n 0)) (zero-add (length t))

    rest_of_name : drop (s + length t) f ≡ l
    rest_of_name = rw (← zero-add (length t)) (drop-name t 0 l (rw add-zero at))

    -- A delimiter ends the name.
    extract_topic_id-delimiter :
        (n c : ℕ) (r : List ℕ)
        → length t + suc n ≡ 20
        → IsName t
        → l ≡ c ∷ r
        → is_delimiter c ≡ true
        → extract_topic_id f s ≡ some (t ++ replicate (suc n) 0)
    extract_topic_id-delimiter n c r e name head delim =
        extract_topic_id-name (suc n) e name
        ∙ loop-stop n (length t) c r (t ++ 0 ∷ replicate n 0) (rest_of_name ∙ head) delim
        ∙ ap some (set-append t (length t) 0 0 (replicate n 0) refl)

    -- The frame ends before the name does.
    extract_topic_id-end :
        (n : ℕ) → length t + suc n ≡ 20 → IsName t → l ≡ [] → extract_topic_id f s ≡ none
    extract_topic_id-end n e name head =
        extract_topic_id-name (suc n) e name
        ∙ loop-end n (length t) (t ++ 0 ∷ replicate n 0) (rest_of_name ∙ head)

    -- The array is full.
    extract_topic_id-full : length t ≡ 20 → IsName t → extract_topic_id f s ≡ some (set t 19 0)
    unfolding topic_loop
    extract_topic_id-full e name =
        extract_topic_id-name 0 (omega arith) name ∙ ap (λ k. some (set k 19 0)) (append-nil t)

-- A list is its name, and then nothing or a delimiter.
name_of-split :
    (l : List ℕ)
    → IsName (name_of l)
      × ((l ≡ name_of l)
          ⊎ ((d : ℕ) × (r : List ℕ) × (l ≡ name_of l ++ d ∷ r) × (is_delimiter d ≡ true)))
unfolding name_of
name_of-split [] = (tt, inl refl)
name_of-split (c ∷ l) = elim (Bool-cases (is_delimiter c)) [
  | inl d ↦ rw d (tt, inr (c, l, refl, d))
  | inr p ↦
      let (named, shape) = name_of-split l in
      rw p (
        (p, named),
        elim shape [
          | inl e ↦ inl (ap (λ k. c ∷ k) e)
          | inr (d, r, e, delim) ↦ inr (d, r, ap (λ k. c ∷ k) e, delim)
        ],
      )
]

-- The three cases of the specification.
module _ (l : List ℕ) where
  topic_spec-end : length (name_of l) < 20 → l ≡ name_of l → topic_spec l ≡ none
  unfolding topic_spec
  topic_spec-end short e = ground (arith, ap length e)

  pub topic_spec-delimiter :
      (d : ℕ) (r : List ℕ)
      → length (name_of l) < 20
      → l ≡ name_of l ++ d ∷ r
      → topic_spec l ≡ some (key_of (name_of l))
  unfolding topic_spec
  topic_spec-delimiter d r short e = ground (arith, ap length e, length-append (name_of l) (d ∷ r))

  topic_spec-full : 20 ≤ length (name_of l) → topic_spec l ≡ some (set (take 20 (name_of l)) 19 0)
  unfolding topic_spec
  topic_spec-full long = ground arith

  -- A long name, with what follows its first 20 characters.
  first_twenty : (r : List ℕ) × (l ≡ take 20 (name_of l) ++ r)
  first_twenty =
      let t = name_of l in
      elim (name_of-split l).1 [
        | inl e ↦ (drop 20 t, e ∙ sym (take-append-drop 20 t))
        | inr (d, r, e, delim) ↦ (
          drop 20 t ++ d ∷ r,
          e
              ∙ ap (λ k. k ++ d ∷ r) (sym (take-append-drop 20 t))
              ∙ append_assoc (take 20 t) (drop 20 t) (d ∷ r),
        )
      ]

-- For every frame and offset, the loop of extract_topic_id gives what topic_spec says of the bytes
-- from there on: the characters before the first delimiter with zeros behind them if one stands
-- among the first 20 bytes, else the first 19 bytes and a zero if there are 20, else -1.
pub extract_topic_id-eq-topic_spec :
    (f : Frame) (s : ℕ) → extract_topic_id f s ≡ topic_spec (drop s f)
unfolding key_of
extract_topic_id-eq-topic_spec f s =
    let l = drop s f in
    let t = name_of l in
    let (named, shape) = name_of-split l in
    elim (dec_lt (length t) 20) [
      | yes short ↦
          let n : ℕ = 19 - length t in
          elim shape [
            | inl e ↦
                extract_topic_id-end f s t [] (e ∙ sym (append-nil t)) n (omega arith) named refl
                ∙ sym (topic_spec-end l short e)
            | inr (d, r, e, delim) ↦
                extract_topic_id-delimiter f s t (d ∷ r) e n d r (omega arith) named refl delim
                ∙ ap (λ (k : ℕ). some (t ++ replicate k 0)) {x = suc n} {y = 20 - length t}
                    (omega arith)
                ∙ sym (topic_spec-delimiter l d r short e)
          ]
      | no long ↦
          let (r, at) = first_twenty l in
          extract_topic_id-full f s (take 20 t) r at (length-take_of_le 20 t (omega arith))
            (All-take (λ c. is_delimiter c ≡ false) 20 t named)
          ∙ sym (topic_spec-full l (omega arith))
    ]
