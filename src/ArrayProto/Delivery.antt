-- ===== src/ArrayProto/Delivery.antt =====
-- The service over arrays and the cloning XDP program together: every subscriber of a topic gets its
-- copy of a PUBLISH.
use bpf_broker.Proto.View.{View}
use bpf_broker.Proto.View.Steps.{ViewReachable, ViewReachable-FitsView}
use bpf_broker.Prelude.{
  ℕ, zero, suc, ◌+◌, ◌^◌, ◌≤◌, ◌<◌, ◌≡◌, sym, ap, ◌∙◌, ◌⊎◌, inl, inr, arith, length, All, List, [],
  ◌∷◌, Option, none, some, Option-cases,
}
use mathlib.Core.Path.{subst}
use bpf_broker.Frame.{Frame, IsBytes}
use bpf_broker.Parse.{Key}
use bpf_broker.Rewrite.Reply.{IsForwarded}
use bpf_broker.Xdp.{increment}
use bpf_broker.Xdp.Publish.{IsPublish}
use bpf_broker.CloneTx.{xdp_pass, xdp_tx, xdp_clone_tx, CloneTables, clone_copy, original}
use bpf_broker.CloneTx.Verdict.{original-fan_out, original_of_publish, original_of_idle}
use bpf_broker.Tc.Serve.{Pairwise}
use bpf_broker.ArrayProto.{ArrayPlatform, ArrayStore, max_subscribers, count_or_zero}
use bpf_broker.ArrayProto.View.{Lists, id_of, count_of, IsTopicOf, IsTopic, Represents}
use bpf_broker.ArrayProto.Reachable.{ArrayReachable, ArrayReachable-Represents}

-- The maps as the XDP program reads them.
abbrev pub clone_tables_of : (p : ArrayPlatform) → ArrayStore p → CloneTables
clone_tables_of p s = record {
  topic_sub_cnt = p.counts.lookup_elem s.topic_sub_cnt;
  topic_sub_array = λ key. elim (p.topics.lookup_elem s.topic_sub_array key) [
    | none ↦ none
    | some id ↦ some (p.arrays.lookup_elem (s.inner id))
  ];
}

-- What becomes of the next `n` copies of a frame after copy `k`.
abbrev pub copies : CloneTables → Frame → ℕ → ℕ → List (ℕ × Frame)
copies m f k zero = []
copies m f k (suc n) = clone_copy m (k + 1) f ∷ copies m f (k + 1) n

-- A copy is transmitted, as the frame forwarded to the subscriber.
abbrev pub IsDelivered : Frame → ℕ → ℕ × Frame → Type 0
IsDelivered f packed (action, out) = (action ≡ xdp_tx) × IsForwarded f packed out

-- The original asks for as many copies as there are subscribers, or is passed on if there is none.
abbrev pub verdict_for : List ℕ → ℕ
verdict_for [] = xdp_pass
verdict_for (packed ∷ l) = xdp_clone_tx (length (packed ∷ l))

module _ (p : ArrayPlatform) (s : ArrayStore p) (pub_counter : Option ℕ) (f : Frame) (key : Key)
    (bytes : IsBytes f) (publishes : IsPublish f key) (id : ℕ) (at : id_of p s key ≡ some id) where
  array_at : (clone_tables_of p s).topic_sub_array key ≡ some (p.arrays.lookup_elem (s.inner id))
  array_at = ground arith

  copies-IsDelivered :
      (n k : ℕ) (l : List ℕ)
      → count_of p s key ≡ some n
      → n ≤ max_subscribers
      → k + length l ≤ n
      → Lists p (s.inner id) k l
      → All (λ packed. packed < 2 ^ 64) l
      → Pairwise (IsDelivered f) l (copies (clone_tables_of p s) f k (length l))
  copies-IsDelivered n k [] count few within held fit = tt
  copies-IsDelivered n k (packed ∷ l) count few within (here, held) (fits, fit) =
      let (asked, counted, transmitted, forwarded) =
        original-fan_out (clone_tables_of p s) f pub_counter key n k packed
          (p.arrays.lookup_elem (s.inner id)) bytes publishes count (omega arith) (omega arith)
          array_at here fits in
      ((transmitted, forwarded), copies-IsDelivered n (k + 1) l count few (omega arith) held fit)

  count_cases :
      (n : ℕ)
      → count_or_zero (count_of p s key) ≡ n
      → (count_of p s key ≡ some n) ⊎ ((n ≡ 0) × (count_of p s key ≡ none))
  count_cases n e = elim (Option-cases (count_of p s key)) [
    | inl a ↦ inr (sym e ∙ ap count_or_zero a, a)
    | inr (c, a) ↦ inl (a ∙ ap some (sym (ap count_or_zero a) ∙ e))
  ]

  pub delivered :
      (l : List ℕ)
      → IsTopicOf p (s.inner id) (count_of p s key) l
      → All (λ packed. packed < 2 ^ 64) l
      → (original (clone_tables_of p s) pub_counter f ≡ (verdict_for l, increment pub_counter))
        × Pairwise (IsDelivered f) l (copies (clone_tables_of p s) f 0 (length l))
  delivered [] h fit = (
    original_of_idle (clone_tables_of p s) f pub_counter key publishes
        (elim (count_cases 0 h.counted) [ inl e ↦ inr e | inr e ↦ inl e.1 ]),
    tt,
  )
  delivered (packed ∷ l) h fit = elim (count_cases (suc (length l)) h.counted) [
    | inr e ↦ absurd (omega (arith, e.0))
    | inl e ↦ (
      original_of_publish (clone_tables_of p s) f pub_counter key (suc (length l)) publishes e
          (λ z. omega arith),
      copies-IsDelivered (suc (length l)) 0 (packed ∷ l) e h.few (omega arith) h.entries fit,
    )
  ]

-- On maps that the service over arrays reaches by any sequence of datagrams, from clients with
-- addresses of 32 bits and ports of 16 and with ids of new arrays that are new: the maps represent
-- a view that some steps of the view reach, and for every registered topic with the list `l` in
-- that view, the original of a PUBLISH made of bytes is counted and asks for as many copies as `l`
-- is long (or is passed if `l` is empty), and these copies are all transmitted, one to each
-- subscriber of `l`, in order.
pub ArrayReachable-delivers :
    (p : ArrayPlatform) (buf : List ℕ) (s : ArrayStore p) (pub_counter : Option ℕ) (f : Frame)
    (key : Key) (id : ℕ)
    → ArrayReachable p buf s
    → IsBytes f
    → IsPublish f key
    → id_of p s key ≡ some id
    → (v : View) × (l : List ℕ) × ViewReachable v
      × Represents p s v
      × (v key ≡ some l)
      × (original (clone_tables_of p s) pub_counter f ≡ (verdict_for l, increment pub_counter))
      × Pairwise (IsDelivered f) l (copies (clone_tables_of p s) f 0 (length l))
ArrayReachable-delivers p buf s pub_counter f key id r bytes publishes at =
    let (v, reached, w) = ArrayReachable-Represents p r in
    elim (Option-cases (v key)) [
      | inl e ↦ absurd (cc (at, (subst (IsTopic p s key) e (w.topic key)).0))
      | inr (l, e) ↦
          let (i, at_i, h) = subst (IsTopic p s key) e (w.topic key) in
          let (verdict, all) =
            delivered p s pub_counter f key bytes publishes i at_i l h
              (ViewReachable-FitsView reached key l e) in
          (v, l, reached, w, e, verdict, all)
    ]
