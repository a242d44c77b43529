-- ===== src/Proto/View/Steps.antt =====
-- The steps of a view that one datagram can make, and the views after some of them.
use bpf_broker.Prelude.{
  ℕ, ◌^◌, ◌<◌, ◌≡◌, sym, ap, ◌∙◌, inl, inr, All, List, [], ◌∷◌, ◌++◌, none, some, Option-cases,
}
use mathlib.Core.Path.{subst}
use bpf_broker.Parse.{Key}
use bpf_broker.Proto.Service.Invariant.{Key-discrete}
use bpf_broker.Proto.Handler.{Client, FitsClient, packed_client}
use bpf_broker.Broker.Pack.{packed_pack}
use bpf_broker.Proto.View.{
  View, view_register, view_subscribe, view_flush, replaced, replaced_self, replaced_ne,
  view_register_known, view_register_unknown, view_subscribe_known, view_subscribe_unknown,
  view_flush_known, view_flush_unknown,
}

-- What one datagram of a client can do to the view.
pub data ViewStep (client : Client) : View → View → Type 0 where
  unchanged : {v : View} → ViewStep client v v
  registers : {v : View} (key : Key) → ViewStep client v (view_register key v)
  subscribes :
      {v : View} (key : Key) → ViewStep client v (view_subscribe key (packed_client client) v)
  flushes : {v : View} (key : Key) → ViewStep client v (view_flush key v)

-- The views after some steps.
pub data ViewReachable : View → Type 0 where
  view_start : ViewReachable (λ t. none)
  view_step :
      {v v' : View}
      → ViewReachable v
      → (client : Client) → FitsClient client
      → ViewStep client v v'
      → ViewReachable v'

-- The lists of a view hold numbers of 64 bits.
abbrev pub FitsView : View → Type 0
FitsView v = (t : Key) (l : List ℕ) → v t ≡ some l → All (λ packed. packed < 2 ^ 64) l

pub All-append : (P : ℕ → Type 0) (l : List ℕ) (x : ℕ) → All P l → P x → All P (l ++ x ∷ [])
All-append P [] x a h = (h, tt)
All-append P (y ∷ l) x (b, a) h = (b, All-append P l x a h)

replaced-FitsView :
    (v : View) (key : Key) (l : List ℕ)
    → FitsView v
    → All (λ packed. packed < 2 ^ 64) l
    → FitsView (replaced v key l)
replaced-FitsView v key l fits h t k e = elim (Key-discrete t key) [
  | yes q ↦
      let same : some l ≡ some k =
        sym (replaced_self v key l) ∙ ap (replaced v key l) (sym q) ∙ e in
      subst (All (λ packed. packed < 2 ^ 64)) (cc same) h
  | no n ↦ fits t k (sym (replaced_ne v key t l n) ∙ e)
]

ViewStep-FitsView :
    (client : Client) {v v' : View}
    → FitsClient client
    → ViewStep client v v'
    → FitsView v
    → FitsView v'
ViewStep-FitsView client c unchanged fits = fits
ViewStep-FitsView client c (registers {v} key) fits = elim (Option-cases (v key)) [
  | inl e ↦
      subst FitsView (sym (view_register_unknown key v e)) (replaced-FitsView v key [] fits tt)
  | inr (l, e) ↦ subst FitsView (sym (view_register_known key v l e)) fits
]
ViewStep-FitsView client c (subscribes {v} key) fits = elim (Option-cases (v key)) [
  | inl e ↦ subst FitsView (sym (view_subscribe_unknown key (packed_client client) v e)) fits
  | inr (l, e) ↦ subst FitsView (sym (view_subscribe_known key (packed_client client) v l e)) (
      replaced-FitsView v key (l ++ packed_client client ∷ []) fits (
        All-append (λ packed. packed < 2 ^ 64) l (packed_client client) (fits key l e)
          (packed_pack client.s_addr client.sin_port c.address c.port).2))
]
ViewStep-FitsView client c (flushes {v} key) fits = elim (Option-cases (v key)) [
  | inl e ↦ subst FitsView (sym (view_flush_unknown key v e)) fits
  | inr (l, e) ↦
      subst FitsView (sym (view_flush_known key v l e)) (replaced-FitsView v key [] fits tt)
]

pub ViewReachable-FitsView : {v : View} → ViewReachable v → FitsView v
ViewReachable-FitsView view_start = λ t l e. absurd (cc e)
ViewReachable-FitsView (view_step r client c step) =
    ViewStep-FitsView client c step (ViewReachable-FitsView r)
