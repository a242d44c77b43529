-- ===== src/Proto/View.antt =====
-- What the services keep: for each registered topic the list of its subscribers, in the order of their
-- subscriptions.
pub mod Steps
pub mod Same
use bpf_broker.Prelude.{
  ℕ, ◌≡◌, refl, sym, ap, ◌∙◌, ◌≢◌, arith, List, [], ◌∷◌, ◌++◌, Option, none, some,
}
use mathlib.Core.Logic.{ite, if_pos, if_neg}
use bpf_broker.Parse.{Key}
use bpf_broker.Proto.Service.Invariant.{Key-discrete}

-- The subscribers of each registered topic.
abbrev pub View : Type 0
View = Key → Option (List ℕ)

abbrev pub replaced : View → Key → List ℕ → View
replaced v key l t = ite (Key-discrete t key) (some l) (v t)

-- The three operations. Subscribing and flushing leave an unknown topic alone.
abbrev pub view_register : Key → View → View
view_register key v = elim (v key) [ none ↦ replaced v key [] | some l ↦ v ]

abbrev pub view_subscribe : Key → ℕ → View → View
view_subscribe key packed v = elim (v key) [ none ↦ v | some l ↦ replaced v key (l ++ packed ∷ []) ]

abbrev pub view_flush : Key → View → View
view_flush key v = elim (v key) [ none ↦ v | some l ↦ replaced v key [] ]

-- The operations by what is known of the topic.
pub view_register_known :
    (key : Key) (v : View) (l : List ℕ) → v key ≡ some l → view_register key v ≡ v
view_register_known key v l e = ground arith

pub view_register_unknown :
    (key : Key) (v : View) → v key ≡ none → view_register key v ≡ replaced v key []
view_register_unknown key v e = ground arith

pub view_subscribe_known :
    (key : Key) (packed : ℕ) (v : View) (l : List ℕ)
    → v key ≡ some l
    → view_subscribe key packed v ≡ replaced v key (l ++ packed ∷ [])
view_subscribe_known key packed v l e = ground arith

pub view_subscribe_unknown :
    (key : Key) (packed : ℕ) (v : View) → v key ≡ none → view_subscribe key packed v ≡ v
view_subscribe_unknown key packed v e = ground arith

pub view_flush_known :
    (key : Key) (v : View) (l : List ℕ) → v key ≡ some l → view_flush key v ≡ replaced v key []
view_flush_known key v l e = ground arith

pub view_flush_unknown : (key : Key) (v : View) → v key ≡ none → view_flush key v ≡ v
view_flush_unknown key v e = ground arith

-- A list in place of itself.
pub replaced_same :
    (v : View) (key : Key) (l : List ℕ) → v key ≡ some l → (t : Key) → replaced v key l t ≡ v t
replaced_same v key l e t = elim (Key-discrete t key) [
  | yes q ↦ if_pos (Key-discrete t key) q _ _ ∙ sym e ∙ ap v (sym q)
  | no n ↦ if_neg (Key-discrete t key) n _ _
]

pub replaced_self : (v : View) (key : Key) (l : List ℕ) → replaced v key l key ≡ some l
replaced_self v key l = if_pos (Key-discrete key key) refl _ _

pub replaced_ne : (v : View) (key t : Key) (l : List ℕ) → t ≢ key → replaced v key l t ≡ v t
replaced_ne v key t l n = if_neg (Key-discrete t key) n _ _
