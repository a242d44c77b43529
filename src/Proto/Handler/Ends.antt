-- ===== src/Proto/Handler/Ends.antt =====
-- What holds of the maps after a call or a command: a read past the end of an array is left open, a
-- loop that does not end is not.
use bpf_broker.Prelude.{
  ℕ, ◌≤◌, ◌<◌, ◌≡◌, refl, sym, inl, inr, arith, Bool, true, false, if◌then◌else◌, List, Option,
  none, some, Option-cases,
}
use mathlib.Core.Path.{subst}
use native.Mathlib.Decide.{dec_lt}
use bpf_broker.Proto.Text.{strlen}
use bpf_broker.Proto.Service.{Status, failed, Outcome, done, overread, stuck}

module _ {S : Type 0} (P : S → Type 0) where
  abbrev pub Ends : {A : Type 0} → Outcome (A × S) → Type 0
  Ends (done (a, s)) = P s
  Ends overread = Unit
  Ends stuck = ⊥

  pub option-Ends :
      {A : Type 0} (o : Option (List ℕ)) (answer : List ℕ → Outcome (A × S))
      → ((text : List ℕ) → Ends (answer text))
      → Ends {A = A} (elim o [ none ↦ overread | some text ↦ answer text ])
  option-Ends none answer k = tt
  option-Ends (some text) answer k = k text

  pub if-Ends :
      {A : Type 0} (b : Bool) (x y : Outcome (A × S)) → Ends x → Ends y → Ends (if b then x else y)
  if-Ends true x y a c = a
  if-Ends false x y a c = c

  -- A call on a name is a read past its end, a refusal of its length, or done.
  pub name-Ends :
      (topic_name : List ℕ) (s : S) (run : Outcome (Status × S))
      → P s
      → (strlen topic_name ≡ none → run ≡ overread)
      → ((len : ℕ) → strlen topic_name ≡ some len → 20 ≤ len → run ≡ done (failed, s))
      → ((len : ℕ) → strlen topic_name ≡ some len → len < 20 → Ends run)
      → Ends run
  name-Ends topic_name s run w unterminated long short = elim (Option-cases (strlen topic_name)) [
    | inl e ↦ subst Ends (sym (unterminated e)) tt
    | inr (len, e) ↦ elim (dec_lt len 20) [
      | yes below ↦ short len e below
      | no above ↦ subst Ends (sym (long len e (omega arith))) w
    ]
  ]

-- What holds of every end, of a run that is not stuck.
pub Ends-of :
    {A S : Type 0} (P Q : S → Type 0) (run : Outcome (A × S))
    → Ends Q run
    → ((a : A) (s : S) → run ≡ done (a, s) → P s)
    → Ends P run
Ends-of P Q (done (a, s)) k h = h a s refl
Ends-of P Q overread k h = tt
Ends-of P Q stuck k h = k
