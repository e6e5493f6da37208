-- ===== src/Macro/Steps.antt =====
-- What each call of the computer reports: nothing or one error.
use ru_c.Prelude.{
  ℕ, zero, suc, ◌≡◌, refl, ap, ◌∙◌, Bool, true, false, not, ◌&&◌, Bool-cases, inl, inr, Option,
  none, some, ◌==◌, if◌then◌else◌,
}
use mathlib.Core.Path.{subst}
use ru_c.Prelude.Int.{ℤ, pos, negsuc}
use ru_c.Utils.Item.{Item, Size, item_max}
use ru_c.Utils.Stack.{stack_push, stack_pop, stack_peek, stack_size}
use ru_c.Macro.Token.{Token, code, token_of_item, Spelling}
use ru_c.Macro.Arith.{Applied, negation, complement, truth}
use ru_c.Macro.Operators.{
  Run, done, undefined, stuck, ◌>>=◌, ErrorKind, Computer, computer_error, computer_is_correct,
  pop_operator, computer_compare_priority, without_operand, computer_token_without_number,
  computer_select_three, const_number_loop, computer_const_number,
}
use ru_c.Macro.Computer.{is_opening, push_token_loop, pop_result_loop, computer_pop_result}
use ru_c.Macro.Simulation.{Frame, frame}
use ru_c.Macro.Unbalanced.{reported, frame-computer_error}

-- What holds of the result of a run, if it ends with one.
abbrev pub Ensures {ℓ} : {A : Type ℓ} → Run A → (A → Type 0) → Type 0
Ensures (done a) P = P a
Ensures undefined P = Unit {0}
Ensures stuck P = Unit {0}

pub Ensures-bind {ℓ κ} :
    {A : Type ℓ} {B : Type κ} (m : Run A) (f : A → Run B) (P : A → Type 0) (Q : B → Type 0)
    → Ensures m P
    → ((a : A) → P a → Ensures (f a) Q)
    → Ensures (m >>= f) Q
Ensures-bind (done a) f P Q h next = next a h
Ensures-bind undefined f P Q h next = tt
Ensures-bind stuck f P Q h next = tt

-- A call reports nothing, or one error.
pub data IsStep (fr : Frame) (comp : Computer) : Type 0 where
  silent : frame comp ≡ fr → IsStep fr comp
  reports :
      (at : Item) (kind : ErrorKind) (argument : Spelling)
      → frame comp ≡ reported fr at kind argument
      → IsStep fr comp

pub Ensures-if :
    {A : Type 0} (b : Bool) (x y : Run A) (P : A → Type 0)
    → Ensures x P
    → Ensures y P
    → Ensures (if b then x else y) P
Ensures-if true x y P h k = h
Ensures-if false x y P h k = k

Ensures-sign :
    {A : Type 0} (k : ℤ) (x y z : Run A) (P : A → Type 0)
    → Ensures x P
    → Ensures y P
    → Ensures z P
    → Ensures {A = A} (elim k [ pos ℕ.zero ↦ x | pos (ℕ.suc j) ↦ y | negsuc j ↦ z ]) P
Ensures-sign (pos zero) x y z P h i j = h
Ensures-sign (pos (suc k)) x y z P h i j = i
Ensures-sign (negsuc k) x y z P h i j = j

IsStep-from : {fr gr : Frame} {comp : Computer} → gr ≡ fr → IsStep gr comp → IsStep fr comp
IsStep-from {fr} {gr} {comp} e h = subst (λ f. IsStep f comp) e h

Ensures-silent :
    {A : Type 0} (fr : Frame) (m : Run (Computer × A))
    → Ensures m (λ r. frame r.0 ≡ fr)
    → Ensures m (λ r. IsStep fr r.0)
Ensures-silent fr (done r) h = silent h
Ensures-silent fr undefined h = tt
Ensures-silent fr stuck h = tt

computer_error-IsStep :
    (fr : Frame) (comp : Computer) (at : Item) (kind : ErrorKind) (argument : Spelling)
    → frame comp ≡ fr
    → IsStep fr (computer_error comp at kind argument)
computer_error-IsStep fr comp at kind argument e =
    reports at kind argument
      (frame-computer_error comp at kind argument ∙ ap (λ f. reported f at kind argument) e)

module _ (grant : ℕ → Bool) where
  select_silent :
      (comp : Computer) → Ensures (computer_select_three grant comp) (λ r. frame r.0 ≡ frame comp)
  unfolding computer_select_three
  select_silent comp = by_result _
    where
      by_result :
          (s : Applied)
          → Ensures {A = Computer × ℤ}
              (elim s [
                | Applied.value v ↦
                    let (ns'', result) =
                      stack_push grant (stack_pop (stack_pop comp.numbers).0).0 v in
                    done (record (pop_operator comp).0 { numbers = ns'' }, result)
                | Applied.undefined ↦ undefined
                | Applied.no_operator ↦ done (
                  record (pop_operator comp).0 {
                    numbers = (stack_pop (stack_pop comp.numbers).0).0;
                  },
                  negsuc 0,
                )
              ])
              (λ r. frame r.0 ≡ frame comp)
      by_result (Applied.value v) = refl
      by_result Applied.undefined = tt
      by_result Applied.no_operator = refl

  without_operand-IsStep :
      (comp : Computer) (at : Item) (tk : Token)
      → IsStep (frame comp) (without_operand grant comp at tk).0
  unfolding without_operand
  without_operand-IsStep comp at tk =
      elim (Bool-cases (
        not (stack_peek comp.operators == code Token.l_bound)
        && not (stack_peek comp.operators == item_max))) [
          | inl e ↦ rw e (computer_error-IsStep (frame comp) (pop_operator comp).0 _ _ _ refl)
          | inr e ↦ rw e (computer_error-IsStep (frame comp) comp _ _ _ refl)
        ]

  without_number-IsStep :
      (comp : Computer) (at : Item) (tk : Token)
      → IsStep (frame comp) (computer_token_without_number grant comp at tk).0
  unfolding computer_token_without_number
  without_number-IsStep comp at Token.l_bound = silent refl
  without_number-IsStep comp at Token.compl = silent refl
  without_number-IsStep comp at Token.not = silent refl
  without_number-IsStep comp at Token.add = silent refl
  without_number-IsStep comp at Token.sub = silent refl
  without_number-IsStep comp at Token.r_bound =
      elim (Bool-cases (stack_peek comp.operators == code Token.l_bound)) [
        | inl e ↦ rw e (computer_error-IsStep (frame comp) comp _ _ _ refl)
        | inr e ↦ rw e (elim (Bool-cases (stack_peek comp.operators == item_max)) [
          | inl m ↦ rw m (computer_error-IsStep (frame comp) comp _ _ _ refl)
          | inr m ↦ rw m (without_operand-IsStep comp at Token.r_bound)
        ])
      ]
  without_number-IsStep comp at tk = without_operand-IsStep comp at tk

  const_number_loop_round :
      (fr : Frame) (fuel : ℕ) (comp : Computer) (num : Item) (o : Option Token)
      → token_of_item (stack_peek comp.operators) ≡ o
      → frame comp ≡ fr
      → ((n : Item)
          → Ensures (const_number_loop grant fuel (pop_operator comp).0 n) (λ r. frame r.0 ≡ fr))
      → Ensures (const_number_loop grant (suc fuel) comp num) (λ r. frame r.0 ≡ fr)
  unfolding const_number_loop
  const_number_loop_round fr fuel comp num (some Token.compl) e kept next =
      rw (e, const_number_loop) (next (complement num))
  const_number_loop_round fr fuel comp num (some Token.not) e kept next =
      rw (e, const_number_loop) (next (truth (not (num == 0))))
  const_number_loop_round fr fuel comp num (some Token.u_negation) e kept next =
      rw (e, const_number_loop) (by_value (negation num))
    where
      by_value :
          (v : Option Item)
          → Ensures {A = Computer × ℤ}
              (elim v [
                | none ↦ undefined
                | some n ↦ const_number_loop grant fuel (pop_operator comp).0 n
              ])
              (λ r. frame r.0 ≡ fr)
      by_value none = tt
      by_value (some n) = next n
  const_number_loop_round fr fuel comp num (some Token.u_plus) e kept next =
      rw (e, const_number_loop) (next num)
  const_number_loop_round fr fuel comp num _ e kept next = rw (e, const_number_loop) kept

  const_number_loop_silent :
      (fr : Frame) (fuel : ℕ) (comp : Computer) (num : Item)
      → frame comp ≡ fr
      → Ensures (const_number_loop grant fuel comp num) (λ r. frame r.0 ≡ fr)
  const_number_loop_silent fr zero comp num kept = unfold const_number_loop in tt
  const_number_loop_silent fr (suc fuel) comp num kept =
      const_number_loop_round fr fuel comp num _ refl kept
        λ n. const_number_loop_silent fr fuel (pop_operator comp).0 n kept

  pub const_number-IsStep :
      (comp : Computer) (at num : Item) (name : Spelling)
      → Ensures (computer_const_number grant comp at num name) (λ r. IsStep (frame comp) r.0)
  unfolding computer_const_number
  const_number-IsStep comp at num name =
      Ensures-if comp.was_number _ _ _ (computer_error-IsStep (frame comp) comp at _ name refl) (
        Ensures-silent (frame comp) _
          (const_number_loop_silent (frame comp) _ (record comp { was_number = true }) num refl))

  pub push_token_loop-IsStep :
      (fr : Frame) (fuel : ℕ) (comp : Computer) (at : Size) (tk : Token)
      → frame comp ≡ fr
      → Ensures (push_token_loop grant fuel comp at tk) (λ r. IsStep fr r.0)
  unfolding push_token_loop
  push_token_loop-IsStep fr zero comp at tk kept = tt
  push_token_loop-IsStep fr (suc fuel) comp at tk kept =
      Ensures-if (not (computer_is_correct comp)) _ _ _ (silent kept) (
        Ensures-if (not comp.was_number) _ _ _ (IsStep-from kept (without_number-IsStep comp at tk))
          (Ensures-if (is_opening tk) _ _ _ (computer_error-IsStep fr comp at _ _ kept) (
            Ensures-if (stack_peek comp.operators == item_max && code tk == code Token.r_bound) _ _
              _ (computer_error-IsStep fr comp at _ _ kept)
              (Ensures-if
                (stack_peek comp.operators == code Token.l_bound && code tk == code Token.r_bound) _
                _ _ (silent kept)
                (Ensures-sign (computer_compare_priority (stack_peek comp.operators) (code tk)) _ _
                  _ _
                  (Ensures-bind (computer_select_three grant comp) _ (λ r. frame r.0 ≡ frame comp) _
                    (select_silent comp) (λ r e. silent (e ∙ kept)))
                  (Ensures-bind (computer_select_three grant comp) _ (λ r. frame r.0 ≡ frame comp) _
                    (select_silent comp)
                    (λ r e. push_token_loop-IsStep fr fuel r.0 at tk (e ∙ kept)))
                  (silent kept))))))

  pop_result_loop-IsStep :
      (fr : Frame) (fuel : ℕ) (comp : Computer)
      → frame comp ≡ fr
      → Ensures (pop_result_loop grant fuel comp) (λ r. IsStep fr r.0)
  unfolding pop_result_loop
  pop_result_loop-IsStep fr zero comp kept = tt
  pop_result_loop-IsStep fr (suc fuel) comp kept =
      Ensures-if (stack_peek comp.operators == item_max) _ _ _ (silent kept) (
        Ensures-if (stack_peek comp.operators == code Token.l_bound) _ _ _
          (computer_error-IsStep fr (pop_operator comp).0 _ _ _ kept)
          (Ensures-bind (computer_select_three grant comp) _ (λ r. frame r.0 ≡ frame comp) _
            (select_silent comp) (λ r e. pop_result_loop-IsStep fr fuel r.0 (e ∙ kept))))

  pub computer_pop_result-IsStep :
      (comp : Computer) → Ensures (computer_pop_result grant comp) (λ r. IsStep (frame comp) r.0)
  unfolding computer_pop_result
  computer_pop_result-IsStep comp =
      Ensures-if (not (computer_is_correct comp)) _ _ _ (silent refl) (
        Ensures-if (stack_size comp.numbers == 0) _ _ _
          (computer_error-IsStep (frame comp) comp _ _ _ refl)
          (Ensures-if (not comp.was_number) _ _ _
            (computer_error-IsStep (frame comp) (pop_operator comp).0 _ _ _ refl)
            (pop_result_loop-IsStep (frame comp) _ comp refl)))
