-- ===== src/Macro/Reports.antt =====
-- A computer reports one error at most.
use ru_c.Prelude.{ℕ, ◌≡◌, refl, ap, ◌∙◌, Bool, true, false, List, [], ◌∷◌, length}
use Prim.Native.String.{String}
use ru_c.Utils.Item.{Item, Size}
use ru_c.Macro.Token.{Token}
use ru_c.Macro.Operators.{Run, done, undefined, stuck, ◌>>=◌, Computer, computer_is_correct}
use ru_c.Macro.Computer.{
  computer_create, computer_push_token, computer_push_number, computer_push_const,
  computer_pop_result,
}
use ru_c.Macro.Simulation.{Frame, frame}
use ru_c.Macro.Steps.{
  Ensures, Ensures-bind, Ensures-if, IsStep, silent, reports, push_token_loop-IsStep,
  const_number-IsStep, computer_pop_result-IsStep,
}

-- A call on a computer; what it returns is left aside.
pub data ComputerCall : Type 0 where
  push_token : Size → Token → ComputerCall
  push_number : Size → Item → ComputerCall
  push_const : Size → ℕ → String → ComputerCall
  pop_result : ComputerCall

abbrev left {ℓ} : {A : Type ℓ} → Run (Computer × A) → Run Computer
left (done r) = done r.0
left undefined = undefined
left stuck = stuck

module _ (grant : ℕ → Bool) where
  abbrev make_call : ComputerCall → Computer → Run Computer
  make_call (push_token at tk) comp = left (computer_push_token grant comp at tk)
  make_call (push_number at num) comp = left (computer_push_number grant comp at num)
  make_call (push_const at ch name) comp = left (computer_push_const grant comp at ch name)
  make_call pop_result comp = left (computer_pop_result grant comp)

  unfoldable pub make_calls : List ComputerCall → Computer → Run Computer
  make_calls [] comp = done comp
  make_calls (c ∷ cs) comp = make_call c comp >>= λ comp'. make_calls cs comp'

  left-IsStep :
      {A : Type 0} (fr : Frame) (m : Run (Computer × A))
      → Ensures m (λ r. IsStep fr r.0)
      → Ensures (left m) (λ comp. IsStep fr comp)
  left-IsStep fr (done r) h = h
  left-IsStep fr undefined h = tt
  left-IsStep fr stuck h = tt

  make_call-IsStep :
      (c : ComputerCall) (comp : Computer)
      → Ensures (make_call c comp) (λ comp'. IsStep (frame comp) comp')
  unfolding computer_push_token computer_push_number computer_push_const
  make_call-IsStep (push_token at tk) comp =
      left-IsStep (frame comp) _ (push_token_loop-IsStep grant (frame comp) _ comp at tk refl)
  make_call-IsStep (push_number at num) comp = left-IsStep (frame comp) _ (
      Ensures-if (computer_is_correct comp) _ _ _ (const_number-IsStep grant comp at num _)
        (silent refl))
  make_call-IsStep (push_const at ch name) comp = left-IsStep (frame comp) _ (
      Ensures-if (computer_is_correct comp) _ _ _ (const_number-IsStep grant comp at ch _)
        (silent refl))
  make_call-IsStep pop_result comp =
      left-IsStep (frame comp) _ (computer_pop_result-IsStep grant comp)

-- Nothing is reported and the location is correct, or one error is reported and it is not.
pub data HasReportedOnce (comp : Computer) : Type 0 where
  none_yet : comp.reports ≡ [] → comp.loc_correct ≡ true → HasReportedOnce comp
  once : length comp.reports ≡ 1 → comp.loc_correct ≡ false → HasReportedOnce comp

IsStep-HasReportedOnce :
    (comp comp' : Computer)
    → IsStep (frame comp) comp'
    → HasReportedOnce comp
    → HasReportedOnce comp'
IsStep-HasReportedOnce comp comp' (silent e) (none_yet r l) =
    none_yet (ap (λ f. f.reports) e ∙ r) (ap (λ f. f.loc_correct) e ∙ l)
IsStep-HasReportedOnce comp comp' (silent e) (once r l) =
    once (ap (λ f. length f.reports) e ∙ r) (ap (λ f. f.loc_correct) e ∙ l)
IsStep-HasReportedOnce comp comp' (reports at kind argument e) (none_yet r l) =
    once (ap (λ f. length f.reports) e ∙ rw (l, r)) (ap (λ f. f.loc_correct) e ∙ rw l)
IsStep-HasReportedOnce comp comp' (reports at kind argument e) (once r l) =
    once (ap (λ f. length f.reports) e ∙ rw l r) (ap (λ f. f.loc_correct) e ∙ rw l)

module _ (grant : ℕ → Bool) where
  make_calls-HasReportedOnce_from :
      (cs : List ComputerCall) (comp : Computer)
      → HasReportedOnce comp
      → Ensures (make_calls grant cs comp) HasReportedOnce
  unfolding make_calls
  make_calls-HasReportedOnce_from [] comp h = h
  make_calls-HasReportedOnce_from (c ∷ cs) comp h =
      Ensures-bind (make_call grant c comp) _ (λ comp'. IsStep (frame comp) comp') _
        (make_call-IsStep grant c comp)
        (λ comp' step.
          make_calls-HasReportedOnce_from cs comp' (IsStep-HasReportedOnce comp comp' step h))

  -- Whatever is called on a new computer with a correct location, and whatever the allocator grants:
  -- unless C leaves a result undefined, the computer has reported nothing and its location is
  -- correct, or it has reported one error and its location is not.
  pub make_calls-HasReportedOnce :
      (io_is_file : Bool) (directive : String) (cs : List ComputerCall)
      → Ensures
          (make_calls grant cs (computer_create grant true io_is_file directive))
          HasReportedOnce
  unfolding computer_create
  make_calls-HasReportedOnce io_is_file directive cs =
      make_calls-HasReportedOnce_from cs _ (none_yet refl refl)
