-- ===== src/Run/Runner.antt =====
-- Lists of callbacks and the relation of their steps.
use tablet_magic.Base.{
  ◌≡◌, ◌∙◌, refl, sym, ap, Bool, true, false, if◌then◌else◌, List, [], ◌∷◌, some, Bool-cases,
  Option-cases, inl, inr,
}
use mathlib.Core.Path.{subst}
use mathlib.Core.Option.{some-injective, none-ne-some}
use tablet_magic.Control.World.{World}
use tablet_magic.Control.Handle.{Environment}
use tablet_magic.Run.Loop.{RunLoop, Call, go_on, call, run_calls, Reach, here, next}

pub if-is :
    {A : Type 0} {b : Bool} (c : Bool) (x y : A)
    → b ≡ c
    → (if b then x else y) ≡ (if c then x else y)
if-is c x y p = ap (λ b. if b then x else y) p

module _ (e : Environment) where
  reach_first :
      {l n k : RunLoop e} (c : Call e)
      → l.running ≡ true
      → call e c l.world ≡ some n
      → Reach e n k
      → Reach e l k
  reach_first c on made here = next c here on made
  reach_first c on made (next c' r on' made') = next c' (reach_first c on made r) on' made'

  same_loop : (l : RunLoop e) → l.running ≡ true → l ≡ go_on e l.world
  same_loop l on = λ i. record { world = l.world; running = on i }

  pub run_calls-step :
      (c : Call e) (cs : List (Call e)) (w : World e.device) (n : RunLoop e)
      → call e c w ≡ some n
      → run_calls e (c ∷ cs) w ≡ (if n.running then run_calls e cs n.world else some n)
  unfolding run_calls
  run_calls-step c cs w n made = rw (made, run_calls) refl

  -- The runner takes no step that the relation does not.
  run_calls_reach :
      (cs : List (Call e)) (l k : RunLoop e)
      → l.running ≡ true
      → run_calls e cs l.world ≡ some k
      → Reach e l k
  unfolding run_calls
  run_calls_reach [] l k on made =
      subst (λ x. Reach e l x) (same_loop l on ∙ some-injective _ _ made) here
  run_calls_reach (c ∷ cs) l k on made = elim (Option-cases (call e c l.world)) [
    | inl fault ↦ absurd (none-ne-some k (rw (fault, run_calls) at made))
    | inr n ↦
        let rest = sym (run_calls-step c cs l.world n.value n.shown) ∙ made in
        elim (Bool-cases n.value.running) [
          | inl goes ↦
              reach_first c on n.shown
                (run_calls_reach cs n.value k goes (sym (if-is true _ _ goes) ∙ rest))
          | inr stopped ↦
              subst (λ x. Reach e l x)
                (some-injective n.value k (sym (if-is false _ _ stopped) ∙ rest))
                (next c here on n.shown)
        ]
  ]

  pub run_calls-Reach :
      (cs : List (Call e)) (w : World e.device) (k : RunLoop e)
      → run_calls e cs w ≡ some k
      → Reach e (go_on e w) k
  run_calls-Reach cs w k made = run_calls_reach cs (go_on e w) k refl made
