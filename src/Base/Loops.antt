-- ===== src/Base/Loops.antt =====
-- A loop of the sources whose body may return: on fuel, and with one rule for what it comes to.
use Prim.Native.Nat.{ℕ, zero, suc, ◌<◌}
use mathlib.Core.Bool.{Bool, true, false}
use adplug.Base.Tests.{if◌then◌else◌}
use native.Mathlib.Omega.{arith}
use adplug.Base.Results.{Outcome, ok, stuck, ◌>>=◌, Returns, Returns-bind}

-- A round of a loop ends in a `return`, or with the state of the next round.
pub data Round (R S : Type 0) : Type 0 where
  return_with : R → S → Round R S
  next_round : S → Round R S

module _ {R S : Type 0} where
  abbrev pub resume : Round R S → (S → Outcome (R × S)) → Outcome (R × S)
  resume (return_with r s) k = ok (r, s)
  resume (next_round s) k = k s

  unfoldable pub rounds : ℕ → (S → Outcome (Round R S)) → S → Outcome (R × S)
  rounds zero body s = stuck
  rounds (suc fuel) body s = do r ← body s; resume r (λ s'. rounds fuel body s')

  -- What a round must do: the loop's promise at a return, and else the invariant and a smaller measure.
  abbrev pub Progress : (S → Type 0) → (R × S → Type 0) → (S → ℕ) → ℕ → Round R S → Type 0
  Progress I Q measure before (return_with r s) = Q (r, s)
  Progress I Q measure before (next_round s) = I s × (measure s < before)

module _ {R S : Type 0} (I : S → Type 0) (Q : R × S → Type 0) (measure : S → ℕ) where
  resume-Returns :
      (before fuel : ℕ) (body : S → Outcome (Round R S))
      → ((s : S) → I s → measure s < fuel → Returns Q (rounds fuel body s))
      → before < suc fuel
      → (r : Round R S) → Progress I Q measure before r
      → Returns Q (resume r (λ s. rounds fuel body s))
  resume-Returns before fuel body k enough (return_with r s) h = h
  resume-Returns before fuel body k enough (next_round s) (h, less) = k s h (omega arith)

  -- With a measure below the fuel the loop returns.
  pub rounds-Returns :
      (body : S → Outcome (Round R S))
      → ((s : S) → I s → Returns (Progress I Q measure (measure s)) (body s))
      → (fuel : ℕ) (s : S) → I s
      → measure s < fuel
      → Returns Q (rounds fuel body s)
  unfolding rounds
  rounds-Returns body keep zero s h enough = absurd (omega arith)
  rounds-Returns body keep (suc fuel) s h enough =
      Returns-bind (Progress I Q measure (measure s)) Q (body s) _ (keep s h)
        (resume-Returns (measure s) fuel body (rounds-Returns body keep fuel) enough)

-- `while(player->update()) …`, as the callers play a song, with fuel.
module _ {S : Type 0} (update : S → Outcome (Bool × S)) where
  unfoldable pub play_on : ℕ → S → Outcome S
  play_on zero p = stuck
  play_on (suc fuel) p = do
    (more, q) ← update p
    let rest = play_on fuel q
    if more then rest else ok q

  -- A player that gets on at every update that answers true comes to an update that answers false.
  abbrev pub PlaysOn : (S → Type 0) → (S → Type 0) → (S → ℕ) → ℕ → Bool × S → Type 0
  PlaysOn I Q left before (true, q) = I q × (left q < before)
  PlaysOn I Q left before (false, q) = Q q

  module _ (I Q : S → Type 0) (left : S → ℕ)
      (plays : (p : S) → I p → Returns (PlaysOn I Q left (left p)) (update p)) where
    go_on-Returns :
        (before fuel : ℕ)
        → before < suc fuel
        → ((q : S) → I q → left q < fuel → Returns Q (play_on fuel q))
        → (x : Bool × S) → PlaysOn I Q left before x
        → Returns Q (if x.0 then play_on fuel x.1 else ok x.1)
    go_on-Returns before fuel enough k (true, q) (h, less) = k q h (omega arith)
    go_on-Returns before fuel enough k (false, q) h = h

    pub play_on-Returns : (fuel : ℕ) (p : S) → I p → left p < fuel → Returns Q (play_on fuel p)
    unfolding play_on
    play_on-Returns zero p h enough = absurd (omega arith)
    play_on-Returns (suc fuel) p h enough =
        Returns-bind (PlaysOn I Q left (left p)) Q (update p) _ (plays p h)
          (go_on-Returns (left p) fuel enough (play_on-Returns fuel))
