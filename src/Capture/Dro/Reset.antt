-- ===== src/Capture/Dro/Reset.antt =====
-- src/dro.cpp: what `CdroPlayer::rewind` leaves in the chip.
use adplug.Base.{ℕ, zero, suc, ◌+◌, ◌≤◌, ◌<◌, ◌≡◌, refl, arith, true, ◌&&◌, ◌==◌}
use adplug.Base.{Option, some, ◌∷◌, inl, inr, order_cases, ◌⊎◌, if_both}
use adplug.Base.Opl.{Opl, write, setchip, init, selected, register}
use adplug.Capture.Dro.{Dro, clear_registers, rewind}

selected-clear_registers : (n i : ℕ) (o : Opl) → selected (clear_registers n i o) ≡ selected o
unfolding clear_registers selected
selected-clear_registers zero i o = refl
selected-clear_registers (suc n) i o = selected-clear_registers n (i + 1) (write i 0 ∷ o)

-- On the other chip the loop leaves the registers alone, and on the selected one it clears those that
-- it goes over.
register-clear_registers :
    (n i chip reg : ℕ) (o : Opl)
    → ((chip ≡ selected o) × (i ≤ reg) × (reg < i + n)) ⊎ (register chip reg o ≡ some 0)
    → register chip reg (clear_registers n i o) ≡ some 0
unfolding clear_registers register selected
register-clear_registers zero i chip reg o (inl (_, low, high)) = absurd (omega arith)
register-clear_registers zero i chip reg o (inr e) = e
register-clear_registers (suc n) i chip reg o (inr e) =
    register-clear_registers n (i + 1) chip reg (write i 0 ∷ o)
      (inr (if_both (λ (v : Option ℕ). v ≡ some 0) (selected o == chip && i == reg) _ _ refl e))
register-clear_registers (suc n) i chip reg o (inl (same, low, high)) =
    register-clear_registers n (i + 1) chip reg (write i 0 ∷ o) (elim (order_cases i reg) [
      | inl lt ↦ inl (same, omega arith, omega arith)
      | inr (inl e) ↦
          let hit : (selected o == chip && i == reg) ≡ true = ground arith in inr (rw hit)
      | inr (inr gt) ↦ absurd (omega arith)
    ])

-- After a rewind every register of both chips is zero, and the first chip is selected.
pub rewind-cleared :
    (p : Dro) (chip reg : ℕ)
    → chip < 2
    → reg < 256
    → (register chip reg (rewind p).opl ≡ some 0) × (selected (rewind p).opl ≡ 0)
unfolding rewind register selected
rewind-cleared p chip reg hc hr =
    let first = clear_registers 256 0 (setchip 0 ∷ init ∷ p.opl) in
    (
      register-clear_registers 256 0 chip reg (setchip 1 ∷ first) (elim (order_cases chip 1) [
        | inl lt ↦ inr (
            register-clear_registers 256 0 chip reg (setchip 0 ∷ init ∷ p.opl)
              (inl (omega arith, omega arith, omega arith)))
        | inr (inl e) ↦ inl (e, omega arith, omega arith)
        | inr (inr gt) ↦ absurd (omega arith)
      ]),
      refl,
    )
