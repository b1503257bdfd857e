-- ===== src/Protrack/Update/Orders.antt =====
-- src/protrack.cpp: `resolve_order`. Where the order list leads to a pattern it finds that pattern; two
-- entries that jump to one another have it jump for ever.
use adplug.Base.{ℕ, zero, suc, ◌+◌, ◌-◌, ◌<◌, ◌≡◌, ◌≢◌, refl, get_elem?, some, Bool, true}
use adplug.Base.{
  false, ◌==◌, ltb, lt→ltb, le→ltb_false, sym, ap, ◌∙◌, if_both, Bool-cases, inl, inr, arith,
}
use adplug.Base.{ok, stuck, Returns}
use adplug.Protrack.{Mod}
use adplug.Protrack.Timer.{timer_effects}
use adplug.Protrack.Update.{jump, jumps, resolve_order, play_row, update}
use adplug.Protrack.Safety.{Shape, Lands, plays, loops, leads, IsValid}

module _ (s : Shape) (fuel : ℕ) where
  -- The position found is that of a pattern.
  abbrev pub Resolved : Bool × Mod → Type 0
  Resolved (found, q) =
      IsValid s fuel q
      × (found ≡ true → (e : ℕ) × (get_elem? q.order q.ord ≡ some e) × (e < s.pats))

  jump-IsValid : (neword : ℕ) (p : Mod) → IsValid s fuel p → IsValid s fuel (jump neword p)
  unfolding jump
  jump-IsValid neword p v = v

  jumps-Resolved :
      (n : ℕ) (p : Mod) (ord : ℕ)
      → IsValid s fuel p
      → p.ord ≡ ord
      → Lands p.order s.pats n ord
      → Returns Resolved (jumps n p)
  unfolding jumps jump
  jumps-Resolved zero p ord v at l = elim l [ ]
  jumps-Resolved (suc n) p ord v at (plays {e = e} there low inside) =
      let found : get_elem? p.order p.ord ≡ some e = ap (get_elem? p.order) at ∙ there in
      rw (found, lt→ltb e 128 low, Returns) (v, λ yes_found. (e, found, inside))
  jumps-Resolved (suc n) p ord v at (loops {e = e} there high same) =
      let found : get_elem? p.order p.ord ≡ some e = ap (get_elem? p.order) at ∙ there in
      let itself : (e - 128 == p.ord) ≡ true = ground arith in
      rw (found, le→ltb_false e 128 high, itself, Returns)
        (jump-IsValid (e - 128) p v, λ not_found. cc)
  jumps-Resolved (suc n) p ord v at (leads {e = e} there high rest) =
      let found : get_elem? p.order p.ord ≡ some e = ap (get_elem? p.order) at ∙ there in
      rw (found, le→ltb_false e 128 high)
        (if_both (Returns Resolved) (e - 128 == p.ord) _ _
          (jump-IsValid (e - 128) p v, λ not_found. cc)
          (jumps-Resolved n (jump (e - 128) p) (e - 128) (jump-IsValid (e - 128) p v) refl rest))

  -- `resolve_order` ends on a valid song, wherever the song stands, and finds a pattern or says that it
  -- found none.
  pub resolve_order-Resolved :
      (p : Mod) → IsValid s fuel p → Returns Resolved (resolve_order fuel p)
  unfolding resolve_order
  resolve_order-Resolved p v = elim (Bool-cases (ltb p.ord p.length)) [
    | inl inside ↦ rw inside (jumps-Resolved fuel p p.ord v refl (v.0.lands p.ord (ground arith)))
    | inr outside ↦ rw (outside, Returns) (v, λ found. v.0.restarts)
  ]

jumps-circle :
    (fuel a b : ℕ) (p : Mod)
    → a ≢ b
    → get_elem? p.order a ≡ some (128 + b)
    → get_elem? p.order b ≡ some (128 + a)
    → p.ord ≡ a
    → jumps fuel p ≡ stuck
unfolding jumps jump
jumps-circle zero a b p apart to_b to_a at = refl
jumps-circle (suc fuel) a b p apart to_b to_a at =
    let found : get_elem? p.order p.ord ≡ some (128 + b) = ap (get_elem? p.order) at ∙ to_b in
    let elsewhere : (128 + b - 128 == p.ord) ≡ false = ground arith in
    let next : 128 + b - 128 ≡ b = omega arith in
    let more : jumps fuel (jump (128 + b - 128) p) ≡ stuck =
      jumps-circle fuel b a (jump (128 + b - 128) p) (λ e. apart (sym e)) to_a to_b next in
    rw (found, le→ltb_false (128 + b) 128 (omega arith), elsewhere) more

-- Where two entries of the order list jump to one another, `update` never returns from a tick that
-- plays a row at one of them, with any number of jumps.
pub update-circle :
    (fuel a b : ℕ) (p q : Mod)
    → p.speed ≢ 0
    → timer_effects p.nchans 0 p ≡ ok q
    → q.del ≡ 0
    → q.ord ≡ a
    → a < q.length
    → a ≢ b
    → get_elem? q.order a ≡ some (128 + b)
    → get_elem? q.order b ≡ some (128 + a)
    → update fuel p ≡ stuck
unfolding update play_row resolve_order
update-circle fuel a b p q plays_on ticked no_wait at inside apart to_b to_a =
    let running : (p.speed == 0) ≡ false = ground arith in
    let due : (q.del == 0) ≡ true = ground arith in
    let in_list : ltb q.ord q.length ≡ true = ground arith in
    let round_and_round = jumps-circle fuel a b q apart to_b to_a at in
    rw (running, ticked, due, in_list, round_and_round) refl
