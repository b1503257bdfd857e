-- ===== src/Protrack/Timer/Keeps.antt =====
-- src/protrack.cpp: the vibrato reads inside of its table, and it and the counted slides keep the
-- places that a channel names in tables and lists.
use adplug.Base.{ℕ, zero, suc, ◌+◌, ◌-◌, ◌%◌, ◌<◌, ◌==◌, ltb, leb, ◌&&◌}
use adplug.Base.{if◌then◌else◌, if_both, get_elem?-of_lt, Bool-cases, inl, inr, arith}
use adplug.Base.{Returns, Returns-bind}
use adplug.Protrack.{Channel, slide_up}
use adplug.Protrack.Timer.{vibratotab, vibrato_step, vibrato_steps, counted_slides}
use adplug.Protrack.Safety.{Shape, IsChannel}
use adplug.Protrack.Safety.Keeps.{slide_down-IsChannel, slide_up-IsChannel}

module _ (s : Shape) where
  abbrev P : Channel → Type 0
  P = IsChannel s

  -- A place in the table is one that the table has, wherever the vibrato stands.
  vibrato_step-IsChannel : (depth : ℕ) (c : Channel) → P c → Returns P (vibrato_step depth c)
  unfolding vibrato_step
  vibrato_step-IsChannel depth c0 (hi, ht, ha) =
      let t = (c0.trigger + 1) % 64 in
      let h : P (record c0 { trigger = t }) = (hi, omega arith, ha) in
      let read = λ (i : ℕ) (b : i < 32). get_elem?-of_lt vibratotab i (omega arith) in
      elim (Bool-cases (leb 16 t && ltb t 48)) [
        | inl mid ↦
            rw (mid, (read (t - 16) (ground arith)).1, Returns) (slide_down-IsChannel s _ _ h)
        | inr out ↦ elim (Bool-cases (ltb t 16)) [
          | inl low ↦
              rw (out, low, (read (t + 16) (ground arith)).1, Returns) (slide_up-IsChannel s _ _ h)
          | inr high ↦
              rw (out, high, (read (t - 48) (ground arith)).1, Returns) (slide_up-IsChannel s _ _ h)
        ]
      ]

  pub vibrato_steps-IsChannel :
      (n depth : ℕ) (c : Channel) → P c → Returns P (vibrato_steps n depth c)
  unfolding vibrato_steps
  vibrato_steps-IsChannel zero depth c h = h
  vibrato_steps-IsChannel (suc n) depth c h =
      Returns-bind P P (vibrato_step depth c) _ (vibrato_step-IsChannel depth c h)
        (vibrato_steps-IsChannel n depth)

  pub counted_slides-IsChannel : (c : Channel) → P c → P (counted_slides c)
  unfolding counted_slides
  counted_slides-IsChannel c h =
      let u = slide_up 1 c in
      let c1 = if c.info1 == 0 then c else (record u { info1 = u.info1 - 1 }) in
      let h1 : P c1 = if_both P (c.info1 == 0) _ _ h (slide_up-IsChannel s 1 c h) in
      if_both P (c.info2 == 0) _ _ h1 (slide_down-IsChannel s 1 c1 h1)
