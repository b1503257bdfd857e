-- ===== src/Hsc/Update/Channel.antt =====
-- src/hsc.cpp: the steps of `update` for one channel stay inside of the player's arrays.
use adplug.Base.{ℕ, ◌-◌, ◌*◌, ◌/◌, ◌%◌, ◌<◌, ◌≡◌, refl, bit_and}
use adplug.Base.{get_elem?-of_lt, inl, inr, arith, Bool, true, false, not, ◌||◌, ◌==◌}
use adplug.Base.{if_both}
use adplug.Base.{Bool-cases, ok, Returns, Returns-bind}
use adplug.Base.Bits.{bit_and-15}
use adplug.Player.{note_table}
use adplug.Hsc.{Hsc, Note, Chan, and_not, instr_at}
use adplug.Hsc.{setfreq}
use adplug.Hsc.Update.{set_chan, global_effect, slide_by, slide_effect, carrier_volume}
use adplug.Hsc.Update.{modulator_volume, instrument_volume, feedback, effect_step, play_drum}
use adplug.Hsc.Update.{pause_note, play_note, note_step, reset_slide, fade, channel_step}
use adplug.Hsc.Safety.{IsValid, IsSafe, HasPlace-set_chan, HasPlace-set_adl}
use adplug.Hsc.Safety.{HasPlace-move}
use adplug.Hsc.Safety.{
  instr_at-ok, channel_at-ok, op_table-ok, setfreq-IsPlayer, setvolume-IsPlayer,
}
use adplug.Hsc.Safety.{setinstr-IsPlayer}

slide_by-inst : (up : Bool) (eff_op : ℕ) (c : Chan) → (slide_by up eff_op c).inst ≡ c.inst
unfolding slide_by
slide_by-inst true eff_op c = refl
slide_by-inst false eff_op c = refl

set_chan-IsValid :
    (chan : ℕ) (c : Chan) (p : Hsc) → IsValid p → c.inst < 128 → IsValid (set_chan chan c p)
unfolding set_chan
set_chan-IsValid chan c p (song, place) h =
    (song, HasPlace-set_chan p.channel p.adl_freq p.pattpos p.songpos chan c h place)

global_effect-IsValid : (eff_op : ℕ) (p : Hsc) → IsValid p → IsValid (global_effect eff_op p)
unfolding global_effect
global_effect-IsValid eff_op p v = if_both IsValid (eff_op == 1) _ _ v (
    if_both IsValid (eff_op == 3) _ _ v
      (if_both IsValid (eff_op == 5) _ _ v (if_both IsValid (eff_op == 6) _ _ v v)))

module _ (chan : ℕ) (h : chan < 9) where
  slide_effect-IsValid :
      (note effect eff_op : ℕ) (p : Hsc)
      → IsValid p
      → Returns IsValid (slide_effect chan note effect eff_op p)
  unfolding slide_effect
  slide_effect-IsValid note effect eff_op p v =
      let (c, ec, hc) = channel_at-ok p v chan h in
      let c' = slide_by (not (bit_and effect 0x10 == 0)) eff_op c in
      let v' : IsValid (set_chan chan c' p) = set_chan-IsValid chan c' p v (rw slide_by-inst hc) in
      rw ec (if_both (Returns IsValid) (note == 0) _ _ (setfreq-IsPlayer chan c'.freq _ v' h) v')

  module _ (inst : ℕ) (hi : inst < 128) (p : Hsc) (v : IsValid p) where
    ins8 : (b : ℕ) × (instr_at p inst 8 ≡ ok b)
    ins8 = instr_at-ok p v.0 inst 8 hi (omega arith)

    ins3 : (b : ℕ) × (instr_at p inst 3 ≡ ok b)
    ins3 = instr_at-ok p v.0 inst 3 hi (omega arith)

    ins2 : (b : ℕ) × (instr_at p inst 2 ≡ ok b)
    ins2 = instr_at-ok p v.0 inst 2 hi (omega arith)

    feedback-IsValid : (eff_op : ℕ) → Returns IsValid (feedback chan eff_op inst p)
    unfolding feedback
    feedback-IsValid eff_op = rw (ins8.1, Returns) v

    carrier_volume-IsValid : (vol : ℕ) → Returns IsValid (carrier_volume chan vol inst p)
    unfolding carrier_volume
    carrier_volume-IsValid vol = rw ((op_table-ok chan h).1, ins2.1, Returns) v

    modulator_volume-IsValid : (vol : ℕ) → Returns IsValid (modulator_volume chan vol inst p)
    unfolding modulator_volume
    modulator_volume-IsValid vol =
        rw ((op_table-ok chan h).1, ins8.1, ins3.1)
          (if_both (Returns IsValid) (bit_and ins8.0 1 == 0) _ _ v v)

  instrument_volume-IsValid :
      (vol inst : ℕ) (p : Hsc)
      → inst < 128
      → IsValid p
      → Returns IsValid (instrument_volume chan vol inst p)
  unfolding instrument_volume
  instrument_volume-IsValid vol inst p hi v =
      Returns-bind IsValid IsValid (carrier_volume chan vol inst p) _
        (carrier_volume-IsValid inst hi p v vol)
        (λ q w.
          rw ((op_table-ok chan h).1, (ins8 inst hi q w).1, (ins3 inst hi q w).1)
            (if_both (Returns IsValid) (bit_and (ins8 inst hi q w).0 1 == 0) _ _ w w))

  effect_step-IsValid :
      (note effect inst : ℕ) (p : Hsc)
      → inst < 128
      → IsValid p
      → Returns IsValid (effect_step chan note effect inst p)
  unfolding effect_step
  effect_step-IsValid note effect inst p hi v =
      let R = Returns IsValid in
      let kind = bit_and effect 0xf0 in
      let eff_op = bit_and effect 0x0f in
      let at_order : IsValid (record p { songpos = eff_op }) = (
        v.0,
        HasPlace-move p.channel p.adl_freq p.pattpos p.songpos p.pattpos eff_op v.1.row
            (omega (arith, bit_and-15 effect)) v.1,
      ) in
      if_both R (kind == 0) _ _ (global_effect-IsValid eff_op p v) (
        if_both R (kind == 0x20 || kind == 0x10) _ _ (slide_effect-IsValid note effect eff_op p v) (
          if_both R (kind == 0x60) _ _ (feedback-IsValid inst hi p v eff_op) (
            if_both R (kind == 0xa0) _ _ (carrier_volume-IsValid inst hi p v (eff_op * 4)) (
              if_both R (kind == 0xb0) _ _ (modulator_volume-IsValid inst hi p v (eff_op * 4)) (
                if_both R (kind == 0xc0) _ _ (instrument_volume-IsValid (eff_op * 4) inst p hi v)
                  (if_both R (kind == 0xd0) _ _ at_order (if_both R (kind == 0xf0) _ _ v v)))))))

  play_drum-IsValid : (p : Hsc) → IsValid p → IsValid (play_drum chan p)
  unfolding play_drum
  play_drum-IsValid p v =
      if_both IsValid (chan == 6) _ _ v
        (if_both IsValid (chan == 7) _ _ v (if_both IsValid (chan == 8) _ _ v v))

  pause_note-IsValid : (p : Hsc) → IsValid p → Returns IsValid (pause_note chan p)
  unfolding pause_note
  pause_note-IsValid p v =
      let (a, e) = get_elem?-of_lt p.adl_freq chan (omega (arith, v.1.adl_count)) in
      rw (e, Returns) (v.0, HasPlace-set_adl p.channel p.adl_freq p.pattpos p.songpos chan _ v.1)

  play_note-IsValid :
      (note inst : ℕ) (p : Hsc)
      → inst < 128
      → IsValid p
      → Returns IsValid (play_note chan note inst p)
  unfolding play_note
  play_note-IsValid note inst p hi v =
      let (c, ec, hc) = channel_at-ok p v chan h in
      let (base, eb) = get_elem?-of_lt note_table (note % 12) (omega arith) in
      let (b, e11) = instr_at-ok p v.0 inst 11 hi (omega arith) in
      rw (ec, eb, e11)
        (Returns-bind IsValid IsValid (setfreq chan _ _) _
          (setfreq-IsPlayer chan _ _
            (
              v.0,
              HasPlace-set_adl _ p.adl_freq p.pattpos p.songpos chan _
                  (HasPlace-set_chan p.channel p.adl_freq p.pattpos p.songpos chan _ hc v.1),
            )
            h)
          (λ q w. if_both IsValid q.mode6 _ _ (play_drum-IsValid q w) w))

  note_step-IsValid :
      (note inst : ℕ) (p : Hsc)
      → inst < 128
      → IsValid p
      → Returns IsValid (note_step chan note inst p)
  unfolding note_step
  note_step-IsValid note inst p hi v =
      if_both (Returns IsValid) (note - 1 == 0x7f - 1 || not (and_not ((note - 1) / 12) 7 == 0)) _ _
        (pause_note-IsValid p v) (play_note-IsValid _ inst p hi v)

  reset_slide-IsValid : (note : ℕ) (p : Hsc) → IsValid p → Returns IsValid (reset_slide chan note p)
  unfolding reset_slide
  reset_slide-IsValid note p v =
      let (c, ec, hc) = channel_at-ok p v chan h in
      rw (ec, Returns)
        (if_both IsValid (note == 0) _ _ v (set_chan-IsValid chan (record c { slide = 0 }) p v hc))

  fade-IsValid : (p : Hsc) → IsValid p → Returns IsValid (fade chan p)
  unfolding fade
  fade-IsValid p v =
      if_both (Returns IsValid) (p.fadein == 0) _ _ v
        (setvolume-IsPlayer chan (p.fadein * 2) (p.fadein * 2) p v h)

  pub channel_step-IsValid :
      (n : Note) (p : Hsc) → IsSafe n → IsValid p → Returns IsValid (channel_step chan n p)
  unfolding channel_step
  channel_step-IsValid n p safe v = elim (Bool-cases (bit_and n.note 128 == 0)) [
    | inl plain ↦
        let (c, ec, hc) = channel_at-ok p v chan h in
        rw (plain, ec)
          (Returns-bind IsValid IsValid (reset_slide chan n.note p) _
            (reset_slide-IsValid n.note p v)
            (λ p1 v1.
              Returns-bind IsValid IsValid (effect_step chan n.note n.effect c.inst p1) _
                (effect_step-IsValid n.note n.effect c.inst p1 hc v1)
                (λ p2 v2.
                  Returns-bind IsValid IsValid (fade chan p2) _ (fade-IsValid p2 v2) (λ p3 v3.
                    if_both (Returns IsValid) (n.note == 0) _ _ v3
                      (note_step-IsValid n.note c.inst p3 hc v3)))))
    | inr sets ↦
        let low : n.effect < 128 = ground arith in
        rw sets (setinstr-IsPlayer chan n.effect p v h low)
  ]
