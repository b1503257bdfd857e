-- ===== src/Protrack/Update/Safe.antt =====
-- src/protrack.cpp: `CmodPlayer::update` and `rewind` keep the player's invariant.
use adplug.Base.{◌∙◌, ℕ, zero, suc, ◌+◌, ◌<◌, ◌≡◌, refl, List, [], ◌∷◌, get_elem?}
use adplug.Base.{length, All, map, some, Bool, true, false, ◌==◌, if◌then◌else◌, if_both}
use adplug.Base.{arith, ok, Returns, Returns-bind, bit_and, bit_or, ap}
use adplug.Protrack.{Channel, Mod}
use adplug.Protrack.Row.{Row}
use adplug.Protrack.Update.{no_channel, count_patterns}
use adplug.Protrack.Update.{rewind}
use adplug.Protrack.Safety.{
  Shape, Lands, plays, loops, leads, IsChannel, HasSong, HasPlace, IsValid,
}

module _ (s : Shape) (fuel : ℕ) where
  abbrev V : Mod → Type 0
  V = IsValid s fuel

  -- The player is valid, and its song has not come to an end where `update` says so.
  abbrev pub Kept : Bool × Mod → Type 0
  Kept (true, q) = V q × (q.songend ≡ false)
  Kept (false, q) = V q

  entry :
      (n ord : ℕ) (order : List ℕ)
      → Lands order s.pats n ord
      → (e : ℕ) × (get_elem? order ord ≡ some e)
  entry zero ord order l = elim l [ ]
  entry (suc n) ord order (plays {e = e} there low inside) = (e, there)
  entry (suc n) ord order (loops {e = e} there high same) = (e, there)
  entry (suc n) ord order (leads {e = e} there high rest) = (e, there)

  -- The order list has an entry at every place of the song.
  count_patterns-Returns :
      (n i : ℕ) (order : List ℕ) (nop : ℕ)
      → ((k : ℕ) → k < i + n → Lands order s.pats fuel k)
      → Returns (λ (x : ℕ). Unit {0}) (count_patterns n i order nop)
  unfolding count_patterns
  count_patterns-Returns zero i order nop lands = tt
  count_patterns-Returns (suc n) i order nop lands =
      let (e, there) = entry fuel i order (lands i (omega arith)) in
      rw there (count_patterns-Returns n (i + 1) order _ (λ k h. lands k (omega arith)))

  rewound :
      (channel : List Channel) → 0 < s.insts → All (IsChannel s) (map (λ c. no_channel) channel)
  rewound [] some_inst = tt
  rewound (c ∷ cs) some_inst = ((some_inst, omega arith, omega arith), rewound cs some_inst)

  length-rewound :
      (channel : List Channel) → length (map (λ c. no_channel) channel) ≡ length channel
  length-rewound [] = refl
  length-rewound (c ∷ cs) = ap suc (length-rewound cs)

  -- `rewind` of a player with a whole song and at least one instrument ends and leaves it valid,
  -- whatever its channels held.
  pub rewind-IsValid :
      (p : Mod)
      → HasSong s fuel p.inst p.tracks p.order p.arplist p.arpcmd p.trackord p.length p.restartpos
          p.notetable p.nrows p.nchans
      → length p.channel ≡ s.chans
      → 0 < s.insts
      → Returns V (rewind p)
  unfolding rewind
  rewind-IsValid p song count some_inst =
      let tremolo : ℕ = if bit_and p.flags 16 == 0 then 0 else 128 in
      let regbd = if bit_and p.flags 32 == 0 then tremolo else bit_or tremolo 64 in
      let place : HasPlace s (map (λ c. no_channel) p.channel) 0 = record {
        channels = length-rewound p.channel ∙ count;
        each = rewound p.channel some_inst;
        inside = song.some_row;
      } in
      Returns-bind (λ (x : ℕ). Unit {0}) V
        (if p.nop == 0 then count_patterns p.length 0 p.order 0 else ok p.nop) _
        (if_both (Returns (λ (x : ℕ). Unit {0})) (p.nop == 0) _ _
          (count_patterns-Returns p.length 0 p.order 0 (λ k h. song.lands k (omega arith))) tt)
        (λ nop counted. if_both V (regbd == 0) _ _ (song, place) (song, place))
