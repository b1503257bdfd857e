-- ===== src/Protrack/Row/Plays.antt =====
-- src/protrack.cpp: a whole row stays inside of the arrays of `CmodPlayer`.
use adplug.Base.{ℕ, zero, suc, length, ◌+◌, ◌-◌, ◌/◌, ◌%◌, ◌^◌, ◌≤◌, ◌<◌, ◌≡◌}
use adplug.Base.{get_elem?-of_lt, All-get_elem?, Bool, true, false, ◌&&◌, ◌==◌, ltb}
use adplug.Base.{if_both, Bool-cases, inl, inr, arith, Outcome, ok, Returns, Returns-bind}
use adplug.Base.{if◌then◌else◌}
use adplug.Protrack.{Tracks, Mod, modify, playnote, set_opl_chip}
use adplug.Protrack.Timer.{info_of}
use adplug.Protrack.Row.{Row, set_instrument, take_note, take_command, does_note, channel_effect}
use adplug.Protrack.Row.{position_jump, pattern_break, row_effect, play_entry, is_active}
use adplug.Protrack.Row.{play_track, play_channel, play_channels}
use adplug.Protrack.Safety.{Shape, IsEntry, IsValid, channel_at-ok}
use adplug.Protrack.Safety.{modify-IsValid, playnote-IsValid, set_opl_chip-IsValid}
use adplug.Protrack.Row.Safe.{set_instrument-IsValid, take_note-IsValid, channel_effect-IsValid}

module _ (s : Shape) (fuel : ℕ) where
  abbrev V : Mod → Type 0
  V = IsValid s fuel

  abbrev pub IsValidRow : Row → Type 0
  IsValidRow r = V r.player

  abbrev R : Outcome Row → Type 0
  R = Returns IsValidRow

  position_jump-IsValid : (info : ℕ) (p : Mod) → V p → V (position_jump info p)
  unfolding position_jump
  position_jump-IsValid info p (song, place) =
      (song, record { channels = place.channels; each = place.each; inside = song.some_row })

  pattern_break-IsValid : (info : ℕ) (p : Mod) → V p → V (pattern_break info p)
  unfolding pattern_break
  pattern_break-IsValid info p (song, place) = (
    song,
    record {
      channels = place.channels;
      each = place.each;
      inside = ground (arith, song.row_count, song.some_row);
    },
  )

  module _ (chan : ℕ) (h : chan < s.chans) where
    row_effect-IsValid : (t : Tracks) (r : Row) → IsValidRow r → R (row_effect chan t r)
    unfolding row_effect
    row_effect-IsValid t r v =
        let p = r.player in
        let (c, ec, hc) = channel_at-ok s fuel chan h p v in
        let info = info_of p c in
        let breaks =
          if_both R r.pattbreak (ok r)
            (ok (record r { pattbreak = true; player = pattern_break info p })) v
            (pattern_break-IsValid info p v) in
        let others =
          Returns-bind V IsValidRow (channel_effect chan t c p) (λ q. ok (record r { player = q }))
            (channel_effect-IsValid s fuel chan h t c p v) (λ q w. w) in
        rw ec (
          if_both R (c.fx == 11) _ _ (position_jump-IsValid info p v) (
            if_both R (c.fx == 13) _ _ breaks
              (if_both R (c.fx == 14 && c.info1 == 8) _ _ v (if_both R (c.fx == 29) _ _ v others))))

    play_entry-IsValid :
        (t : Tracks) (r : Row) → IsEntry s t → IsValidRow r → R (play_entry chan t r)
    unfolding play_entry take_command
    play_entry-IsValid t r entry v =
        Returns-bind V IsValidRow (set_instrument chan t r.player) _
          (set_instrument-IsValid s fuel chan h t r.player entry v)
          (λ p1 v1.
            Returns-bind V IsValidRow (take_note chan t p1) _
              (take_note-IsValid s fuel chan h t p1 v1)
              (λ p2 v2.
                Returns-bind V IsValidRow (modify chan (take_command t) p2) _
                  (modify-IsValid s fuel chan h _ (λ c hc. hc) p2 v2)
                  (λ p3 v3.
                    Returns-bind V IsValidRow (if does_note t then playnote chan p3 else ok p3) _
                      (if_both (Returns V) (does_note t) _ _ (playnote-IsValid s fuel chan h p3 v3)
                        v3)
                      (λ p4. row_effect-IsValid t (record r { player = p4 })))))

    is_active-ok : (p : Mod) → V p → (b : Bool) × (is_active chan p ≡ ok b)
    unfolding is_active
    is_active-ok p (song, place) =
        let low : ltb 31 chan ≡ false = ground (arith, song.few_channels) in
        (p.activechan / 2 ^ (31 - chan) % 2 == 1, rw low)

    play_track-IsValid :
        (row track : ℕ) (r : Row)
        → row < s.rows
        → track ≤ length r.player.tracks
        → IsValidRow r
        → R (play_track row track chan r)
    unfolding play_track
    play_track-IsValid row track r hr inside v = elim (Bool-cases (track == 0)) [
      | inl no_track ↦ rw (no_track, Returns) v
      | inr one ↦
          let p = r.player in
          let (rows, ew) = get_elem?-of_lt p.tracks (track - 1) (ground arith) in
          let (height, entries) = All-get_elem? _ p.tracks (track - 1) rows v.0.whole_tracks ew in
          let (t, et) = get_elem?-of_lt rows row (omega arith) in
          let entry : IsEntry s t = All-get_elem? (IsEntry s) rows row t entries et in
          rw (one, ew, et) (play_entry-IsValid t r entry v)
    ]

    play_channel-IsValid :
        (row pattnr : ℕ) (r : Row)
        → row < s.rows
        → pattnr < s.pats
        → IsValidRow r
        → R (play_channel row pattnr chan r)
    unfolding play_channel
    play_channel-IsValid row pattnr r hr hp v =
        let p = set_opl_chip chan r.player in
        let w : V p = set_opl_chip-IsValid s fuel chan r.player v in
        let (b, eb) = is_active-ok p w in
        let (pattern, ep) = get_elem?-of_lt p.trackord pattnr (omega (arith, w.0.pattern_count)) in
        let (width, bounded) = All-get_elem? _ p.trackord pattnr pattern w.0.whole_patterns ep in
        let (track, et) = get_elem?-of_lt pattern chan (omega arith) in
        let inside = All-get_elem? _ pattern chan track bounded et in
        rw (eb, ep, et)
          (if_both R b _ _ (play_track-IsValid row track (record r { player = p }) hr inside w) w)

  -- The channels from `chan` on.
  pub play_channels-IsValid :
      (n row pattnr chan : ℕ) (r : Row)
      → chan + n ≤ s.chans
      → row < s.rows
      → pattnr < s.pats
      → IsValidRow r
      → R (play_channels n row pattnr chan r)
  unfolding play_channels
  play_channels-IsValid zero row pattnr chan r inside hr hp v = v
  play_channels-IsValid (suc n) row pattnr chan r inside hr hp v =
      let h : chan < s.chans = omega arith in
      Returns-bind IsValidRow IsValidRow (play_channel row pattnr chan r) _
        (play_channel-IsValid chan h row pattnr r hr hp v)
        (λ q w. play_channels-IsValid n row pattnr (chan + 1) q (omega arith) hr hp w)
