-- ===== src/Capture/Imf/Playback.antt =====
-- src/imf.cpp: `update` ends and stays in the song, and plays it from its first event to its last.
use adplug.Base.{ℕ, zero, suc, ◌+◌, ◌≤◌, ◌<◌, ◌≡◌, ◌≢◌, refl, sym, ap, ◌∙◌, arith, List, [], ◌∷◌}
use adplug.Base.{drop, length, get_elem?, some, Bool, true, false, ◌&&◌}
use adplug.Base.{◌==◌, ltb, leb, Bool-cases, ◌⊎◌, inl, inr, get_elem?-of_lt}
use adplug.Base.{drop-of_get_elem?, drop-of_le, Outcome, Returns, Returns-bind, Returns-map}
use adplug.Base.{◌-◌}
use adplug.Base.Loops.{play_on, play_on-Returns, PlaysOn}
use adplug.Base.Opl.{Opl, write, init}
use native.Mathlib.Numerals.{add-one}
use adplug.Capture.Imf.{Imf, Event, play_event, play_loop, end_update, update, rewind}

pub record IsValid (p : Imf) : Type 0 where
  pub all_there : length p.events ≡ p.size
  pub in_song : p.pos < p.size

-- The writes of the events, in order, on top of the calls so far.
pub write_all : List Event → Opl → Opl
write_all [] o = o
write_all (e ∷ es) o = write_all es (write e.reg e.val ∷ o)

-- The calls that the chip has received when the rest of the song has been played.
abbrev pub total : Imf → Opl
total p = write_all (drop p.pos p.events) p.opl

-- What `update` leaves alone.
pub record IsSameSong (p q : Imf) : Type 0 where
  pub events : q.events ≡ p.events
  pub size : q.size ≡ p.size
  pub rate : q.rate ≡ p.rate

-- After the loop of `update`: later in the song, at its end or at an event with a delay.
pub record IsPlayed (p q : Imf) : Type 0 where
  pub same : IsSameSong p q
  pub later : p.pos < q.pos
  pub inside : q.pos ≤ q.size
  pub stops : (q.pos ≡ q.size) ⊎ (q.del ≢ 0)
  pub not_over : q.songend ≡ p.songend
  pub writes : total q ≡ total p

total-play_event :
    (p : Imf) (e : Event) → get_elem? p.events p.pos ≡ some e → total (play_event p e) ≡ total p
unfolding play_event write_all
total-play_event p e here = rw (add-one, drop-of_get_elem? p.events p.pos e here)

module _ (p : Imf) (e : Event) (here : get_elem? p.events p.pos ≡ some e) where
  -- A round before what the loop has played.
  IsPlayed-after : (q : Imf) → IsPlayed (play_event p e) q → IsPlayed p q
  IsPlayed-after q h = record {
    same =
        unfold play_event in
        record { events = h.same.events; size = h.same.size; rate = h.same.rate };
    later = unfold play_event in omega (arith, h.later);
    inside = h.inside;
    stops = h.stops;
    not_over = unfold play_event in h.not_over;
    writes = h.writes ∙ total-play_event p e here;
  }

  -- The last round.
  IsPlayed-last :
      p.pos < p.size
      → ((play_event p e).del == 0 && ltb (play_event p e).pos (play_event p e).size) ≡ false
      → IsPlayed p (play_event p e)
  IsPlayed-last inside done = record {
    same = unfold play_event in record { events = refl; size = refl; rate = refl };
    later = unfold play_event in omega arith;
    inside = unfold play_event in omega arith;
    stops = unfold play_event in stops_by (unfold play_event in done);
    not_over = unfold play_event in refl;
    writes = total-play_event p e here;
  }
    where
      stops_by :
          (e.time == 0 && ltb (p.pos + 1) p.size) ≡ false → (p.pos + 1 ≡ p.size) ⊎ (e.time ≢ 0)
      stops_by h = ground arith

  goes_on :
      IsValid p
      → ((play_event p e).del == 0 && ltb (play_event p e).pos (play_event p e).size) ≡ true
      → IsValid (play_event p e)
  unfolding play_event
  goes_on v more = record { all_there = v.all_there; in_song = ground arith }

pos-play_event :
    (p : Imf) (e : Event) → ((play_event p e).pos ≡ p.pos + 1) × ((play_event p e).size ≡ p.size)
unfolding play_event
pos-play_event p e = (refl, refl)

play_loop-IsPlayed :
    (fuel : ℕ) (p : Imf)
    → IsValid p
    → p.size < p.pos + fuel
    → Returns (IsPlayed p) (play_loop fuel p)
unfolding play_loop
play_loop-IsPlayed zero p v room = absurd (omega (arith, v.in_song))
play_loop-IsPlayed (suc fuel) p v room =
    let (e, here) = get_elem?-of_lt p.events p.pos (omega (arith, v.in_song, v.all_there)) in
    let q = play_event p e in
    rw (here, Returns)
      (elim (Bool-cases (q.del == 0 && ltb q.pos q.size)) [
        | inl more ↦ rw more (
            Returns-map (IsPlayed q) (IsPlayed p) (play_loop fuel q) (IsPlayed-after p e here) (
              play_loop-IsPlayed fuel q (goes_on p e here v more)
                (omega (arith, pos-play_event p e))))
        | inr done ↦ rw (done, Returns) (IsPlayed-last p e here v.in_song done)
      ])

-- What `update` does to a player that has not come to the end of its song, by its answer.
abbrev pub Updated : Imf → Bool × Imf → Type 0
Updated p (true, q) =
    IsValid q
    × IsSameSong p q
    × (p.pos < q.pos)
    × (q.songend ≡ false)
    × (total q ≡ total p)
    × (q.del ≢ 0)
    × (q.timer ≡ (q.rate, q.del))
Updated p (false, q) =
    IsValid q × IsSameSong p q × (q.pos ≡ 0) × (q.songend ≡ true) × (q.opl ≡ total p)

total_over : (p : Imf) → length p.events ≤ p.pos → total p ≡ p.opl
unfolding write_all
total_over p h = rw (drop-of_le p.events p.pos h)

end_update_over :
    (q : Imf)
    → leb q.size q.pos ≡ true
    → end_update q ≡ (false, record q { pos = 0; songend = true })
unfolding end_update
end_update_over q over = simp over

end_update_within :
    (q : Imf)
    → leb q.size q.pos ≡ false
    → q.songend ≡ false
    → end_update q ≡ (true, record q { timer = (q.rate, q.del) })
unfolding end_update
end_update_within q within going = simp (within, going)

end_update-Updated :
    (p q : Imf) → IsValid p → p.songend ≡ false → IsPlayed p q → Updated p (end_update q)
end_update-Updated p q v going h = elim (Bool-cases (leb q.size q.pos)) [
  | inl over ↦ rw (end_update_over q over) (
    record { all_there = length_kept; in_song = omega (arith, h.same.size, v.in_song) },
    record { events = h.same.events; size = h.same.size; rate = h.same.rate },
    refl,
    refl,
    sym (total_over q (ground (arith, length_kept))) ∙ h.writes,
  )
  | inr within ↦ rw (end_update_within q within (h.not_over ∙ going)) (
    record { all_there = length_kept; in_song = ground arith },
    record { events = h.same.events; size = h.same.size; rate = h.same.rate },
    h.later,
    h.not_over ∙ going,
    h.writes,
    ground (arith, h.stops),
    refl,
  )
]
  where
    length_kept : length q.events ≡ q.size
    length_kept = ap length h.same.events ∙ v.all_there ∙ sym h.same.size

-- On a song that is not over `update` ends and reads no event outside of it. It answers `true` at an
-- event with a delay, which sets the timer, and false at the song's end, where the position is back
-- at the start. What it writes and what is left to write are together what was left before it.
pub update-Updated : (p : Imf) → IsValid p → p.songend ≡ false → Returns (Updated p) (update p)
unfolding update
update-Updated p v going =
    Returns-bind (IsPlayed p) (Updated p) (play_loop (suc p.size) p) _
      (play_loop-IsPlayed (suc p.size) p v (omega arith)) (λ q h. end_update-Updated p q v going h)

abbrev pub play_through : ℕ → Imf → Outcome Imf
play_through fuel p = play_on update fuel p

-- The song is over and the chip has received `o`.
abbrev pub Over : Opl → Imf → Type 0
Over o p = (p.songend ≡ true) × (p.opl ≡ o)

-- A song that plays towards the calls `o`.
abbrev Towards : Opl → Imf → Type 0
Towards o p = IsValid p × (p.songend ≡ false) × (total p ≡ o)

abbrev left : Imf → ℕ
left p = p.size - p.pos - 1

Updated-on :
    (o : Opl) (p : Imf)
    → Towards o p
    → (x : Bool × Imf) → Updated p x
    → PlaysOn update (Towards o) (Over o) left (left p) x
Updated-on o p (_, _, towards) (true, q) (v, same, later, going, writes, _, _) =
    ((v, going, writes ∙ towards), omega (arith, same.size, v.in_song, later))
Updated-on o p (_, _, towards) (false, q) (v, same, start, over, writes) = (over, writes ∙ towards)

-- A song with at least one event, all of which are in its array, that is rewound and then updated
-- until update answers false is over after at most as many updates as it has events, and the chip
-- has received the reset, the switch to OPL2 and the writes of all events, each once and in order.
pub play_through-rewind :
    (p : Imf)
    → length p.events ≡ p.size
    → 0 < p.size
    → Returns
        (Over (write_all p.events (write 1 32 ∷ init ∷ p.opl)))
        (play_through p.size (rewind p))
unfolding rewind
play_through-rewind p there some_event =
    let o = write_all p.events (write 1 32 ∷ init ∷ p.opl) in
    play_on-Returns update (Towards o) (Over o) left
      (λ q h. Returns-map (Updated q) _ (update q) (Updated-on o q h) (update-Updated q h.0 h.1))
      p.size (rewind p) (record { all_there = there; in_song = some_event }, refl, refl)
      (omega arith)
