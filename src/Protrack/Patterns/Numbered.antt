-- ===== src/Protrack/Patterns/Numbered.antt =====
-- src/protrack.cpp: `init_trackord` gives every channel of every pattern a track of its own.
use adplug.Base.{ℕ, zero, suc, ◌+◌, ◌*◌, ◌/◌, ◌%◌, ◌^◌, ◌<◌, ◌≡◌, ◌≢◌, refl, sym, ap, ◌∙◌, arith}
use adplug.Base.{List, length, get_elem?, set, replicate, All, All-set, All-get_elem?, none, some}
use adplug.Base.{
  Option, All-replicate, length-replicate, length-set, get_elem?-of_lt, get_elem?-set_self,
}
use adplug.Base.{get_elem?-set_ne, order_cases, inl, inr, Returns, Returns-bind}
use adplug.Protrack.{Channel, Mod}
use adplug.Protrack.Safety.{Shape, IsPattern, IsTrack}
use adplug.Protrack.Patterns.{realloc_patterns, number_tracks, init_trackord, no_entry}
use native.Mathlib.Nat.{div-lt_iff_lt-mul, mod-lt, div-add-mod}

-- The track of a channel of a pattern.
abbrev pub track_in : Option (List ℕ) → ℕ → Option ℕ
track_in none chan = none
track_in (some pattern) chan = get_elem? pattern chan

abbrev pub track_at : List (List ℕ) → ℕ → ℕ → Option ℕ
track_at trackord pat chan = track_in (get_elem? trackord pat) chan

track_at-set_self :
    (t : List (List ℕ)) (pat chan v : ℕ) (pattern : List ℕ)
    → get_elem? t pat ≡ some pattern
    → pat < length t
    → chan < length pattern
    → track_at (set t pat (set pattern chan v)) pat chan ≡ some v
track_at-set_self t pat chan v pattern there hp hc =
    rw (get_elem?-set_self t pat (set pattern chan v) hp) (get_elem?-set_self pattern chan v hc)

track_at-set_ne :
    (t : List (List ℕ)) (pat chan pat' chan' v : ℕ) (pattern : List ℕ)
    → get_elem? t pat ≡ some pattern
    → pat < length t
    → ((pat ≡ pat') → chan ≢ chan')
    → track_at (set t pat (set pattern chan v)) pat' chan' ≡ track_at t pat' chan'
track_at-set_ne t pat chan pat' chan' v pattern there hp apart = elim (order_cases pat pat') [
  | inl lt ↦ rw (get_elem?-set_ne t pat pat' (set pattern chan v) (λ e. absurd (omega arith))) refl
  | inr (inl same) ↦
      let at : get_elem? (set t pat (set pattern chan v)) pat' ≡ some (set pattern chan v) =
        ap (get_elem? (set t pat (set pattern chan v))) (sym same)
        ∙ get_elem?-set_self t pat (set pattern chan v) hp in
      let there' : get_elem? t pat' ≡ some pattern = ap (get_elem? t) (sym same) ∙ there in
      rw (at, there') (get_elem?-set_ne pattern chan chan' v (apart same))
  | inr (inr gt) ↦
      rw (get_elem?-set_ne t pat pat' (set pattern chan v) (λ e. absurd (omega arith))) refl
]

module _ (s : Shape) where
  abbrev tracks : ℕ
  tracks = s.pats * s.chans

  -- The tracks below `n` are given out.
  pub record Given (n : ℕ) (t : List (List ℕ)) : Type 0 where
    pub patterns : length t ≡ s.pats
    pub whole : All (IsPattern s tracks) t
    pub own : (i : ℕ) → i < n → track_at t (i / s.chans) (i % s.chans) ≡ some (suc i)

  -- A place is the place of one track only.
  same_track : (i j : ℕ) → i / s.chans ≡ j / s.chans → i % s.chans ≡ j % s.chans → i ≡ j
  same_track i j e e' =
      sym (div-add-mod i s.chans)
      ∙ ap (λ q. s.chans * q + i % s.chans) e
      ∙ ap (λ r. s.chans * (j / s.chans) + r) e'
      ∙ div-add-mod j s.chans

  own_next :
      (t next : List (List ℕ)) (i : ℕ)
      → ((k : ℕ) → k < i → track_at t (k / s.chans) (k % s.chans) ≡ some (suc k))
      → track_at next (i / s.chans) (i % s.chans) ≡ some (suc i)
      → ((a b : ℕ) → (i / s.chans ≡ a → i % s.chans ≢ b) → track_at next a b ≡ track_at t a b)
      → (j : ℕ) → j < i + 1
      → track_at next (j / s.chans) (j % s.chans) ≡ some (suc j)
  own_next t next i own written kept j h = elim (order_cases j i) [
    | inl lt ↦
        let elsewhere : i / s.chans ≡ j / s.chans → i % s.chans ≢ j % s.chans =
          λ e e'. absurd (omega (arith, same_track i j e e')) in
        kept (j / s.chans) (j % s.chans) elsewhere ∙ own j lt
    | inr (inl same) ↦
        let e : j ≡ i = same in
        ap (λ k. track_at next (k / s.chans) (k % s.chans)) e
        ∙ written
        ∙ ap (λ k. some (suc k)) (sym e)
    | inr (inr gt) ↦ absurd (omega arith)
  ]

  module _ (some_chan : 0 < s.chans) where
    number_tracks-Given :
        (n i : ℕ) (t : List (List ℕ))
        → tracks < 2 ^ 16
        → i + n ≡ tracks
        → Given i t
        → Returns (Given tracks) (number_tracks n i s.chans t)
    unfolding number_tracks
    number_tracks-Given zero i t few end given = record {
      patterns = given.patterns;
      whole = given.whole;
      own = λ j h. given.own j (omega arith);
    }
    number_tracks-Given (suc n) i t few end given =
        let pat = i / s.chans in
        let chan = i % s.chans in
        let hp : pat < s.pats = (div-lt_iff_lt-mul some_chan).1 (omega arith) in
        let hc : chan < s.chans = mod-lt i some_chan in
        let (pattern, there) = get_elem?-of_lt t pat (omega (arith, given.patterns)) in
        let (width, bounded) = All-get_elem? (IsPattern s tracks) t pat pattern given.whole there in
        let (old, at) = get_elem?-of_lt pattern chan (omega arith) in
        let v = (i + 1) % 2 ^ 16 in
        let exact : v ≡ suc i = omega arith in
        let next = set t pat (set pattern chan v) in
        let whole' : IsPattern s tracks (set pattern chan v) =
          (length-set pattern chan v ∙ width, All-set _ pattern chan v (omega arith) bounded) in
        rw (there, at)
          (number_tracks-Given n (i + 1) next few (omega arith) (record {
            patterns = length-set t pat (set pattern chan v) ∙ given.patterns;
            whole = All-set (IsPattern s tracks) t pat (set pattern chan v) whole' given.whole;
            own =
                own_next t next i given.own
                  (track_at-set_self t pat chan v pattern there (omega (arith, given.patterns))
                      (omega arith)
                    ∙ ap some exact)
                  (λ a b apart.
                    track_at-set_ne t pat chan a b v pattern there (omega (arith, given.patterns))
                      apart);
          }))

    -- `init_trackord` after `realloc_patterns` ends inside of the arrays, where there is a channel and
    -- the tracks are fewer than 65536. Every entry of the track list names a track of the song, and
    -- each track is played by the one channel of the one pattern that come to its number.
    pub init_trackord-realloc_patterns :
        (memory : List Channel) (p : Mod)
        → tracks < 2 ^ 16
        → Returns
            (λ (q : Mod).
              (length q.tracks ≡ tracks) × All (IsTrack s) q.tracks × Given tracks q.trackord)
            (init_trackord (realloc_patterns s.pats s.rows s.chans memory p))
    unfolding init_trackord realloc_patterns
    init_trackord-realloc_patterns memory p few =
        let empty : List (List ℕ) = replicate {A = List ℕ} s.pats (replicate s.chans 0) in
        let row : IsPattern s tracks (replicate s.chans 0) =
          (length-replicate s.chans 0, All-replicate _ s.chans 0 (omega arith)) in
        let rows : IsTrack s (replicate s.rows no_entry) =
          (length-replicate s.rows no_entry, All-replicate _ s.rows no_entry (omega arith)) in
        Returns-bind (Given tracks) _ (number_tracks tracks 0 s.chans empty) _
          (number_tracks-Given tracks 0 empty few (omega arith) (record {
            patterns = length-replicate s.pats (replicate s.chans 0);
            whole = All-replicate (IsPattern s tracks) s.pats (replicate s.chans 0) row;
            own = λ k h. absurd (omega arith);
          }))
          (λ t given. (
            length-replicate tracks (replicate s.rows no_entry),
            All-replicate (IsTrack s) tracks (replicate s.rows no_entry) rows,
            given,
          ))
