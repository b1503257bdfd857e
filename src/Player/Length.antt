-- ===== src/Player/Length.antt =====
-- src/player.cpp: `CPlayer::songlength` and `CPlayer::seek`, over any player. The times are floats and a
-- parameter.
use adplug.Base.{
  ℕ, zero, suc, ◌<◌, ◌≡◌, refl, arith, [], Bool, true, false, ◌⊎◌, ◌&&◌, if◌then◌else◌,
}
use adplug.Base.{Outcome, ok, stuck, ◌>>=◌, Returns, Returns-bind, Bool-cases, inl, inr}
use adplug.Base.Loops.{PlaysOn}
use adplug.Base.Opl.{Opl}

-- What a class of players has, and the virtual methods that the two call.
pub record Class (P : Type 0) : Type 0 where
  pub opl : P → Opl
  pub set_opl : Opl → P → P
  pub update : P → Outcome (Bool × P)
  pub rewind : P → P

-- The floats: `slength += 1000.0f / getrefresh()`, `slength < 600000`, the cast of the result, and
-- `pos < ms`.
pub record Clock (P : Type 0) : Type 1 where
  pub Time : Type 0
  pub start : Time
  pub pass : P → Time → Time
  pub in_limit : Time → Bool
  pub whole : Time → ℕ
  pub before : Time → ℕ → Bool

module _ {P : Type 0} (c : Class P) (clock : Clock P) where
  -- `while(update() && slength < 600000)`, with fuel.
  pub length_loop : ℕ → P → clock.Time → Outcome (P × clock.Time)
  length_loop zero p t = stuck
  length_loop (suc fuel) p t = do
    (more, q) ← c.update p
    let rest = length_loop fuel q (clock.pass q t)
    if more && clock.in_limit t then rest else ok (q, t)

  -- The song plays to a chip of its own, which is silent and new.
  pub songlength : ℕ → P → Outcome (ℕ × P)
  songlength fuel p = do
    (q, t) ← length_loop fuel (c.rewind (c.set_opl [] p)) clock.start
    ok (clock.whole t, c.set_opl (c.opl p) (c.rewind q))

  -- `while(pos < ms && update())`, with fuel.
  pub seek_loop : ℕ → ℕ → P → clock.Time → Outcome P
  seek_loop zero ms p t = stuck
  seek_loop (suc fuel) ms p t =
      if clock.before t ms
      then (do
        (more, q) ← c.update p
        let rest = seek_loop fuel ms q (clock.pass q t)
        if more then rest else ok q)
      else ok p

  pub seek : ℕ → ℕ → P → Outcome P
  seek fuel ms p = seek_loop fuel ms (c.rewind p) clock.start

  -- For a player that gets on at every update that answers true.
  module _ (I Q : P → Type 0) (left : P → ℕ)
      (plays : (p : P) → I p → Returns (PlaysOn c.update I Q left (left p)) (c.update p)) where
    -- A song that plays on, or is over.
    abbrev pub Goes : P → Type 0
    Goes p = I p ⊎ Q p

    -- Behind an update, by what the rest of the loop comes to.
    after_update :
        {A : Type 0} (R : A → Type 0) (before : ℕ) (rest : P → Outcome A) (stop : P → A)
        → ((q : P) → I q → left q < before → Returns R (rest q))
        → ((q : P) → Goes q → R (stop q))
        → (on : Bool) (x : Bool × P) → PlaysOn c.update I Q left before x
        → Returns R (if x.0 && on then rest x.1 else ok (stop x.1))
    after_update R before rest stop k j on (false, q) over = j q (inr over)
    after_update R before rest stop k j true (true, q) (h, less) = k q h less
    after_update R before rest stop k j false (true, q) (h, less) = j q (inl h)

    length_loop-Goes :
        (fuel : ℕ) (p : P) (t : clock.Time)
        → I p
        → left p < fuel
        → Returns (λ (x : P × clock.Time). Goes x.0) (length_loop fuel p t)
    unfolding length_loop
    length_loop-Goes zero p t h enough = absurd (omega arith)
    length_loop-Goes (suc fuel) p t h enough =
        Returns-bind (PlaysOn c.update I Q left (left p)) (λ (x : P × clock.Time). Goes x.0)
          (c.update p) _ (plays p h)
          (after_update (λ (x : P × clock.Time). Goes x.0) (left p)
            (λ q. length_loop fuel q (clock.pass q t)) (λ q. (q, t))
            (λ q h' less. length_loop-Goes fuel q (clock.pass q t) h' (omega arith)) (λ q g. g)
            (clock.in_limit t))

    -- A player that can be rewound to a song that plays: `songlength` ends and answers the time of its
    -- loop, and leaves a rewound player, at a song that plays on or is over, with the chip and the
    -- calls that it had.
    pub songlength-Measured :
        ((o : Opl) (p : P) → c.opl (c.set_opl o p) ≡ o)
        → (fuel : ℕ) (p : P) → I (c.rewind (c.set_opl [] p))
        → left (c.rewind (c.set_opl [] p)) < fuel
        → Returns
            (λ (x : ℕ × P).
              (c.opl x.1 ≡ c.opl p) × ((q : P) × (x.1 ≡ c.set_opl (c.opl p) (c.rewind q)) × Goes q))
            (songlength fuel p)
    unfolding songlength
    songlength-Measured get_set fuel p h enough =
        Returns-bind (λ (x : P × clock.Time). Goes x.0) _
          (length_loop fuel (c.rewind (c.set_opl [] p)) clock.start) _
          (length_loop-Goes fuel (c.rewind (c.set_opl [] p)) clock.start h enough)
          (λ x g. (get_set (c.opl p) (c.rewind x.0), (x.0, refl, g)))

    after_seek :
        (before : ℕ) (rest : P → Outcome P)
        → ((q : P) → I q → left q < before → Returns Goes (rest q))
        → (x : Bool × P) → PlaysOn c.update I Q left before x
        → Returns Goes (if x.0 then rest x.1 else ok x.1)
    after_seek before rest k (true, q) (h, less) = k q h less
    after_seek before rest k (false, q) over = inr over

    seek_loop-Goes :
        (fuel ms : ℕ) (p : P) (t : clock.Time)
        → I p
        → left p < fuel
        → Returns Goes (seek_loop fuel ms p t)
    unfolding seek_loop
    seek_loop-Goes zero ms p t h enough = absurd (omega arith)
    seek_loop-Goes (suc fuel) ms p t h enough = elim (Bool-cases (clock.before t ms)) [
      | inr e ↦ rw (e, Returns) (inl h)
      | inl e ↦ rw e (
          Returns-bind (PlaysOn c.update I Q left (left p)) Goes (c.update p) _ (plays p h) (
            after_seek (left p) (λ q. seek_loop fuel ms q (clock.pass q t))
              (λ q h' less. seek_loop-Goes fuel ms q (clock.pass q t) h' (omega arith))))
    ]

    pub seek-Goes :
        (fuel ms : ℕ) (p : P)
        → I (c.rewind p)
        → left (c.rewind p) < fuel
        → Returns Goes (seek fuel ms p)
    unfolding seek
    seek-Goes fuel ms p h enough = seek_loop-Goes fuel ms (c.rewind p) clock.start h enough
