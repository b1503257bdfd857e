-- ===== src/Player.antt =====
-- src/player.cpp and src/player.h: `CPlayer`, the base class of the players.
pub mod Length
use adplug.Base.{ℕ, List, [], ◌∷◌}

-- `CPlayer::op_table` and `CPlayer::note_table`.
abbrev pub op_table : List ℕ
op_table = 0x00 ∷ 0x01 ∷ 0x02 ∷ 0x08 ∷ 0x09 ∷ 0x0a ∷ 0x10 ∷ 0x11 ∷ 0x12 ∷ []

abbrev pub note_table : List ℕ
note_table = 363 ∷ 385 ∷ 408 ∷ 432 ∷ 458 ∷ 485 ∷ 514 ∷ 544 ∷ 577 ∷ 611 ∷ 647 ∷ 686 ∷ []
