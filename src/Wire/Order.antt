-- ===== src/Wire/Order.antt =====
-- backend/internal/wire/wire.go: the order in which one match beats another.
use songguo.Prelude.{◌≡◌, true, false, arith}
use songguo.Prelude.{is_before_trans, not_before_self}
use songguo.Wire.{Match, beats}

pub not_beats_self : (m : Match) → beats m m ≡ false
not_beats_self m = ground (arith, not_before_self m.wire.name)

-- What a match does not beat, it does not beat after a better one took the place.
pub not_beats_better : (m b c : Match) → beats m b ≡ false → beats c b ≡ true → beats m c ≡ false
not_beats_better m b c h k =
    ground (arith, h, k, is_before_trans m.wire.name c.wire.name b.wire.name)
