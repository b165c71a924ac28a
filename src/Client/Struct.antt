-- ===== src/Client/Struct.antt =====
-- What the client uses of Python's `struct` and of `int.from_bytes`. A byte is a number below 256.
use raft_lsmt.Base.{
  ℕ, zero, suc, ◌+◌, ◌*◌, ◌/◌, ◌%◌, ◌^◌, ◌<◌, ◌≡◌, refl, List, [], ◌∷◌, ◌++◌, arith, length, ltb,
  lt→ltb, if◌then◌else◌, Outcome, ok, raise, struct_error, ◌>>=◌, take, drop,
}

-- The `w` bytes of `v`, lowest first.
unfoldable pub to_le : ℕ → ℕ → List ℕ
to_le zero v = []
to_le (suc w) v = (v % 256) ∷ to_le w (v / 256)

unfoldable pub of_le : List ℕ → ℕ
of_le [] = 0
of_le (b ∷ bs) = b + 256 * of_le bs

-- `int.from_bytes(bs, byteorder='big')`, from the value of the bytes before.
unfoldable pub of_be : ℕ → List ℕ → ℕ
of_be acc [] = acc
of_be acc (b ∷ bs) = of_be (acc * 256 + b) bs

-- An unsigned field of `w` bytes: `Q` is 8, `I` is 4, `B` is 1. A value out of range raises.
unfoldable pub pack_uint : ℕ → ℕ → Outcome (List ℕ)
pack_uint w v = if ltb v (256 ^ w) then ok (to_le w v) else raise struct_error

-- `struct.pack("<QQ", a, b)`.
unfoldable pub pack_qq : ℕ → ℕ → Outcome (List ℕ)
pack_qq a b = do x ← pack_uint 8 a; y ← pack_uint 8 b; ok (x ++ y)

-- The field of `w` bytes at `offset`.
unfoldable pub unpack_at : ℕ → ℕ → List ℕ → ℕ
unpack_at w offset buffer = of_le (take w (drop offset buffer))

pub length-to_le : (w v : ℕ) → length (to_le w v) ≡ w
unfolding to_le
length-to_le zero v = refl
length-to_le (suc w) v = omega (arith, length-to_le w (v / 256))

-- A field that fits reads back as it was.
pub of_le-to_le : (w v : ℕ) → v < 256 ^ w → of_le (to_le w v) ≡ v
unfolding to_le of_le
of_le-to_le zero v h = omega arith
of_le-to_le (suc w) v h = ground (arith, of_le-to_le w (v / 256) (omega arith))

pub pack_uint_fits : (w v : ℕ) → v < 256 ^ w → pack_uint w v ≡ ok (to_le w v)
unfolding pack_uint
pack_uint_fits w v h = rw (lt→ltb v (256 ^ w) h)

pub pack_qq_fits : (a b : ℕ) → a < 2 ^ 64 → b < 2 ^ 64 → pack_qq a b ≡ ok (to_le 8 a ++ to_le 8 b)
unfolding pack_qq
pack_qq_fits a b ha hb = rw (pack_uint_fits 8 a (omega arith), pack_uint_fits 8 b (omega arith))

pub pack_qq_too_big : (a b : ℕ) → ¬ ((a < 2 ^ 64) × (b < 2 ^ 64)) → pack_qq a b ≡ raise struct_error
unfolding pack_qq pack_uint
pack_qq_too_big a b h = ground arith
