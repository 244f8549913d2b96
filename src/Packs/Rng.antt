-- ===== src/Packs/Rng.antt =====
-- apps/api/src/packs/pack-rng.ts: `SeededRng`, numbers from HMAC-SHA256 in counter mode. The digest
-- of a counter under the seed is a parameter: the list of its bytes.
pub mod Draws
use pokedrop.Base.{
  ℕ, zero, suc, ◌+◌, ◌-◌, ◌*◌, ◌%◌, ◌^◌, ◌<◌, ◌≡◌, Bool, true, false, ◌&&◌, Option, none, some,
  List, [], ◌∷◌, ◌==◌, leb, ltb, if◌then◌else◌, length, drop, Result, ok, err, range_error, require,
  ◌>>=◌, ◌>>◌,
}
use pokedrop.Packs.Generator.{Drawn}

abbrev pub two_pow_32 : ℕ
two_pow_32 = 4294967296

pub record RngState : Type 0 where
  pub counter : ℕ
  pub block : List ℕ
  pub offset : ℕ

-- `Buffer.readUInt32BE`: it throws where four bytes do not fit.
unfoldable pub read_word : List ℕ → Result ℕ
read_word [] = err range_error
read_word (a ∷ []) = err range_error
read_word (a ∷ b ∷ []) = err range_error
read_word (a ∷ b ∷ c ∷ []) = err range_error
read_word (a ∷ b ∷ c ∷ d ∷ rest) = ok (a * 16777216 + b * 65536 + c * 256 + d)

-- The state of a new generator: an empty block.
abbrev pub initial : RngState
initial = record { counter = 0; block = []; offset = 0 }

-- The largest multiple of `max` within the range of a word.
unfoldable pub limit_of : ℕ → ℕ
limit_of max = two_pow_32 - two_pow_32 % max

module _ (digest : ℕ → List ℕ) where
  unfoldable pub refill : RngState → RngState
  refill s =
      if s.offset == length s.block
      then record { counter = s.counter + 1; block = digest s.counter; offset = 0 }
      else s

  unfoldable pub next_uint32 : RngState → Result (Drawn RngState)
  next_uint32 s = do
    let t = refill s
    value ← read_word (drop t.offset t.block)
    ok (record { value = value; state = record t { offset = t.offset + 4 } })

  -- The rejection loop of `int`, with fuel for its draws; it ends by `range_error` if all of them
  -- are rejected.
  unfoldable pub draw_below : ℕ → ℕ → RngState → Result (Drawn RngState)
  draw_below zero limit s = err range_error
  draw_below (suc fuel) limit s = do
    d ← next_uint32 s
    if ltb d.value limit then ok d else draw_below fuel limit d.state

  unfoldable pub int : ℕ → ℕ → RngState → Result (Drawn RngState)
  int fuel max s = do
    require (leb 1 max && leb max two_pow_32) range_error
    d ← draw_below fuel (limit_of max) s
    ok (record d { value = d.value % max })
