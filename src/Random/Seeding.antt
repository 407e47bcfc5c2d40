-- ===== src/Random/Seeding.antt =====
-- packages/kernel/src/random.ts: `splitMix32` and the constructor of `SeededRandom`. A parameter
-- `digest` stands for the four numbers that the constructor reads from the first 16 bytes of `sha256Hex` of
-- the seed, trimmed and normalized.
use distlab.Base.{ℕ, true, ◌+◌, ◌%◌, ◌^◌, ◌&&◌, ◌==◌, Text, Result, ok, throw, if◌then◌else◌}
use distlab.Contracts.Errors.{invalid_run_input}
use distlab.Values.{is_name}
use distlab.Random.{Words, Generator, xor, multiply, shift_right}

-- `z ^ (z >>> k)`
unfoldable pub xor_shift : (k z : ℕ) → ℕ
unfolding xor shift_right
xor_shift k z = xor z (shift_right z k)

-- `splitMix32(state)`
unfoldable pub split_mix : ℕ → ℕ
unfolding xor_shift multiply
split_mix state =
    let z = (state + 2654435769) % 2 ^ 32 in
    let y = multiply (xor_shift 16 z) 569420461 in
    xor_shift 15 (multiply (xor_shift 15 y) 1935289751)

-- The words from the four numbers of the digest; zeros alone are not left to stand.
unfoldable pub seed_words : Words → Words
unfolding split_mix
seed_words n =
    let w : Words = record {
      a = split_mix n.a;
      b = split_mix n.b;
      c = split_mix n.c;
      d = split_mix n.d;
    } in
    if w.a == 0 && w.b == 0 && w.c == 0 && w.d == 0 then record w { d = 2654435769 } else w

-- `new SeededRandom(seed)`
unfoldable pub create : (digest : Text → Words) → Text → Result Generator
unfolding seed_words
create digest seed =
    if is_name seed
    then ok (record { words = seed_words (digest seed); index = 0; valid = true })
    else throw invalid_run_input
