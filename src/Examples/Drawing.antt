-- ===== src/Examples/Drawing.antt =====
-- A generator of random numbers on small inputs: the digest of the seed is four small numbers.
use distlab.Base.{◌≡◌, refl, true, Text, units, List, [], ◌∷◌, ok}
use distlab.Values
use distlab.Values.{is_name}
use distlab.Random.{Words, Generator, output}
use distlab.Random.Seeding.{seed_words, create}
use distlab.Random.Live.{IsLive}
use distlab.Random.Draws.{Turn, draws, revokes, after_all, new-IsLive}

abbrev digest : Text → Words
digest seed = record { a = 1; b = 2; c = 3; d = 4 }

abbrev seed : Text
seed = units "seed"

abbrev new : Generator
new = record { words = seed_words (digest seed); index = 0; valid = true }

created : create digest seed ≡ ok new
unfolding create is_name Values.is_space
created = refl

abbrev turns : List Turn
turns = draws (units "fault.slow") ∷ revokes ∷ draws (units "fault.slow") ∷ []

new-IsLive_example : IsLive (after_all turns new).words
new-IsLive_example = new-IsLive digest seed turns created

-- The first number of the algorithm from the words 1, 2, 3, 4.
output-words : output (record { a = 1; b = 2; c = 3; d = 4 }) ≡ 11520
unfolding output
output-words = refl
