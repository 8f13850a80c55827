-- ===== src/Wire/Tests.antt =====
-- Runs of serialization_utils.c.
use redisraft.Prelude.{◌≡◌, refl, some, [], ◌∷◌}
use redisraft.Wire.{Bytes, decode_integer, encode_integer, decode_string, digits, integer_text}

encode_runs : encode_integer 42 100 1207 ≡ some (42 ∷ 49 ∷ 50 ∷ 48 ∷ 55 ∷ 10 ∷ [])
unfolding encode_integer digits integer_text
encode_runs = refl

decode_runs : decode_integer (42 ∷ 49 ∷ 50 ∷ 48 ∷ 55 ∷ 10 ∷ 0 ∷ []) 42 ≡ some (1207, 6)
unfolding decode_integer
decode_runs = refl

string_runs : decode_string (36 ∷ 50 ∷ 10 ∷ 65 ∷ 66 ∷ 10 ∷ []) ≡ some ((65 ∷ 66 ∷ []), 6)
unfolding decode_string decode_integer
string_runs = refl

abbrev word : Bytes
word = 65 ∷ 66 ∷ []
