-- ===== src/Prelude/Utf8.antt =====
-- Go's []byte(s): the bytes of a text in UTF-8.
use Prim.Native.Char.{code}
use chat_room.Prelude.{ℕ, ◌+◌, ◌/◌, ◌%◌, String, List, [], ◌∷◌, ◌++◌, ltb, if◌then◌else◌}

-- A byte of a code point after the first one.
following : ℕ → ℕ
following n = 128 + n % 64

encoded : ℕ → List ℕ
unfolding following
encoded n =
    if ltb n 128
    then n ∷ []
    else if ltb n 2048
    then (192 + n / 64) ∷ following n ∷ []
    else if ltb n 65536
    then (224 + n / 4096) ∷ following (n / 64) ∷ following n ∷ []
    else (240 + n / 262144) ∷ following (n / 4096) ∷ following (n / 64) ∷ following n ∷ []

unfoldable pub bytes_of : String → List ℕ
unfolding encoded
bytes_of Prim.Native.String.[] = []
bytes_of (Prim.Native.String.◌∷◌ c s) = encoded (code c) ++ bytes_of s
