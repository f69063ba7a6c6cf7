-- ===== src/Prelude/Decimal.antt =====
-- The decimal notation of a number, as fmt's %d and strconv.FormatInt write it.
use Prim.Native.String.{◌++◌}
use chat_room.Prelude.{
  ℕ, zero, suc, ◌-◌, ◌^◌, ◌/◌, ◌%◌, if◌then◌else◌, String, true, false, ltb, List, [], ◌∷◌,
  get_elem?, none, some,
}

digits : List String
digits = "0" ∷ "1" ∷ "2" ∷ "3" ∷ "4" ∷ "5" ∷ "6" ∷ "7" ∷ "8" ∷ "9" ∷ []

digit : ℕ → String
unfolding digits
digit n = elim (get_elem? digits n) [ none ↦ "" | some d ↦ d ]

-- A number has fewer digits than its successor, so that is enough fuel.
show_from : ℕ → ℕ → String
unfolding digit
show_from zero n = ""
show_from (suc fuel) n = elim (ltb n 10) [
  | true ↦ digit n
  | false ↦ show_from fuel (n / 10) ++ digit (n % 10)
]

unfoldable pub show : ℕ → String
unfolding show_from
show n = show_from (suc n) n

-- The notation of an int64, given by its bits.
unfoldable pub show64 : ℕ → String
unfolding show
show64 n = if ltb n (2 ^ 63) then show n else "-" ++ show (2 ^ 64 - n)
