-- ===== src/Services/Message/Query.antt =====
-- The query of FindByGuild in internal/repository/message.go, as the relation between the rows of the
-- table and what it answers: gorm and the database run it.
pub mod First
pub mod Table
use chat_room.Prelude.{
  ℕ, ◌+◌, zero, suc, ◌<◌, ◌≤◌, ◌≡◌, String, List, [], ◌∷◌, take, length, Result, ok, Any, All,
  if◌then◌else◌, Bool, true, false, ◌&&◌, str_eq, ltb,
}
use chat_room.Prelude.Int.{ℤ, pos, negsuc}
use chat_room.Services.Message.{MessageModel, IMessageRepository}

-- The condition on the sequence number: past the last one that was seen, if one is given.
abbrev pub IsPast : ℤ → MessageModel → Type 0
IsPast (pos zero) m = Unit {0}
IsPast (pos (suc n)) m = suc n < m.seq_id
IsPast (negsuc n) m = Unit {0}

-- The order: forward from the last one seen, and otherwise backward from the newest. The database
-- may put equal numbers in any order.
abbrev pub Before : ℤ → MessageModel → MessageModel → Type 0
Before (pos zero) m k = k.seq_id ≤ m.seq_id
Before (pos (suc n)) m k = m.seq_id ≤ k.seq_id
Before (negsuc n) m k = k.seq_id ≤ m.seq_id

abbrev pub Ordered : ℤ → List MessageModel → Type 0
Ordered last [] = Unit {0}
Ordered last (m ∷ ms) = All (Before last m) ms × Ordered last ms

abbrev pub Mem : MessageModel → List MessageModel → Type 0
Mem m ms = Any (λ k. k ≡ m) ms

-- How often an id is in a list.
abbrev pub occurrences : String → List MessageModel → ℕ
occurrences id [] = 0
occurrences id (m ∷ ms) = (if str_eq m.id id then 1 else 0) + occurrences id ms

-- The rows of a guild past the last number, in order, before the limit.
pub record Matching (rows : List MessageModel) (guild_id : String) (last : ℤ)
    (found : List MessageModel) : Type 0 where
  pub only : (m : MessageModel) → Mem m found → Mem m rows × (m.guild_id ≡ guild_id) × IsPast last m
  pub every : (m : MessageModel) → Mem m rows → m.guild_id ≡ guild_id → IsPast last m → Mem m found
  pub once : (id : String) → occurrences id found ≤ occurrences id rows
  pub ordered : Ordered last found

-- Documented behaviour of the database: a query that succeeds answers the first of those rows.
pub record Documented {D E : Type 0} (messages : IMessageRepository D E) : Type 0 where
  pub rows : D → List MessageModel
  pub answers :
      (d : D) (guild_id : String) (last : ℤ) (limit : ℕ) (ms : List MessageModel)
      → messages.find_by_guild d guild_id last limit ≡ ok ms
      → (found : List MessageModel) × Matching (rows d) guild_id last found
        × (ms ≡ take limit found)
