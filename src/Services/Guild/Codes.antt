-- ===== src/Services/Guild/Codes.antt =====
-- The invite code of a new guild.
use chat_room.Prelude.{
  ℕ, ◌⊎◌, inl, inr, zero, suc, ◌+◌, ◌<◌, ◌≡◌, refl, String, Option, none, some, Result, ok, err,
  arith,
}
use chat_room.Services.{GuildModel, IGuildRepository}
use chat_room.Services.Guild.{Error, after_lookup, draw, generate_unique_invite_code, max_attempts}

module _ {D E : Type 0} (guilds : IGuildRepository D E) (codes : ℕ → String) (d : D) where
  after_lookup-ok :
      (code c : String) (again : Result (Error E) String) (r : Result E (Option GuildModel))
      → after_lookup guilds code again r ≡ ok c
      → ((r ≡ ok none) × (code ≡ c)) ⊎ (again ≡ ok c)
  unfolding after_lookup
  after_lookup-ok code c again (ok none) h = inl (refl, ground (arith, h))
  after_lookup-ok code c again (ok (some g)) h = inr h
  after_lookup-ok code c again (err x) h = cc

  draw-ok :
      (left i : ℕ) (c : String)
      → draw guilds codes d left i ≡ ok c
      → (j : ℕ) × (j < i + left) × (codes j ≡ c) × (guilds.find_by_invite_code d c ≡ ok none)
  unfolding draw
  draw-ok zero i c h = cc
  draw-ok (suc left) i c h =
      elim (after_lookup-ok (codes i) c (draw guilds codes d left (i + 1))
        (guilds.find_by_invite_code d (codes i)) h) [
          | inl (free, e) ↦ (i, omega arith, e, rw (← e) free)
          | inr again ↦
              let (j, l, e, free) = draw-ok left (i + 1) c again in (j, omega arith, e, free)
        ]

  -- An invite code that is generated is among the first ten drawn, and no guild has it.
  pub generate_unique_invite_code-ok :
      (c : String)
      → generate_unique_invite_code guilds codes d ≡ ok c
      → (j : ℕ) × (j < max_attempts) × (codes j ≡ c) × (guilds.find_by_invite_code d c ≡ ok none)
  unfolding generate_unique_invite_code
  generate_unique_invite_code-ok c h = draw-ok max_attempts 0 c h
