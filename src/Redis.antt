-- ===== src/Redis.antt =====
-- internal/pkg/redis/client.go. The go-redis client and the server behind it are the parameter
-- `Server`: its state, and the commands that the sources send. A command answers with a value or
-- an error and leaves the server in a new state. The text that fmt.Errorf puts round an error is
-- not modelled; the error that it wraps is.
pub mod Online
pub mod Memory
pub mod Tally
use Prim.Native.String.{◌++◌}
use chat_room.Prelude.{
  ℕ, ◌<◌, ◌≡◌, String, Bool, Option, none, some, List, [], ◌∷◌, str_eq, ltb, if◌then◌else◌, Result,
  ok, err,
}

-- The commands of go-redis. `get` answers none where the key is absent (redis.Nil).
pub record Server (S E : Type 0) : Type 0 where
  pub incr : S → String → Result E ℕ × S
  pub set : S → String → String → ℕ → Result E (Unit {0}) × S
  pub get : S → String → Result E (Option String) × S
  pub del : S → List String → Result E ℕ × S
  pub exists : S → List String → Result E ℕ × S
  pub publish : S → String → List ℕ → Result E (Unit {0}) × S

-- Documented behaviour of the commands that succeed, over the value that each key has.
pub record Documented {S E : Type 0} (server : Server S E) : Type 1 where
  pub value : S → String → Option String
  pub set_sets :
      (s s' : S) (k v : String) (ttl : ℕ) (j : String)
      → server.set s k v ttl ≡ (ok tt, s')
      → value s' j ≡ (if str_eq k j then some v else value s j)
  pub del_deletes :
      (s s' : S) (k : String) (n : ℕ) (j : String)
      → server.del s (k ∷ []) ≡ (ok n, s')
      → value s' j ≡ (if str_eq k j then none else value s j)
  pub exists_counts :
      (s s' : S) (k : String) (n : ℕ)
      → server.exists s (k ∷ []) ≡ (ok n, s')
      → n ≡ elim (value s k) [ none ↦ 0 | some v ↦ 1 ]
  pub exists_keeps :
      (s s' : S) (k : String) (n : ℕ) (j : String)
      → server.exists s (k ∷ []) ≡ (ok n, s')
      → value s' j ≡ value s j

abbrev pub online_key : String → String
online_key user_id = "user:" ++ (user_id ++ ":online")

abbrev pub seq_id_key : String → String
seq_id_key guild_id = "guild:" ++ (guild_id ++ ":seq_id")

-- result > 0
positive : {E : Type 0} → Result E ℕ → Result E Bool
positive (ok n) = ok (ltb 0 n)
positive (err e) = err e

-- Only the error of a command is returned.
discard : {E : Type 0} → Result E ℕ → Result E (Unit {0})
discard (ok n) = ok tt
discard (err e) = err e

module _ {S E : Type 0} (server : Server S E) where
  unfoldable pub generate_seq_id : S → String → Result E ℕ × S
  generate_seq_id s guild_id = server.incr s (seq_id_key guild_id)

  unfoldable pub set_user_online : S → String → String → ℕ → Result E (Unit {0}) × S
  set_user_online s user_id gateway_id ttl = server.set s (online_key user_id) gateway_id ttl

  unfoldable pub is_user_online : S → String → Result E Bool × S
  unfolding positive
  is_user_online s user_id =
      let (r, s') = server.exists s (online_key user_id ∷ []) in (positive r, s')

  unfoldable pub get_user_online_status : S → String → Result E (Option String) × S
  get_user_online_status s user_id = server.get s (online_key user_id)

  unfoldable pub remove_user_online : S → String → Result E (Unit {0}) × S
  unfolding discard
  remove_user_online s user_id =
      let (r, s') = server.del s (online_key user_id ∷ []) in (discard r, s')

  unfoldable pub publish : S → String → List ℕ → Result E (Unit {0}) × S
  publish s channel message = server.publish s channel message
