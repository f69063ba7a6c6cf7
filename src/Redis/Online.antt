-- ===== src/Redis/Online.antt =====
-- The online status that the client keeps in Redis, as one map from users to gateway nodes.
use text.Mathlib.TextLemmas.{append_cancel_left, append_cancel_right}
use chat_room.Prelude.{
  ℕ, ◌≡◌, String, Bool, true, false, Option, none, some, [], ◌∷◌, str_eq, eq_iff, if◌then◌else◌,
  Result, ok, err, arith, ltb,
}
use chat_room.Redis.{
  Server, Documented, online_key, set_user_online, is_user_online, remove_user_online, discard,
  positive,
}

online_key_inj : (u v : String) → online_key u ≡ online_key v → u ≡ v
online_key_inj u v e = append_cancel_right u v ":online" (append_cancel_left "user:" _ _ e)

-- The keys of two users are equal just when the users are.
online_key_eq : (u v : String) → str_eq (online_key u) (online_key v) ≡ str_eq u v
online_key_eq u v =
    ground (arith, eq_iff u v, eq_iff (online_key u) (online_key v), online_key_inj u v)

discard-ok :
    {S E : Type 0} (r : Result E ℕ) (s s' : S)
    → ◌≡◌ {A = Result E (Unit {0}) × S} (discard r, s) (ok tt, s')
    → (n : ℕ) × ◌≡◌ {A = Result E ℕ × S} (r, s) (ok n, s')
unfolding discard
discard-ok (ok n) s s' e = (n, ground arith)
discard-ok (err x) s s' e = cc

positive-ok :
    {S E : Type 0} (r : Result E ℕ) (s s' : S) (b : Bool)
    → ◌≡◌ {A = Result E Bool × S} (positive r, s) (ok b, s')
    → (n : ℕ) × ◌≡◌ {A = Result E ℕ × S} (r, s) (ok n, s') × (b ≡ ltb 0 n)
unfolding positive
positive-ok (ok n) s s' b e = (n, ground arith, ground arith)
positive-ok (err x) s s' b e = cc

module _ {S E : Type 0} (server : Server S E) (doc : Documented server) where
  -- The gateway node that holds a user's connection, if the user is online.
  pub online : S → String → Option String
  online s u = doc.value s (online_key u)

  -- A user who is set online is so at that node, and nobody else's status changes.
  pub online-set_user_online :
      (s s' : S) (u node : String) (ttl : ℕ) (v : String)
      → set_user_online server s u node ttl ≡ (ok tt, s')
      → online s' v ≡ (if str_eq u v then some node else online s v)
  unfolding set_user_online online
  online-set_user_online s s' u node ttl v e =
      rw (← online_key_eq u v) (doc.set_sets s s' (online_key u) node ttl (online_key v) e)

  -- A user who is removed is offline, and nobody else's status changes.
  pub online-remove_user_online :
      (s s' : S) (u v : String)
      → remove_user_online server s u ≡ (ok tt, s')
      → online s' v ≡ (if str_eq u v then none else online s v)
  unfolding remove_user_online online
  online-remove_user_online s s' u v e =
      let (n, e') = discard-ok (server.del s (online_key u ∷ [])).0 _ s' e in
      rw (← online_key_eq u v) (doc.del_deletes s s' (online_key u) n (online_key v) e')

  -- IsUserOnline tells whether the map has the user, and leaves the map as it is.
  pub is_user_online-online :
      (s s' : S) (u : String) (b : Bool) (v : String)
      → is_user_online server s u ≡ (ok b, s')
      → (b ≡ elim (online s u) [ none ↦ false | some node ↦ true ]) × (online s' v ≡ online s v)
  unfolding is_user_online online positive
  is_user_online-online s s' u b v e =
      let (n, e', p) = positive-ok (server.exists s (online_key u ∷ [])).0 _ s' b e in
      let counted = doc.exists_counts s s' (online_key u) n e' in
      (ground (arith, p, counted), doc.exists_keeps s s' (online_key u) n (online_key v) e')
