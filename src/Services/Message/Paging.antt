-- ===== src/Services/Message/Paging.antt =====
-- The pages of a guild's history.
use chat_room.Prelude.{
  ℕ, zero, suc, ◌+◌, ◌<◌, ◌≤◌, ◌≡◌, refl, sym, ap, ◌∙◌, String, Bool, Bool-cases, inl, inr, false,
  List, [], ◌∷◌, map, Result, ok, >>=_ok, ltb, length, take, arith,
}
use chat_room.Prelude.Int.{ℤ, pos, negsuc}
use chat_room.Prelude.Dict.{Dict}
use mathlib.Core.Path.{subst}
use chat_room.Services.Message.Query.First.{IsPage, taken, take-take, ltb-take}
use chat_room.Services.Message.Query.{Documented}
use chat_room.Services.{User, IUserRepository}
use chat_room.Services.Message.{
  MessageModel, MessageWithUser, IMessageRepository, page_size, cut, get_messages, with_users,
  name_in, or_empty, user_ids, get_messages_with_user,
}

page_size_le : (limit : ℤ) → page_size limit ≤ 100
unfolding page_size
page_size_le (negsuc n) = omega arith
page_size_le (pos zero) = omega arith
page_size_le (pos (suc n)) = ground arith

take-all : {A : Type 0} (n : ℕ) (xs : List A) → length xs ≤ n → take n xs ≡ xs
take-all zero [] h = refl
take-all zero (x ∷ xs) h = absurd (omega arith)
take-all (suc n) [] h = refl
take-all (suc n) (x ∷ xs) h = ap (λ ys. x ∷ ys) (take-all n xs (omega arith))

page_size_pos : (limit : ℤ) → 0 < page_size limit
unfolding page_size
page_size_pos (negsuc n) = omega arith
page_size_pos (pos zero) = omega arith
page_size_pos (pos (suc n)) = ground arith

cut-take : (n : ℕ) (ms : List MessageModel) → cut n ms ≡ (take n ms, ltb n (length ms))
unfolding cut
cut-take n ms = elim (Bool-cases (ltb n (length ms))) [
  | inl e ↦ rw e refl
  | inr e ↦ rw (e, take-all n ms (ground arith)) refl
]

-- A page with no message has none after it.
take-empty : (n : ℕ) (ms : List MessageModel) → 0 < n → [] ≡ take n ms → ltb n (length ms) ≡ false
take-empty zero ms l h = absurd (omega arith)
take-empty (suc n) [] l h = ground arith
take-empty (suc n) (m ∷ ms) l h = cc

map-name_in :
    (found : Dict User) (ms : List MessageModel)
    → map (λ r. r.message) (map (name_in found) ms) ≡ ms
unfolding name_in
map-name_in found [] = refl
map-name_in found (m ∷ ms) = ap (λ xs. m ∷ xs) (map-name_in found ms)

ok_inj : {E A : Type 0} (x y : A) → ◌≡◌ {A = Result E A} (ok x) (ok y) → x ≡ y
ok_inj x y h = ground (arith, h)

page_pair :
    (n : ℕ) (found answer page : List MessageModel) (more : Bool)
    → answer ≡ take (n + 1) found
    → page ≡ take n answer
    → more ≡ ltb n (length answer)
    → ◌≡◌ {A = List MessageModel × Bool}
        (take n found, ltb (length (take n found)) (length found))
        (page, more)
page_pair n found answer page more first same tells =
    rw (same, tells, first) (rw (take-take n found, ltb-take n found) refl)

module _ {D E : Type 0} (users : IUserRepository D E) (messages : IMessageRepository D E) where
  page_of :
      (d : D) (guild_id : String) (last_seq_id limit : ℤ) (page : List MessageModel) (more : Bool)
      → get_messages users messages d guild_id last_seq_id limit ≡ ok (page, more)
      → (found : List MessageModel) × (messages.find_by_guild d guild_id last_seq_id
            (page_size limit + 1)
          ≡ ok found)
        × (page ≡ take (page_size limit) found)
        × (more ≡ ltb (page_size limit) (length found))
  unfolding get_messages
  page_of d guild_id last_seq_id limit page more h =
      let (found, e, k) =
        >>=_ok (messages.find_by_guild d guild_id last_seq_id (page_size limit + 1)) _ (page, more)
          h in
      let split : ◌≡◌ {A = List MessageModel × Bool}
          (take (page_size limit) found, ltb (page_size limit) (length found)) (page, more) =
        sym (cut-take (page_size limit) found) ∙ ok_inj _ _ k in
      (found, e, sym (ap (λ p. p.0) split), sym (ap (λ p. p.1) split))

  -- A page holds as many messages as page_size allows, at most a hundred, if so many are found: they
  -- are rows of the guild, each once, past the sequence number if a positive one is given, and in
  -- the query's order, which goes up from that number, or down from the newest if none is given.
  -- Every such row that is not on the page comes after all that are, and then the page is full and
  -- tells that there are more; it tells so only where the rows found go on past the page.
  pub get_messages-page :
      (doc : Documented messages) (d : D) (guild_id : String) (last_seq_id limit : ℤ)
      (page : List MessageModel) (more : Bool)
      → get_messages users messages d guild_id last_seq_id limit ≡ ok (page, more)
      → IsPage (doc.rows d) guild_id last_seq_id (page_size limit) page more
        × (page_size limit ≤ 100)
  get_messages-page doc d guild_id last_seq_id limit page more h =
      let (answer, e, same, tells) = page_of d guild_id last_seq_id limit page more h in
      let (found, matching, first) =
        doc.answers d guild_id last_seq_id (page_size limit + 1) answer e in
      (
        subst (λ p. IsPage (doc.rows d) guild_id last_seq_id (page_size limit) p.0 p.1)
            (page_pair (page_size limit) found answer page more first same tells)
            (taken (doc.rows d) guild_id last_seq_id (page_size limit) found matching),
        page_size_le limit,
      )

  with_users-messages :
      (d : D) (page : List MessageModel) (more : Bool)
      → (page ≡ [] → more ≡ false)
      → (rows : List MessageWithUser) × (with_users users messages d page more ≡ (rows, more))
        × (map (λ r. r.message) rows ≡ page)
  unfolding with_users
  with_users-messages d [] more h = ([], ap (λ b. ([], b)) (sym (h refl)), refl)
  with_users-messages d (m ∷ ms) more h =
      (_, refl, map-name_in (or_empty (users.find_by_ids d (user_ids [] (m ∷ ms)))) (m ∷ ms))

  -- GetMessagesWithUser returns the page that GetMessages returns, with a name beside each message,
  -- whether the users are found or not.
  pub get_messages_with_user-messages :
      (d : D) (guild_id : String) (last_seq_id limit : ℤ) (page : List MessageModel) (more : Bool)
      → get_messages users messages d guild_id last_seq_id limit ≡ ok (page, more)
      → (rows : List MessageWithUser) × (get_messages_with_user users messages d guild_id
            last_seq_id limit
          ≡ ok (rows, more))
        × (map (λ r. r.message) rows ≡ page)
  unfolding get_messages_with_user
  get_messages_with_user-messages d guild_id last_seq_id limit page more h =
      let (found, e, cut_page, cut_more) = page_of d guild_id last_seq_id limit page more h in
      let (rows, named, same) = with_users-messages d page more (λ empty.
        cut_more
        ∙ take-empty (page_size limit) found (page_size_pos limit) (sym empty ∙ cut_page)) in
      (rows, rw h (ap ok named), same)
