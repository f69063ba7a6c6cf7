-- ===== src/Services/Message/Examples.antt =====
-- Sending and paging.
use chat_room.Prelude.Dict.{Dict, lookup, insert}
use chat_room.Prelude.Decimal.{show64}
use chat_room.Prelude.{ℕ, String, some, arith, ◌≤◌, ◌≡◌, refl, true, List, [], ◌∷◌, ok, err}
use chat_room.Prelude.Int.{pos}
use chat_room.Snowflake.{next_id, compose}
use chat_room.Redis.{generate_seq_id, publish}
use chat_room.Redis.Memory.{memory}
use chat_room.Gateway.Handler.{Codec, WsMessage}
use chat_room.Services.Guild.{is_member}
use chat_room.Services.Message.{
  MessageModel, World, page_size, cut, send_message, checks, after_checks, with_id, with_seq, store,
  get_messages,
}
use chat_room.Redis.Tally.{tally, tally-Counting}
use chat_room.Services.Message.Ordering.{Send, send_all, Ascending, send_all-Ascending}
use chat_room.Services.Message.Sending.{Sent, send_message-Sent}
use chat_room.Services.Message.Paging.{get_messages-page}
use chat_room.Services.Message.Query.First.{IsPage}
use chat_room.Services.Message.Query.Table.{
  table, table-Documented, select, insert_row, is_past, comes,
}
use chat_room.Services.Message.Samples.{at, users, guilds, messages, generator, world, hello}

abbrev codec : Codec (Unit {0})
codec = record {
  unmarshal = λ bytes. (
    err tt,
    record {
      message_id = "";
      user_id = "";
      guild_id = "";
      content = [];
      seq_id = 0;
      timestamp = 0;
      kind = chat_room.Gateway.Handler.Kind.text;
      username = "";
    },
  );
  unmarshal_json = λ msg bytes. (err tt, msg);
  marshal = λ msg. ok msg.content;
}

send_message-Sent_example :
    Sent users guilds messages memory codec
      (world [] 1000 (1042 ∷ []))
      "ann"
      "g1"
      (104 ∷ 105 ∷ [])
      (at 1042)
      hello
      (world (hello ∷ []) 1042 [])
unfolding send_message checks after_checks with_id with_seq store is_member next_id compose
    generate_seq_id memory publish
send_message-Sent_example =
    send_message-Sent users guilds messages memory codec (world [] 1000 (1042 ∷ []))
      (world (hello ∷ []) 1042 []) "ann" "g1" (104 ∷ 105 ∷ []) (at 1042) hello refl

-- Three messages in two guilds, of which a page of one is asked for.
abbrev history : List MessageModel
history =
    record hello { seq_id = 2 }
    ∷ record hello { id = "9"; guild_id = "g2" }
    ∷ record hello { id = "8" }
    ∷ []

history_page :
    get_messages users (table {E = Unit {0}}) history "g1" (pos 0) (pos 1)
    ≡ ok (record hello { seq_id = 2 } ∷ [], true)
unfolding get_messages cut page_size table select insert_row is_past comes
history_page = refl

get_messages-page_example :
    IsPage
      ((table-Documented {E = Unit {0}}).rows history)
      "g1"
      (pos 0)
      (page_size (pos 1))
      (record hello { seq_id = 2 } ∷ [])
      true
    × (page_size (pos 1) ≤ 100)
get_messages-page_example =
    get_messages-page users (table {E = Unit {0}}) table-Documented history "g1" (pos 0) (pos 1)
      (record hello { seq_id = 2 } ∷ []) true history_page

abbrev counted :
    List MessageModel → List (String × ℕ) → ℕ → List ℕ → World (List MessageModel) (Dict ℕ)
counted db redis last clock = record {
  db = db;
  redis = redis;
  generator = generator last;
  clock = clock;
}

-- The second of three calls fails, for its message is empty.
abbrev calls : List Send
calls =
    record { user_id = "ann"; guild_id = "g1"; content = 104 ∷ 105 ∷ []; now = at 1042 }
    ∷ record { user_id = "ann"; guild_id = "g1"; content = []; now = at 1042 }
    ∷ record { user_id = "bob"; guild_id = "g1"; content = 104 ∷ []; now = at 1043 }
    ∷ []

abbrev reply : MessageModel
reply = record {
  id = show64 43;
  user_id = "bob";
  guild_id = "g1";
  content = 104 ∷ [];
  seq_id = 2;
  created_at = 1043;
}

send_all-calls :
    send_all users guilds messages tally codec (counted [] [] 1000 (1042 ∷ 1043 ∷ [])) calls
    ≡ some (hello ∷ reply ∷ [], counted (reply ∷ hello ∷ []) (("guild:g1:seq_id", 2) ∷ []) 1043 [])
unfolding send_all send_message checks after_checks with_id with_seq store is_member next_id compose
    generate_seq_id publish lookup insert
send_all-calls = refl

send_all-Ascending_example :
    Ascending users guilds messages tally codec tally-Counting "g1" 0 (hello ∷ reply ∷ [])
unfolding lookup
send_all-Ascending_example =
    send_all-Ascending users guilds messages tally codec tally-Counting calls "g1"
      (counted [] [] 1000 (1042 ∷ 1043 ∷ []))
      (counted (reply ∷ hello ∷ []) (("guild:g1:seq_id", 2) ∷ []) 1043 []) 0 (hello ∷ reply ∷ [])
      (omega arith) send_all-calls
