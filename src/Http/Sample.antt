-- ===== src/Http/Sample.antt =====
-- A request with a bearer token, for the examples.
use chat_room.Prelude.{false, [], if◌then◌else◌, str_eq}
use chat_room.Http.{Context}

abbrev pub request : Context
request = record {
  method = "GET";
  header = λ k. if str_eq k "Authorization" then "Bearer token" else "";
  query = λ k. "";
  param = λ k. "";
  client_ip = "1.2.3.4";
  keys = [];
  response_headers = [];
  responses = [];
  aborted = false;
  logged = [];
}
