-- ===== src/Grpc.antt =====
-- The gRPC servers of internal/pkg/grpc. A call gives a response or a status; the texts of the
-- errors that come from other code are their arguments. The interceptors and the set-up of the server
-- are grpc's and logging, and the client only passes calls on.
pub mod Gateway
pub mod Guilds
pub mod Messages
pub mod Users
use chat_room.Prelude.{String}

-- The codes of google.golang.org/grpc/codes that the servers use.
pub data Code : Type 0 where
  invalid_argument not_found internal : Code

pub record Status : Type 0 where
  pub code : Code
  pub message : String

abbrev pub required : String → Status
required text = record { code = Code.invalid_argument; message = text }
