-- ===== src/P2p.antt =====
-- dsync/p2putil/message.go: the messages that two peers exchange. What `provider` says is not sent
-- and is left out. A nil map of headers is read as an empty one.
pub mod Handlers
pub mod Client
pub mod Headers
pub mod Exchange
pub mod Loop
pub mod Calls
use dag.Base.{
  ℕ, Str, Str_discrete, bytes, Bool, true, false, List, [], ◌∷◌, ◌++◌, Option, none, some, Dict,
  lookup, insert, ◌+◌,
}

-- `created` and `deadline` are the times, with 0 for the zero time.
pub record Message : Type 0 where
  pub msg_type : Str
  pub id : Str
  pub created : ℕ
  pub deadline : ℕ
  pub initiator : Str
  pub headers : Dict Str Str
  pub body : Str

abbrev pub minutes_2 : ℕ
minutes_2 = 120

-- NewMessage, at the time `now`, with what NewMessageID draws.
abbrev pub new_message : Str → ℕ → Str → Str → Str → Message
new_message drawn now initiator t body = record {
  msg_type = t;
  id = drawn;
  created = now;
  deadline = now + minutes_2;
  initiator = initiator;
  headers = [];
  body = body;
}

abbrev pub update : Str → Message → Message
update body m = record {
  msg_type = m.msg_type;
  id = m.id;
  created = m.created;
  deadline = m.deadline;
  initiator = m.initiator;
  headers = m.headers;
  body = body;
}

-- The loop of WithHeaders. A key without a value at the end is passed over.
unfoldable pub headers_of : List Str → Dict Str Str → Dict Str Str
headers_of [] headers = headers
headers_of (key ∷ []) headers = headers
headers_of (key ∷ value ∷ rest) headers = headers_of rest (insert Str_discrete key value headers)

-- WithHeaders: the headers that the message had are gone, and so are its times.
abbrev pub with_headers : List Str → Message → Message
with_headers keyval m = record {
  msg_type = m.msg_type;
  id = m.id;
  created = 0;
  deadline = 0;
  initiator = m.initiator;
  headers = headers_of keyval [];
  body = m.body;
}

abbrev pub or_empty : Option Str → Str
or_empty none = []
or_empty (some value) = value

abbrev pub header : Str → Message → Str
header key m = or_empty (lookup Str_discrete key m.headers)

-- `for key, val := range meta { headers = append(headers, key, val) }`
abbrev pub flat : Dict Str Str → List Str
flat [] = []
flat ((key, value) ∷ meta) = key ∷ value ∷ flat meta

-- `fmt.Sprintf("%t", b)`
abbrev pub text_of_bool : Bool → Str
text_of_bool true = bytes "true"
text_of_bool false = bytes "false"

abbrev pub mt_new_receive : Str
mt_new_receive = bytes "new_receive"

abbrev pub mt_receive_block : Str
mt_receive_block = bytes "receive_block"

abbrev pub mt_get_dag_info : Str
mt_get_dag_info = bytes "get_daginfo"

abbrev pub mt_get_block : Str
mt_get_block = bytes "get_block"

abbrev pub mt_remove_cid : Str
mt_remove_cid = bytes "remove_cid"
