-- ===== src/Server/Info.antt =====
-- crates/server/src/info.rs: the INFO line, and `info_line` of crates/server/src/lib.rs. A text is the
-- list of its characters' code points, and is written in UTF-8.
pub mod Reader
pub mod Escape
use nats_server_rs.Prelude.{
  ℕ, ◌+◌, ◌-◌, ◌*◌, ◌/◌, ◌%◌, ◌^◌, Bool, true, false, Option, none, some, [], ◌∷◌, ◌++◌, Bytes, ltb,
  leb, ◌==◌, if◌then◌else◌, codes,
}
use nats_server_rs.Config.Strings.{Text}
use nats_server_rs.Proto.Parts.{concat}
use nats_server_rs.Routing.Frame.{push_u64}
use nats_server_rs.Server.{Server}

pub record Info : Type 0 where
  pub server_id : Text
  pub server_name : Text
  pub version : Text
  pub host : Text
  pub port : ℕ
  pub max_payload : ℕ

-- `char::encode_utf8`
unfoldable pub encode_utf8 : ℕ → Bytes
encode_utf8 c =
    if ltb c 0x80
    then c ∷ []
    else if ltb c 0x800
    then (0xC0 + c / 2 ^ 6) ∷ (0x80 + c % 2 ^ 6) ∷ []
    else if ltb c 0x10000
    then (0xE0 + c / 2 ^ 12) ∷ (0x80 + c / 2 ^ 6 % 2 ^ 6) ∷ (0x80 + c % 2 ^ 6) ∷ []
    else (0xF0 + c / 2 ^ 18)
      ∷ (0x80 + c / 2 ^ 12 % 2 ^ 6)
      ∷ (0x80 + c / 2 ^ 6 % 2 ^ 6)
      ∷ (0x80 + c % 2 ^ 6)
      ∷ []

-- A digit of `{:04x}`.
unfoldable pub hex : ℕ → ℕ
hex d = if ltb d 10 then b'0' + d else b'a' + (d - 10)

-- The arms of the loop of `push_str`; `\u{:04x}` of a character below 0x20 begins with two zeros.
unfoldable pub escape : ℕ → Bytes
unfolding encode_utf8 hex
escape c =
    if c == b'"'
    then 92 ∷ b'"' ∷ []
    else if c == 92
    then 92 ∷ 92 ∷ []
    else if c == 10
    then 92 ∷ b'n' ∷ []
    else if c == 13
    then 92 ∷ b'r' ∷ []
    else if c == 9
    then 92 ∷ b't' ∷ []
    else if ltb c 0x20
    then 92 ∷ b'u' ∷ b'0' ∷ b'0' ∷ hex (c / 16) ∷ hex (c % 16) ∷ []
    else encode_utf8 c

unfoldable pub escape_all : Text → Bytes
unfolding escape
escape_all [] = []
escape_all (c ∷ s) = escape c ++ escape_all s

unfoldable pub push_str : Bytes → Text → Bytes
unfolding escape_all
push_str key value = b'"' ∷ (key ++ (b'"' ∷ b':' ∷ b'"' ∷ (escape_all value ++ (b'"' ∷ []))))

-- `Info::line`, where `{}` writes a number as `push_u64` does, for a connection's `cid` and the peer's address.
unfoldable pub line : Info → ℕ → Text → Bytes
unfolding push_str push_u64 codes concat
line info cid peer_ip = concat (
    codes "INFO {"
    ∷ push_str (codes "server_id") info.server_id
    ∷ (b',' ∷ [])
    ∷ push_str (codes "server_name") info.server_name
    ∷ (b',' ∷ [])
    ∷ push_str (codes "version") info.version
    ∷ codes ",\"proto\":1"
    ∷ (b',' ∷ [])
    ∷ push_str (codes "host") info.host
    ∷ codes ",\"port\":"
    ∷ push_u64 info.port
    ∷ codes ",\"headers\":true"
    ∷ codes ",\"max_payload\":"
    ∷ push_u64 info.max_payload
    ∷ codes ",\"client_id\":"
    ∷ push_u64 cid
    ∷ (b',' ∷ [])
    ∷ push_str (codes "client_ip") peer_ip
    ∷ codes "} \r\n"
    ∷ [])

-- `info_line`, for the crate's version; without a listener it panics.
unfoldable pub info_at : Server → Text → ℕ → Text → Option (Text × ℕ) → Option Bytes
unfolding line
info_at s version cid peer none = none
info_at s version cid peer (some (host, port)) = some (
    line
      (record {
        server_id = s.id;
        server_name = s.name;
        version = version;
        host = host;
        port = port;
        max_payload = s.cfg.max_payload;
      })
      cid peer)

unfoldable pub info_line : Server → Text → ℕ → Text → Option Bytes
unfolding info_at
info_line s version cid peer = info_at s version cid peer s.listen
