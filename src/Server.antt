-- ===== src/Server.antt =====
-- `Server` of crates/server/src/lib.rs, with its parts that stand before the first connection.
pub mod Info
pub mod Listener
pub mod Startup
use nats_server_rs.Prelude.{ℕ, ◌+◌, ◌%◌, ◌^◌, Option, none, some, List, Bytes, if◌then◌else◌}
use nats_server_rs.Nuid.{server_id}
use nats_server_rs.Config.Strings.{Text}
use nats_server_rs.Config.{Config}

-- `listen` is what `set_listen` stored: the address as a text, and the port.
pub record Server : Type 0 where
  pub cfg : Config
  pub id : Text
  pub name : Text
  pub listen : Option (Text × ℕ)
  pub cids : ℕ
  pub active : ℕ

unfoldable pub name_or : Option Text → Text → Text
name_or none id = id
name_or (some name) id = name

-- `Server::new`, over the state of the generator that draws the identifier.
unfoldable pub new_server : Config → ℕ → Server
unfolding name_or server_id
new_server cfg rng = record {
  cfg = cfg;
  id = server_id rng;
  name = name_or cfg.server_name (server_id rng);
  listen = none;
  cids = 0;
  active = 0;
}

-- `OnceLock::set`: the first address stays.
unfoldable pub once : Option (Text × ℕ) → Text × ℕ → Option (Text × ℕ)
once none addr = some addr
once (some old) addr = some old

unfoldable pub set_listen : Server → Text × ℕ → Server
unfolding once
set_listen s addr = record s { listen = once s.listen addr }

-- `next_cid`
unfoldable pub next_cid : Server → Server × ℕ
next_cid s = (record s { cids = (s.cids + 1) % 2 ^ 64 }, (s.cids + 1) % 2 ^ 64)
