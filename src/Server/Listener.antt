-- ===== src/Server/Listener.antt =====
-- crates/server/src/net.rs: the address that is asked for, and the connections that are let in. The
-- kernel's answers are given.
pub mod Admission
use nats_server_rs.Prelude.{
  ℕ, ◌+◌, ◌-◌, ◌%◌, ◌^◌, Bool, true, false, not, ◌&&◌, ◌||◌, List, [], ◌∷◌, leb, ◌==◌, equal,
  retain, if◌then◌else◌, ℤ, pos, negsuc, ltb_ℤ, pos_part, codes,
}
use nats_server_rs.Config.Strings.{Text}
use nats_server_rs.Config.{Config, bind_port}
use nats_server_rs.Server.{Server, next_cid}

unfoldable pub normalize_host : Text → Text
unfolding equal codes
normalize_host host =
    if equal host (codes "0.0.0.0") || equal host (codes "::") || equal host (codes "*")
    then codes "0.0.0.0"
    else host

-- The port that `serve` binds: RANDOM_PORT asks the kernel for one.
unfoldable pub requested_of : ℤ → ℤ
requested_of (pos n) = pos n
requested_of (negsuc n) = if n == 0 then pos 0 else negsuc n

unfoldable pub requested : Config → ℤ
unfolding requested_of bind_port
requested cfg = requested_of (bind_port cfg)

-- The limit of `accept_loop`: a negative one is none.
unfoldable pub at_limit : Server → Bool
at_limit s =
    not (ltb_ℤ s.cfg.max_connections (pos 0)) && leb (pos_part s.cfg.max_connections) s.active

-- The server with its live connection tasks, by their `cid`.
pub record Open : Type 0 where
  pub server : Server
  pub live : List ℕ

-- A socket that is accepted; `nodelay` is whether TCP_NODELAY could be set on it.
unfoldable pub accept : Bool → Open → Open
unfolding at_limit next_cid
accept nodelay o =
    if not nodelay
    then o
    else if at_limit o.server
    then o
    else let counted = record o.server { active = (o.server.active + 1) % 2 ^ 64 } in
      let (server, cid) = next_cid counted in record { server = server; live = cid ∷ o.live }

-- `DropCount::drop`, when the task of a live connection ends.
unfoldable pub leave : ℕ → Open → Open
leave cid o = record {
  server = record o.server { active = (o.server.active + 2 ^ 64 - 1) % 2 ^ 64 };
  live = retain (λ c. not (c == cid)) o.live;
}
