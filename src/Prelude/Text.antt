-- ===== src/Prelude/Text.antt =====
-- Text literals as bytes: every literal of the protocol is ASCII.
use Prim.Native.Char.{code}
use Prim.Native.String.{String}
use mathlib.Core.List.{[], ◌∷◌}
use nats_server_rs.Prelude.Lists.{Bytes}

unfoldable pub codes : String → Bytes
codes String.[] = []
codes (String.◌∷◌ c s) = code c ∷ codes s
