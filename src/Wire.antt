-- ===== src/Wire.antt =====
-- crates/core-it/src/wire.rs: the raw client of the protocol tests. What the server has sent, and how
-- that ends, is given; a test's `&str` is its bytes. Silence is as long as any timeout.
pub mod Frames
pub mod Published
pub mod RoundTrip
pub mod Quiet
use nats_server_rs.Prelude.{
  ℕ, zero, suc, ◌+◌, ◌-◌, Bool, true, false, not, ◌&&◌, ◌||◌, Option, none, some, List, [], ◌∷◌,
  ◌++◌, Bytes, ltb, ◌==◌, equal, length, is_empty, take, drop, if◌then◌else◌, codes,
}
use nats_server_rs.Routing.Frame.{crlf, push_u64}

-- What the server did next.
pub data Next : Type 0 where
  line : Bytes → Next
  closed timeout : Next

unfoldable pub is_closed : Next → Bool
is_closed closed = true
is_closed _ = false

unfoldable pub is_timeout : Next → Bool
is_timeout timeout = true
is_timeout _ = false

-- How a read ends when no byte is left: with 0 bytes, with an error, or with its timeout.
pub data Silence : Type 0 where
  hung_up failed quiet : Silence

unfoldable pub next_of : Silence → Next
next_of hung_up = closed
next_of failed = closed
next_of quiet = timeout

-- `buf.windows(2).position(|w| w == b"\r\n")`
unfoldable pub one_more : Option ℕ → Option ℕ
one_more none = none
one_more (some i) = some (suc i)

unfoldable pub find_crlf : Bytes → Option ℕ
unfolding one_more
find_crlf (b ∷ c ∷ bs) =
    let rest = find_crlf (c ∷ bs) in if b == 13 && c == 10 then some 0 else one_more rest
find_crlf _ = none

-- A line, with the bytes that stay in the buffer and those that are not read yet.
pub record LineRead : Type 0 where
  pub next : Next
  pub buf : Bytes
  pub incoming : Bytes

unfoldable pub line_or : Bytes → Bytes → LineRead → Option ℕ → LineRead
line_or buf incoming other none = other
line_or buf incoming other (some i) = record {
  next = line (take (i + 2) buf);
  buf = drop (i + 2) buf;
  incoming = incoming;
}

unfoldable pub read_line_into : Silence → Bytes → Bytes → LineRead
unfolding line_or find_crlf next_of
read_line_into end buf [] =
    line_or buf [] (record { next = next_of end; buf = buf; incoming = [] }) (find_crlf buf)
read_line_into end buf (c ∷ cs) =
    line_or buf (c ∷ cs) (read_line_into end (buf ++ c ∷ []) cs) (find_crlf buf)

-- `absorb_ping`: true where `PONG` is sent.
unfoldable pub absorb_ping : Bool → Next → Bool
unfolding equal codes
absorb_ping auto_pong (line l) = auto_pong && equal l (codes "PING" ++ crlf)
absorb_ping auto_pong _ = false

-- `absorb_ping_bytes`, with what is left of the bytes.
unfoldable pub absorb_ping_bytes : Bool → Bytes → Bool × Bytes
unfolding equal codes
absorb_ping_bytes auto_pong bytes =
    let n = length bytes in
    if not auto_pong
    then (false, bytes)
    else if ltb n 7
        || not (equal (drop (n - 7) bytes) (codes "PING" ++ crlf))
        || not (is_empty (take (n - 7) bytes))
    then (false, bytes)
    else (true, take (n - 7) bytes)

-- `drain`, from what is collected so far.
unfoldable pub drain : Bool → Bytes → Bytes → Bytes
unfolding absorb_ping_bytes
drain auto_pong out [] = out
drain auto_pong out (c ∷ cs) = drain auto_pong (absorb_ping_bytes auto_pong (out ++ c ∷ [])).1 cs

-- `closed`, with the buffer that it leaves.
unfoldable pub is_over : Silence → Bool
is_over quiet = false
is_over _ = true

unfoldable pub closed_loop : Bool → Silence → Bytes → Bytes → Bool
unfolding absorb_ping_bytes is_over
closed_loop auto_pong end buf [] = is_over end
closed_loop auto_pong end buf (c ∷ cs) =
    let left = (absorb_ping_bytes auto_pong (buf ++ c ∷ [])).1 in
    let rest = closed_loop auto_pong end left cs in if is_empty left then rest else false

unfoldable pub has_closed : Bool → Silence → Bytes → Bytes → Bool
unfolding closed_loop
has_closed auto_pong end buf incoming =
    if is_empty buf then closed_loop auto_pong end buf incoming else false

-- `read_msg_body`: `none` where it panics.
unfoldable pub read_msg_body : ℕ → Bytes → Option Bytes
unfolding equal
read_msg_body n incoming =
    if ltb (length incoming) (n + 2)
    then none
    else if equal (drop n (take (n + 2) incoming)) crlf
    then some (take n incoming)
    else none

-- The arguments of `pub_frame` and `hpub_frame` behind the subject, each with the blank before it.
unfoldable pub reply_arg : Option Bytes → Bytes
reply_arg none = []
reply_arg (some r) = b' ' ∷ r

unfoldable pub pub_frame : Bytes → Option Bytes → Bytes → Bytes
unfolding reply_arg codes push_u64
pub_frame subject reply body =
    codes "PUB "
    ++ (subject
        ++ (reply_arg reply ++ (b' ' ∷ (push_u64 (length body) ++ (crlf ++ (body ++ crlf))))))

unfoldable pub hpub_frame : Bytes → Option Bytes → Bytes → Bytes → Bytes
unfolding reply_arg codes push_u64
hpub_frame subject reply hdr body =
    codes "HPUB "
    ++ (subject
        ++ (reply_arg reply
            ++ (b' '
                ∷ (push_u64 (length hdr)
                    ++ (b' '
                        ∷ (push_u64 (length hdr + length body)
                            ++ (crlf ++ (hdr ++ (body ++ crlf)))))))))

unfoldable pub header_lines : List Bytes → Bytes
header_lines [] = crlf
header_lines (l ∷ lines) = l ++ (crlf ++ header_lines lines)

unfoldable pub header_block : List Bytes → Bytes
unfolding header_lines codes
header_block lines = codes "NATS/1.0" ++ (crlf ++ header_lines lines)
