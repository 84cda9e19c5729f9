-- ===== src/Wire/Published.antt =====
-- A frame of crates/core-it/src/wire.rs through `feed_into` of crates/server/src/proto.rs.
use nats_server_rs.Prelude.{
  ℕ, ◌^◌, ◌≤◌, ◌<◌, Bool, true, false, Option, none, some, List, [], ◌∷◌, ◌++◌, append_assoc,
  append-nil, Bytes, leb, ◌==◌, length, length-append, All, All-append, codes, arith, ◌≡◌, refl,
  ◌∙◌,
}
use nats_server_rs.Routing.Frame.{crlf}
use nats_server_rs.Proto.Types.{Limits, Action, Result}
use nats_server_rs.Proto.Args.Words.{spaced}
use nats_server_rs.Proto.Line.{pub_line, parse_line, dispatch, starts}
use nats_server_rs.Proto.Feed.{find_crlf}
use nats_server_rs.Wire.{reply_arg, pub_frame, hpub_frame}
use nats_server_rs.Wire.Frames.{IsToken, IsReply, words, asked, words-IsToken, pub_line-asked}

abbrev verb : Bool → Bytes
verb false = b'P' ∷ b'U' ∷ b'B' ∷ []
verb true = b'H' ∷ b'P' ∷ b'U' ∷ b'B' ∷ []

parse_line-pub :
    (hpub : Bool) (bs : Bytes) (lim : Limits)
    → parse_line (verb hpub ++ (b' ' ∷ bs)) lim
      ≡ pub_line (verb hpub ++ (b' ' ∷ bs)) (b' ' ∷ bs) true hpub lim
unfolding parse_line dispatch starts codes
parse_line-pub false bs lim =
    let long : leb 4 (length (verb false ++ (b' ' ∷ bs))) ≡ true = ground arith in rw long refl
parse_line-pub true bs lim = refl

-- The parser finds the end of a line whose bytes are no CR.
find_crlf_line :
    (bs rest : Bytes)
    → All (λ b. (b == 13) ≡ false) bs
    → find_crlf (bs ++ (crlf ++ rest)) ≡ some (length bs)
unfolding find_crlf
find_crlf_line [] rest h = refl
find_crlf_line (b ∷ []) rest h = rw h.0 refl
find_crlf_line (b ∷ c ∷ bs) rest h = rw (h.0, find_crlf_line (c ∷ bs) rest h.1) refl

spaced-no_cr : (ws : List Bytes) → All IsToken ws → All (λ b. (b == 13) ≡ false) (spaced ws)
unfolding spaced
spaced-no_cr [] h = tt
spaced-no_cr (w ∷ ws) h =
    (refl, All-append (λ b. (b == 13) ≡ false) w (spaced ws) h.0.no_cr (spaced-no_cr ws h.1))

verb-no_cr : (hpub : Bool) → All (λ b. (b == 13) ≡ false) (verb hpub)
verb-no_cr false = (refl, (refl, (refl, tt)))
verb-no_cr true = (refl, (refl, (refl, (refl, tt))))

-- The control line of a publish, without its CRLF.
abbrev pub control : Bool → Bytes → Option Bytes → ℕ → ℕ → Bytes
control hpub s reply h n = verb hpub ++ spaced (words hpub s reply h n)

pub pub_frame-control :
    (s : Bytes) (reply : Option Bytes) (body rest : Bytes)
    → pub_frame s reply body ++ rest
      ≡ control false s reply 0 (length body) ++ (crlf ++ (body ++ (crlf ++ rest)))
unfolding pub_frame reply_arg spaced codes
pub_frame-control s none body rest = simp (append_assoc, append-nil) refl
pub_frame-control s (some r) body rest = simp (append_assoc, append-nil) refl

pub hpub_frame-control :
    (s : Bytes) (reply : Option Bytes) (hdr body rest : Bytes)
    → hpub_frame s reply hdr body ++ rest
      ≡ control true s reply (length hdr) (length (hdr ++ body))
        ++ (crlf ++ ((hdr ++ body) ++ (crlf ++ rest)))
unfolding hpub_frame reply_arg spaced codes
hpub_frame-control s none hdr body rest =
    rw (length-append hdr body) (simp (append_assoc, append-nil) refl)
hpub_frame-control s (some r) hdr body rest =
    rw (length-append hdr body) (simp (append_assoc, append-nil) refl)

parse_line-words :
    (hpub : Bool) (s : Bytes) (reply : Option Bytes) (h n : ℕ) (lim : Limits)
    → parse_line (control hpub s reply h n) lim
      ≡ pub_line (control hpub s reply h n) (spaced (words hpub s reply h n)) true hpub lim
unfolding spaced
parse_line-words false s none h n lim = parse_line-pub false _ lim
parse_line-words false s (some r) h n lim = parse_line-pub false _ lim
parse_line-words true s none h n lim = parse_line-pub true _ lim
parse_line-words true s (some r) h n lim = parse_line-pub true _ lim

pub parse_line-control :
    (hpub : Bool) (s : Bytes) (reply : Option Bytes) (h n : ℕ) (lim : Limits)
    → IsToken s
    → IsReply reply
    → h ≤ n
    → n < 10 ^ 9
    → n ≤ lim.max_payload
    → parse_line (control hpub s reply h n) lim ≡ Result.ok (Action.body (asked hpub s reply h n))
parse_line-control hpub s reply h n lim t r le small few =
    parse_line-words hpub s reply h n lim
    ∙ pub_line-asked hpub (verb hpub) s reply h n lim t r le small few

pub find_crlf-control :
    (hpub : Bool) (s : Bytes) (reply : Option Bytes) (h n : ℕ) (rest : Bytes)
    → IsToken s
    → IsReply reply
    → h < 10 ^ 9
    → n < 10 ^ 9
    → find_crlf (control hpub s reply h n ++ (crlf ++ rest))
      ≡ some (length (control hpub s reply h n))
find_crlf-control hpub s reply h n rest t r hl nl = find_crlf_line (control hpub s reply h n) rest (
    All-append (λ b. (b == 13) ≡ false) (verb hpub) (spaced (words hpub s reply h n))
      (verb-no_cr hpub) (spaced-no_cr _ (words-IsToken hpub s reply h n t r hl nl)))
