-- ===== src/Tests/Servers.antt =====
-- The theorems on the configuration, the server and the allocator's counters, applied at concrete inputs.
use nats_server_rs.Prelude.{
  ℕ, true, false, none, List, [], ◌∷◌, ◌++◌, Bytes, length, max, ◌-◌, ◌+◌, pos, arith, ◌≡◌, refl,
  codes, equal, ◌%◌, ◌^◌,
}
use nats_server_rs.Config.Strings.{Text, trim, before, split_once}
use nats_server_rs.Config.Number.{digits_value}
use nats_server_rs.Config.{Config, ok, bail, expected_key, default, validate}
use nats_server_rs.Config.Duration.{Float}
use nats_server_rs.Config.Flags.{Args, no_args, parse_args, is_plain, is_long}
use nats_server_rs.Config.Flags.Manual.{look_up, wants_value, is_valued}
use nats_server_rs.Config.Flags.CommandLine.{
  Opt, separate, inline, switch, lacking, IsOpt, IsEnding, written, said, parse_args-written,
}
use nats_server_rs.Config.File.{Parsed, config_lines}
use nats_server_rs.Config.File.Refused.{config_lines-refused}
use nats_server_rs.Server.{Server, new_server}
use nats_server_rs.Server.Info.{escape_all}
use nats_server_rs.Server.Info.Reader.{Reads}
use nats_server_rs.Server.Info.Escape.{escape_all-Reads}
use nats_server_rs.Server.Listener.Admission.{comes, ends, happen_all, IsOpen, happen_all-IsOpen}
use nats_server_rs.Server.Startup.{run}
use nats_server_rs.Server.Startup.Serving.{IsStarted, run-IsStarted}
use nats_server_rs.AllocStats.{fresh, counted, dealloc, bucket, sum}
use nats_server_rs.AllocStats.Ledger.{go, done, allocated, freed, live-Runs}
use nats_server_rs.AllocStats.Buckets.{InBucket, bucket-InBucket}
use nats_server_rs.Routing.Frame.{Msg, push_u64, build_frame, frame_need, frame_body}
use nats_server_rs.Routing.Frame.Digits.{parse_size-push_u64}
use nats_server_rs.Proto.Size.{parse_size}
use nats_server_rs.Arena.{ByteBuf, IsByteBuf, new_arena, tail}
use nats_server_rs.Arena.Build.{build}
use nats_server_rs.Arena.Whole.{IsArena, build-build_frame}

-- A quote, an e with an accent, and a line feed.
abbrev quoted : Text
quoted = b'"' ∷ 0xE9 ∷ 10 ∷ []

escape_all-Reads_example : Reads (escape_all quoted ++ (b'"' ∷ b',' ∷ [])) quoted (b',' ∷ [])
escape_all-Reads_example =
    escape_all-Reads quoted (b',' ∷ []) (omega arith, (omega arith, (omega arith, tt)))

-- Numbers without a point.
abbrev whole : Float
whole = record { F64 = ℕ; parse = digits_value 10 1000000 0; as_u128 = λ n. n }

-- `-p 4222 --name=n1 -D -c`, where the last flag lacks its value.
abbrev options : List Opt
options =
    separate (codes "-p") (codes "4222")
    ∷ inline (codes "--name") (codes "n1")
    ∷ switch (codes "-D")
    ∷ []

parse_args-written_example :
    parse_args (written options (lacking (codes "-c")))
    ≡ said options (lacking (codes "-c")) no_args
parse_args-written_example =
    parse_args-written options (lacking (codes "-c"))
      (unfold IsOpt codes is_plain split_once look_up equal wants_value is_valued is_long in
        (
          record { flag = refl; no_sign = refl; value = refl },
          ((refl, refl), (record { flag = refl; no_sign = refl; value = refl }, tt)),
        ))
      (unfold IsEnding codes is_plain split_once look_up equal wants_value is_valued in
        record { flag = refl; no_sign = refl; value = refl })

abbrev blank_parsed : Parsed
blank_parsed = record { cfg = default; warnings = [] }

abbrev with_port : Parsed
with_port = record { cfg = record default { port = pos 4333 }; warnings = [] }

config_lines-refused_example :
    config_lines whole 0 (codes "port: 4333" ∷ codes "hello" ∷ []) blank_parsed
    ≡ bail (expected_key 2)
config_lines-refused_example =
    config_lines-refused whole (codes "port: 4333" ∷ []) [] (codes "hello") 0 blank_parsed with_port
      (unfold config_lines codes default in refl) (unfold trim before codes in refl)
      (unfold trim before split_once codes in refl)

abbrev served : Config
served = record default { port = pos 5000 }

run-IsStarted_example :
    (args : Args) × (parse_args (codes "-p" ∷ codes "5000" ∷ []) ≡ ok args) × IsStarted args served
run-IsStarted_example =
    run-IsStarted whole (λ path. none) (codes "-p" ∷ codes "5000" ∷ []) served
      (unfold run codes validate default in refl)

server : Server
server = new_server default 7

new-IsOpen : IsOpen (record { server = server; live = [] })
unfolding server new_server default
new-IsOpen = record {
  counted = refl;
  numbered = tt;
  distinct = tt;
  limited = omega arith;
  started = omega arith;
}

happen_all-IsOpen_example : IsOpen (
    happen_all
      (comes true ∷ comes false ∷ comes true ∷ ends 1 ∷ [])
      (record { server = server; live = [] }))
happen_all-IsOpen_example =
    happen_all-IsOpen (comes true ∷ comes false ∷ comes true ∷ ends 1 ∷ []) _
      (unfold server new_server in omega arith) new-IsOpen

live-Runs_example : (dealloc 64 (counted 64 fresh)).live ≡ 0 % 2 ^ 64
unfolding sum
live-Runs_example =
    live-Runs (go (allocated fresh [] 64) (go (freed (counted 64 fresh) [] [] 64) (done _ [])))
      (unfold fresh sum in refl)

bucket-InBucket_example : InBucket 100 7
bucket-InBucket_example = bucket-InBucket 100 7 (omega arith) (unfold bucket in refl) (omega arith)

parse_size-push_u64_example : parse_size (push_u64 4096) ≡ pos 4096
parse_size-push_u64_example = parse_size-push_u64 4096 (omega arith)

-- A buffer as its bytes and its capacity.
abbrev buf : ByteBuf
buf = record {
  Buf = Bytes × ℕ;
  contents = λ x. x.0;
  capacity = λ x. x.1;
  empty = ([], 0);
  with_capacity = λ n. ([], n);
  put_slice = λ x s. (x.0 ++ s, max x.1 (length x.0 + length s));
  split = λ x. (([], x.1 - length x.0), x.0);
}

buf-IsByteBuf : IsByteBuf buf
buf-IsByteBuf = record {
  contents-empty = refl;
  contents-with_capacity = λ n. refl;
  capacity-with_capacity = λ n. omega arith;
  contents-put_slice = λ x s. refl;
  capacity-put_slice = λ x s h. omega arith;
  split-bytes = λ x. refl;
  split-contents = λ x. refl;
  split-capacity = λ x. refl;
}

abbrev message : Msg
message = record { subject = b'a' ∷ []; reply = none; hdr = 0; body = b'h' ∷ b'i' ∷ [] }

build-build_frame_example :
    ((build buf (new_arena buf) false (b'7' ∷ []) message).1
      ≡ build_frame false (b'7' ∷ []) message)
    × IsArena buf buf-IsByteBuf (build buf (new_arena buf) false (b'7' ∷ []) message).0
    × (ByteBuf.capacity buf (build buf (new_arena buf) false (b'7' ∷ []) message).0.chunk
        ≡ ByteBuf.capacity buf
            (tail buf (new_arena buf) (frame_need false (b'7' ∷ []) message)).chunk
          - length (build_frame false (b'7' ∷ []) message))
build-build_frame_example =
    build-build_frame buf buf-IsByteBuf (new_arena buf) false (b'7' ∷ []) message
      (unfold new_arena in record { clean = refl }) (omega arith) (unfold frame_body in omega arith)
