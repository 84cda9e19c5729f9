-- ===== src/Proto/Types.antt =====
-- The data of crates/server/src/proto.rs: error classes, limits, events and actions.
use nats_server_rs.Prelude.{ℕ, ℤ, String, Bool, true, false, Option, none, some, Bytes}

abbrev pub unknown_op : String
unknown_op = "Unknown Protocol Operation"

abbrev pub max_payload_text : String
max_payload_text = "Maximum Payload Violation"

abbrev pub max_control_line_text : String
max_control_line_text = "maximum control line exceeded"

abbrev pub invalid_subject : String
invalid_subject = "Invalid Subject"

abbrev pub invalid_publish_subject : String
invalid_publish_subject = "Invalid Publish Subject"

abbrev pub stale_connection : String
stale_connection = "Stale Connection"

-- `fatal`: say the text and close. `soft`: say it and go on. `silent`: close without a word.
pub data ProtoError : Type 0 where
  fatal : String → ProtoError
  soft : String → ProtoError
  silent : ProtoError

unfoldable pub err_line : ProtoError → Option String
err_line (fatal t) = some t
err_line (soft t) = some t
err_line silent = none

unfoldable pub closes : ProtoError → Bool
closes (fatal t) = true
closes (soft t) = false
closes silent = true

pub data Result {ℓ} (A : Type ℓ) : Type ℓ where
  ok : A → Result A
  err : ProtoError → Result A

infixl 5 ◌>>=◌
abbrev pub ◌>>=◌ {ℓ κ} : {A : Type ℓ} {B : Type κ} → Result A → (A → Result B) → Result B
ok a >>= f = f a
err e >>= f = err e

pub record Limits : Type 0 where
  pub max_control_line : ℕ
  pub max_payload : ℕ

pub data HpubOutcome : Type 0 where
  ok : HpubOutcome
  args : HpubOutcome
  frame : String → HpubOutcome

pub record Publish : Type 0 where
  pub subject : Bytes
  pub reply : Option Bytes
  pub hdr : ℕ
  pub total : ℕ
  pub body : Bytes
  pub hpub : Bool

pub data Event : Type 0 where
  connect : Bytes → Event
  subscribe : (subject : Bytes) → (queue : Option Bytes) → (sid : Bytes) → Event
  unsubscribe : (sid : Bytes) → (max : ℤ) → Event
  publish : Publish → Event
  ping : Event
  pong : Event
  info : Bytes → Event
  hpub_attempt : HpubOutcome → Event
  client_err : Event
  client_ok : Event

-- A `PUB` or `HPUB` line: the body follows.
pub record Header : Type 0 where
  pub subject : Bytes
  pub reply : Option Bytes
  pub hdr : ℕ
  pub need : ℕ
  pub hpub : Bool

pub data Action : Type 0 where
  event : Event → Action
  body : Header → Action
