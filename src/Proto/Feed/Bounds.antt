-- ===== src/Proto/Feed/Bounds.antt =====
-- The sizes that `parse_line` and `feed_into` of crates/server/src/proto.rs hand on.
use nats_server_rs.Prelude.{
  ℕ, ◌≤◌, ℤ, pos, pos_part, Bool, true, false, Option, none, some, [], ◌∷◌, ◌≡◌, refl, Bytes, ltb,
  ltb_ℤ, ltb-false→le, ◌||◌, Bool-cases, inl, inr, arith, if◌then◌else◌,
}
use nats_server_rs.Proto.Types.{Limits, Event, Header, Result, Action, ProtoError}
use nats_server_rs.Proto.Line.{
  parse_line, dispatch, pub_line, pub_args, sized, refuse, sub_line, unsub_line, object_arg, Shape,
}
use nats_server_rs.Proto.Args.{Args}

-- The header block lies within the body, and the body within the limit.
pub record IsHeader (lim : Limits) (h : Header) : Type 0 where
  pub within : h.hdr ≤ h.need
  pub limited : h.need ≤ lim.max_payload

abbrev pub NotPublish : Event → Type 0
NotPublish (Event.publish e) = ⊥
NotPublish _ = Unit

-- A line gives an error, an event that is no publish, or a body of an allowed size.
pub data IsAction (lim : Limits) : Result Action → Type 0 where
  fails : (e : ProtoError) → IsAction lim (Result.err e)
  event : (ev : Event) → NotPublish ev → IsAction lim (Result.ok (Action.event ev))
  body : (h : Header) → IsHeader lim h → IsAction lim (Result.ok (Action.body h))

IsAction-if :
    {lim : Limits} (b : Bool) (r s : Result Action)
    → (b ≡ true → IsAction lim r)
    → (b ≡ false → IsAction lim s)
    → IsAction lim (if b then r else s)
IsAction-if true r s hr hs = hr refl
IsAction-if false r s hr hs = hs refl

-- The three tests that a pair of sizes has passed.
sized_within :
    (hdr total : ℤ)
    → (ltb_ℤ hdr (pos 0) || ltb_ℤ total (pos 0) || ltb_ℤ total hdr) ≡ false
    → pos_part hdr ≤ pos_part total
sized_within hdr total h = ground arith

module _ (lim : Limits) where
  refuse-IsAction : (hpub : Bool) → IsAction lim (refuse hpub)
  unfolding refuse
  refuse-IsAction true = search event
  refuse-IsAction false = search fails

  sized-IsAction :
      (hpub : Bool) (subject : Bytes) (reply : Option Bytes) (hdr total : ℤ)
      → IsAction lim (sized hpub lim subject reply hdr total)
  sized-IsAction hpub subject reply hdr total =
      elim (Bool-cases (ltb_ℤ hdr (pos 0) || ltb_ℤ total (pos 0) || ltb_ℤ total hdr)) [
        | inl bad ↦ unfold sized in rw bad (refuse-IsAction hpub)
        | inr good ↦ elim (Bool-cases (ltb lim.max_payload (pos_part total))) [
          | inl big ↦ unfold sized in rw (good, big) (search fails)
          | inr fits ↦
              let within = sized_within hdr total good in
              unfold sized in
              rw (good, fits) (body _ (record { within = within; limited = ltb-false→le _ _ fits }))
        ]
      ]

  pub_args-IsAction :
      (hpub : Bool) (line : Bytes) (args : Args) (sh : Option Shape)
      → IsAction lim (pub_args hpub lim line args sh)
  unfolding pub_args
  pub_args-IsAction hpub line args none = refuse-IsAction hpub
  pub_args-IsAction hpub line args (some sh) = search sized-IsAction

  pub_line-IsAction :
      (line rest : Bytes) (has_args hpub : Bool)
      → IsAction lim (pub_line line rest has_args hpub lim)
  unfolding pub_line
  pub_line-IsAction line rest has_args hpub = search (IsAction-if, fails, pub_args-IsAction)

  sub_line-IsAction :
      (line rest : Bytes) (has_args : Bool) (end : ℕ)
      → IsAction lim (sub_line line rest has_args end)
  unfolding sub_line
  sub_line-IsAction line rest has_args end = search (IsAction-if, fails, event)

  unsub_line-IsAction :
      (line rest : Bytes) (has_args : Bool) (end : ℕ)
      → IsAction lim (unsub_line line rest has_args end)
  unfolding unsub_line
  unsub_line-IsAction line rest has_args end = search (IsAction-if, fails, event)

  connect-IsAction : (tail : Bytes) (i : Option ℕ) → IsAction lim (object_arg Event.connect tail i)
  unfolding object_arg
  connect-IsAction tail none = search fails
  connect-IsAction tail (some i) = search event

  info-IsAction : (tail : Bytes) (i : Option ℕ) → IsAction lim (object_arg Event.info tail i)
  unfolding object_arg
  info-IsAction tail none = search fails
  info-IsAction tail (some i) = search event

  dispatch-IsAction :
      (c : ℕ) (line : Bytes) (end : ℕ) (rest : Bytes) (has_args : Bool)
      → IsAction lim (dispatch c line end rest has_args lim)
  unfolding dispatch
  dispatch-IsAction c line end rest has_args =
      search
        (
          IsAction-if, fails, event, pub_line-IsAction, sub_line-IsAction, unsub_line-IsAction,
          connect-IsAction, info-IsAction,
        )
        depth 14

  -- A line gives an error, an event that is no publish, or the header of a body whose header block
  -- lies within it and whose size is within the limit.
  pub parse_line-IsAction : (line : Bytes) → IsAction lim (parse_line line lim)
  unfolding parse_line
  parse_line-IsAction [] = search fails
  parse_line-IsAction (b ∷ bs) = search dispatch-IsAction
