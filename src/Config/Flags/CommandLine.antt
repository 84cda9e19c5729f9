-- ===== src/Config/Flags/CommandLine.antt =====
-- `parse_args` of crates/server/src/config.rs on command lines written from a list of options.
use nats_server_rs.Prelude.{
  ℕ, Bool, true, false, Option, none, some, List, [], ◌∷◌, ◌++◌, ◌==◌, All, if◌then◌else◌,
  Bool-cases, inl, inr, arith, ◌≡◌, refl, ap, ◌∙◌,
}
use nats_server_rs.Config.Strings.{Text, split_once, onto_left}
use nats_server_rs.Config.{needs_argument, Checked, ok, bail, ◌>>=◌}
use nats_server_rs.Config.Flags.{
  Args, no_args, Flag, flag_of, takes_value, set_flag, is_plain, is_long, parted, set, wants,
  round_of, round, parse_loop, parse_args,
}
use nats_server_rs.Config.Flags.Manual.{
  manual, look_up, meant, wants_value, set_flag_lem, takes_value_lem,
}

-- An option as a user writes it: `-p 4222`, `--port=4222`, `-D`.
pub data Opt : Type 0 where
  separate inline : Text → Text → Opt
  switch : Text → Opt

-- What stands behind the options: nothing, an argument that is no flag and what follows it, or a flag
-- that lacks its value.
pub data Ending : Type 0 where
  nothing : Ending
  plain : Text → List Text → Ending
  lacking : Text → Ending

pub record IsName (name : Text) (valued : Bool) : Type 0 where
  pub flag : is_plain name ≡ false
  pub no_sign : split_once b'=' name ≡ none
  pub value : wants_value (look_up manual name) ≡ valued

unfoldable pub IsOpt : Opt → Type 0
IsOpt (separate name v) = IsName name true
IsOpt (inline name v) = (is_long name ≡ true) × (split_once b'=' name ≡ none)
IsOpt (switch name) = IsName name false

unfoldable pub IsEnding : Ending → Type 0
IsEnding nothing = Unit
IsEnding (plain arg rest) = is_plain arg ≡ true
IsEnding (lacking name) = IsName name true

unfoldable pub written : List Opt → Ending → List Text
written [] nothing = []
written [] (plain arg rest) = arg ∷ rest
written [] (lacking name) = name ∷ []
written (separate name v ∷ opts) e = name ∷ v ∷ written opts e
written (inline name v ∷ opts) e = (name ++ b'=' ∷ v) ∷ written opts e
written (switch name ∷ opts) e = name ∷ written opts e

-- What an option with the value `v` says by the table.
abbrev says : Text → Text → Args → Checked Args
says name v o = meant (look_up manual name) name v o

-- What the options say, one after the other.
unfoldable pub said : List Opt → Ending → Args → Checked Args
unfolding meant look_up
said [] nothing o = ok o
said [] (plain arg rest) o = ok o
said [] (lacking name) o = bail (needs_argument name)
said (separate name v ∷ opts) e o = says name v o >>= said opts e
said (inline name v ∷ opts) e o = says name v o >>= said opts e
said (switch name ∷ opts) e o = says name [] o >>= said opts e

split_once-joined :
    (c : ℕ) (s v : Text) → split_once c s ≡ none → split_once c (s ++ c ∷ v) ≡ some (s, v)
unfolding split_once onto_left
split_once-joined c [] v h = ground arith
split_once-joined c (d ∷ s) v h = elim (Bool-cases (d == c)) [
  | inl e ↦ ground (arith, e)
  | inr e ↦ ground (arith, e, split_once-joined c s v)
]

bind-same {ℓ} :
    {A : Type ℓ} (r : Checked A) (f g : A → Checked A)
    → ((x : A) → f x ≡ g x)
    → (r >>= f) ≡ (r >>= g)
bind-same (ok x) f g h = h x
bind-same (bail e) f g h = refl

-- The parser's arm, then a rest that agrees, is what the table says, then that rest.
set_flag-says :
    (name v : Text) (o : Args) (f g : Args → Checked Args)
    → ((x : Args) → f x ≡ g x)
    → (set_flag (flag_of name) name v o >>= f) ≡ (says name v o >>= g)
set_flag-says name v o f g h =
    bind-same (set_flag (flag_of name) name v o) f g h ∙ ap (λ r. r >>= g) (set_flag_lem name v o)

-- Arguments that part into a name and a value, or not, are handled by the flag's arm.
round-parted :
    (arg : Text) (o : Args) (split : Option (Text × Text))
    → split_once b'=' arg ≡ split
    → round arg o ≡ round_of (flag_of (parted arg split).0) o (parted arg split)
unfolding round
round-parted arg o split h = ap (λ w. round_of (flag_of (parted arg w).0) o (parted arg w)) h

round_of-bare :
    (flag : Flag) (o : Args) (name : Text)
    → round_of flag o (name, none)
      ≡ (if takes_value flag then wants flag name else set (set_flag flag name [] o))
unfolding round_of
round_of-bare flag o name = refl

-- A name that has no `=` in it.
round-bare :
    (name : Text) (o : Args) (valued : Bool)
    → IsName name valued
    → round name o
      ≡ (if valued then wants (flag_of name) name else set (set_flag (flag_of name) name [] o))
unfolding parted
round-bare name o valued h =
    round-parted name o none h.no_sign
    ∙ round_of-bare (flag_of name) o name
    ∙ ap (λ b. if b then wants (flag_of name) name else set (set_flag (flag_of name) name [] o))
        (takes_value_lem name ∙ h.value)

parted-long : (arg n v : Text) → is_long n ≡ true → parted arg (some (n, v)) ≡ (n, some v)
unfolding parted
parted-long arg n v h = rw h

round-inline :
    (name v : Text) (o : Args)
    → is_long name ≡ true
    → split_once b'=' name ≡ none
    → round (name ++ b'=' ∷ v) o ≡ set (set_flag (flag_of name) name v o)
unfolding round_of
round-inline name v o long no_sign =
    round-parted _ o (some (name, v)) (split_once-joined b'=' name v no_sign)
    ∙ ap (λ w. round_of (flag_of w.0) o w) (parted-long _ name v long)

is_plain-inline : (name v : Text) → is_long name ≡ true → is_plain (name ++ b'=' ∷ v) ≡ false
unfolding is_plain is_long
is_plain-inline [] v h = cc
is_plain-inline (c ∷ []) v h = cc
is_plain-inline (c ∷ d ∷ s) v h = ground arith

loop-plain :
    (arg : Text) (argv : List Text) (o : Args)
    → is_plain arg ≡ true
    → parse_loop (arg ∷ argv) none o ≡ ok o
unfolding parse_loop
loop-plain arg argv o h = cc

loop-set :
    (arg : Text) (argv : List Text) (o : Args) (r : Checked Args)
    → is_plain arg ≡ false
    → round arg o ≡ set r
    → parse_loop (arg ∷ argv) none o ≡ (r >>= parse_loop argv none)
unfolding parse_loop
loop-set arg argv o r h e = cc

loop-wants :
    (arg : Text) (argv : List Text) (o : Args) (flag : Flag) (name : Text)
    → is_plain arg ≡ false
    → round arg o ≡ wants flag name
    → parse_loop (arg ∷ argv) none o ≡ parse_loop argv (some (flag, name)) o
unfolding parse_loop
loop-wants arg argv o flag name h e = cc

parse_loop-written :
    (opts : List Opt) (e : Ending) (o : Args)
    → All IsOpt opts
    → IsEnding e
    → parse_loop (written opts e) none o ≡ said opts e o
unfolding parse_loop written said IsOpt IsEnding
parse_loop-written [] nothing o h he = refl
parse_loop-written [] (plain arg rest) o h he = loop-plain arg rest o he
parse_loop-written [] (lacking name) o h he =
    loop-wants name [] o (flag_of name) name he.flag (round-bare name o true he)
parse_loop-written (separate name v ∷ opts) e o h he =
    loop-wants name (v ∷ written opts e) o (flag_of name) name h.0.flag (round-bare name o true h.0)
    ∙ set_flag-says name v o _ _ (λ o'. parse_loop-written opts e o' h.1 he)
parse_loop-written (inline name v ∷ opts) e o h he =
    loop-set (name ++ b'=' ∷ v) (written opts e) o _ (is_plain-inline name v h.0.0)
      (round-inline name v o h.0.0 h.0.1)
    ∙ set_flag-says name v o _ _ (λ o'. parse_loop-written opts e o' h.1 he)
parse_loop-written (switch name ∷ opts) e o h he =
    loop-set name (written opts e) o _ h.0.flag (round-bare name o false h.0)
    ∙ set_flag-says name [] o _ _ (λ o'. parse_loop-written opts e o' h.1 he)

-- On a command line written from options with or without inline values and then nothing, an
-- argument that is no flag, or a flag that lacks its value, the parser does what the options mean,
-- one after the other, up to the first that is refused; what each of the twenty names means is
-- read from a table, by which a port that is no number and a name that is not in the table are
-- refused; it stops at the argument that is no flag, and answers the flag at the end with the
-- error that names it.
pub parse_args-written :
    (opts : List Opt) (e : Ending)
    → All IsOpt opts
    → IsEnding e
    → parse_args (written opts e) ≡ said opts e no_args
unfolding parse_args
parse_args-written opts e h he = parse_loop-written opts e no_args h he
