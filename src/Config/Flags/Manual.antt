-- ===== src/Config/Flags/Manual.antt =====
-- What the options of crates/server/src/config.rs mean, as a table of their names.
use nats_server_rs.Prelude.{
  Bool, true, false, Option, none, some, List, [], ◌∷◌, All, equal, equal_iff, if◌then◌else◌, codes,
  ℤ, Bool-cases, inl, inr, arith, ◌≡◌, refl, sym, subst,
}
use nats_server_rs.Config.Strings.{Text}
use nats_server_rs.Config.Number.{parse_i32}
use nats_server_rs.Config.{invalid_port, undefined_flag, Checked, ok, bail}
use nats_server_rs.Config.Flags.{Args, unknown_flag, flag_of, is, takes_value, with_port, set_flag}

-- What an option means: with a value, or alone.
pub data Meaning : Type 0 where
  valued : (Text → Args → Checked Args) → Meaning
  alone : (Args → Args) → Meaning

unfoldable pub is_valued : Meaning → Bool
is_valued (valued f) = true
is_valued (alone f) = false

-- A port is a number of 32 bits with a sign.
unfoldable pub port_said : Text → Args → Option ℤ → Checked Args
port_said v o none = bail (invalid_port v)
port_said v o (some p) = ok (record o { port = some p })

abbrev host_said : Meaning
host_said = valued (λ v o. ok (record o { host = some v }))

abbrev a_port : Meaning
a_port = valued (λ v o. port_said v o (parse_i32 v))

abbrev name_said : Meaning
name_said = valued (λ v o. ok (record o { server_name = some v }))

abbrev config_said : Meaning
config_said = valued (λ v o. ok (record o { config_file = some v }))

abbrev ports_dir_said : Meaning
ports_dir_said = valued (λ v o. ok (record o { ports_file_dir = some v }))

abbrev test_said : Meaning
test_said = alone (λ o. record o { test_config = true })

abbrev version_said : Meaning
version_said = alone (λ o. record o { version = true })

abbrev help_said : Meaning
help_said = alone (λ o. record o { help = true })

abbrev debug_said : Meaning
debug_said = alone (λ o. record o { debug = true })

abbrev trace_said : Meaning
trace_said = alone (λ o. record o { trace = true })

-- The options that there are.
abbrev pub manual : List (Text × Meaning)
manual =
    (codes "-a", host_said)
    ∷ (codes "--addr", host_said)
    ∷ (codes "--net", host_said)
    ∷ (codes "-p", a_port)
    ∷ (codes "--port", a_port)
    ∷ (codes "-n", name_said)
    ∷ (codes "--name", name_said)
    ∷ (codes "--server_name", name_said)
    ∷ (codes "-c", config_said)
    ∷ (codes "--config", config_said)
    ∷ (codes "--ports_file_dir", ports_dir_said)
    ∷ (codes "-t", test_said)
    ∷ (codes "-v", version_said)
    ∷ (codes "--version", version_said)
    ∷ (codes "-h", help_said)
    ∷ (codes "--help", help_said)
    ∷ (codes "-D", debug_said)
    ∷ (codes "--debug", debug_said)
    ∷ (codes "-V", trace_said)
    ∷ (codes "--trace", trace_said)
    ∷ []

unfoldable pub look_up : List (Text × Meaning) → Text → Option Meaning
unfolding equal
look_up [] name = none
look_up ((k, m) ∷ rows) name = if equal name k then some m else look_up rows name

-- A name that is in no row is refused; one that stands alone has no use for a value.
unfoldable pub meant : Option Meaning → Text → Text → Args → Checked Args
meant none name v o = bail (undefined_flag name)
meant (some (valued f)) name v o = f v o
meant (some (alone f)) name v o = ok (f o)

unfoldable pub wants_value : Option Meaning → Bool
wants_value none = false
wants_value (some m) = is_valued m

-- The parser's arm for a name does what a meaning says.
record IsRight (name : Text) (m : Option Meaning) : Type 0 where
  does : (v : Text) (o : Args) → set_flag (flag_of name) name v o ≡ meant m name v o
  value : takes_value (flag_of name) ≡ wants_value m

look_up-IsRight :
    (rows : List (Text × Meaning)) (name : Text)
    → All (λ row. IsRight row.0 (some row.1)) rows
    → (look_up rows name ≡ none → IsRight name none)
    → IsRight name (look_up rows name)
unfolding look_up
look_up-IsRight [] name h f = f refl
look_up-IsRight ((k, m) ∷ rows) name h f = elim (Bool-cases (equal name k)) [
  | inl here ↦
      let same = (equal_iff name k).0 here in
      rw here (subst (λ (n : Text). IsRight n (some m)) (sym same) h.0)
  | inr other ↦ rw other (look_up-IsRight rows name h.1 (λ e. f (rw other e)))
]

-- A name that is in no row reaches the parser's last arm.
flag_of-unknown : (name : Text) → look_up manual name ≡ none → flag_of name ≡ unknown_flag
unfolding flag_of is look_up codes equal
flag_of-unknown name h = ground arith

with_port-said : (v : Text) (o : Args) (r : Option ℤ) → with_port v o r ≡ port_said v o r
unfolding with_port port_said
with_port-said v o none = refl
with_port-said v o (some p) = refl

-- Every row says what the parser's arm does.
infixr 5 ◌&◌
-- A fact on a row before the facts on those that follow.
◌&◌ : {A B : Type 0} → A → B → A × B
here & rest = (here, rest)

manual-IsRight : All (λ row. IsRight row.0 (some row.1)) manual
unfolding set_flag takes_value flag_of is equal codes meant wants_value is_valued
manual-IsRight =
    record { does = λ v o. refl; value = refl }
    & record { does = λ v o. refl; value = refl }
    & record { does = λ v o. refl; value = refl }
    & record { does = λ v o. with_port-said v o (parse_i32 v); value = refl }
    & record { does = λ v o. with_port-said v o (parse_i32 v); value = refl }
    & record { does = λ v o. refl; value = refl }
    & record { does = λ v o. refl; value = refl }
    & record { does = λ v o. refl; value = refl }
    & record { does = λ v o. refl; value = refl }
    & record { does = λ v o. refl; value = refl }
    & record { does = λ v o. refl; value = refl }
    & record { does = λ v o. refl; value = refl }
    & record { does = λ v o. refl; value = refl }
    & record { does = λ v o. refl; value = refl }
    & record { does = λ v o. refl; value = refl }
    & record { does = λ v o. refl; value = refl }
    & record { does = λ v o. refl; value = refl }
    & record { does = λ v o. refl; value = refl }
    & record { does = λ v o. refl; value = refl }
    & record { does = λ v o. refl; value = refl }
    & tt

-- Every name, in a row or not.
arm-IsRight : (name : Text) → IsRight name (look_up manual name)
unfolding set_flag takes_value meant wants_value
arm-IsRight name = look_up-IsRight manual name manual-IsRight (λ none_there.
    let arm = flag_of-unknown name none_there in
    record { does = λ v o. rw arm refl; value = rw arm refl })

-- The parser's arm for a name, known or not, does what the table says, and takes a value where the
-- table says so.
pub set_flag_lem :
    (name v : Text) (o : Args)
    → set_flag (flag_of name) name v o ≡ meant (look_up manual name) name v o
set_flag_lem name v o = (arm-IsRight name).does v o

pub takes_value_lem : (name : Text) → takes_value (flag_of name) ≡ wants_value (look_up manual name)
takes_value_lem name = (arm-IsRight name).value
