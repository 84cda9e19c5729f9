-- ===== src/Config/File/Refused.antt =====
-- A line that `parse_config` of crates/server/src/config.rs refuses.
use nats_server_rs.Prelude.{
  ℕ, suc, ◌+◌, false, none, List, [], ◌∷◌, ◌++◌, length, is_empty, arith, ◌≡◌, ap, ◌∙◌,
}
use nats_server_rs.Config.Strings.{Text, trim, before, split_once}
use nats_server_rs.Config.{expected_key, Checked, ok, bail, ◌>>=◌}
use nats_server_rs.Config.Duration.{Float}
use nats_server_rs.Config.File.{Parsed, key_value, config_line, config_lines}

module _ (float : Float) where
  go_on :
      (r : Checked Parsed) (idx : ℕ) (raws rest : List Text) (p' : Parsed)
      → ((q : Parsed)
          → config_lines float idx raws q ≡ ok p'
          → config_lines float idx (raws ++ rest) q
            ≡ config_lines float (idx + length raws) rest p')
      → (r >>= config_lines float idx raws) ≡ ok p'
      → (r >>= config_lines float idx (raws ++ rest))
        ≡ config_lines float (idx + length raws) rest p'
  go_on (ok q) idx raws rest p' ih h = ih q h
  go_on (bail e) idx raws rest p' ih h = cc

  config_lines-append :
      (raws rest : List Text) (idx : ℕ) (p p' : Parsed)
      → config_lines float idx raws p ≡ ok p'
      → config_lines float idx (raws ++ rest) p ≡ config_lines float (idx + length raws) rest p'
  unfolding config_lines
  config_lines-append [] rest idx p p' h = grind arith
  config_lines-append (raw ∷ raws) rest idx p p' h =
      go_on (config_line float idx raw p) (suc idx) raws rest p'
        (λ q. config_lines-append raws rest (suc idx) q p') h
      ∙ ap (λ n. config_lines float n rest p') (omega arith)

  config_line-no_sign :
      (raw : Text) (idx : ℕ) (p : Parsed)
      → is_empty (trim (before b'#' raw)) ≡ false
      → split_once b':' (trim (before b'#' raw)) ≡ none
      → config_line float idx raw p ≡ bail (expected_key (idx + 1))
  unfolding config_line key_value
  config_line-no_sign raw idx p h e = rw (h, e)

  -- Behind lines that are accepted, a line that is not blank without its comment and has no colon
  -- there ends the parsing with the error that carries its own number, counted from 1.
  pub config_lines-refused :
      (raws rest : List Text) (raw : Text) (idx : ℕ) (p p' : Parsed)
      → config_lines float idx raws p ≡ ok p'
      → is_empty (trim (before b'#' raw)) ≡ false
      → split_once b':' (trim (before b'#' raw)) ≡ none
      → config_lines float idx (raws ++ raw ∷ rest) p ≡ bail (expected_key (idx + length raws + 1))
  unfolding config_lines
  config_lines-refused raws rest raw idx p p' h blank no_sign =
      config_lines-append raws (raw ∷ rest) idx p p' h
      ∙ ap (λ r. r >>= config_lines float (suc (idx + length raws)) rest)
          (config_line-no_sign raw (idx + length raws) p' blank no_sign)
