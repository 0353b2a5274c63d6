-- ===== src/Inference/Policy.antt =====
-- apps/ml-platform/rust-inference/src/decision/policy.rs: the enforcement policy and its checks.
-- Reading the file and the YAML parser are arguments; `f32` gives the literals of the format.
pub mod Ranges
use fps_anticheat_data_platf.Prelude.{
  Bool, true, false, not, ◌||◌, String, Option, none, some, List, [], ◌∷◌, is_empty, if◌then◌else◌,
}
use fps_anticheat_data_platf.Prelude.Float.{Float, lt, le, is_finite, nought, Arithmetic}
use fps_anticheat_data_platf.Prelude.Text.{is_blank, concat, trim}
use fps_anticheat_data_platf.Prelude.Result.{Result, ok, err}
use fps_anticheat_data_platf.Inference.Error.{AppError, policy}

pub record RuleConfig : Type 0 where
  pub name : String
  pub min_score : Float
  pub max_score : Float
  pub min_headshot_zscore : Option Float
  pub action : String
  pub priority : String
  pub reason : String

pub record PolicyConfig : Type 0 where
  pub version : String
  pub default_action : String
  pub rules : List RuleConfig

module _ (f32 : Arithmetic) where
  abbrev pub default_max_score : Float
  default_max_score = f32.literal 101 2

  -- the test that refuses a rule
  unfoldable pub is_bad_rule : RuleConfig → Bool
  is_bad_rule rule =
      is_blank (trim rule.name)
      || not (is_finite rule.min_score)
      || not (is_finite rule.max_score)
      || lt rule.min_score nought
      || lt (f32.literal 101 2) rule.max_score
      || le rule.max_score rule.min_score

  unfoldable pub validate_rules : List RuleConfig → Result AppError (Unit {0})
  unfolding is_bad_rule
  validate_rules [] = ok tt
  validate_rules (rule ∷ rest) =
      let checked = validate_rules rest in
      if is_bad_rule rule
      then err (policy (concat ("Rule '" ∷ rule.name ∷ "' có range không hợp lệ" ∷ [])))
      else checked

  unfoldable pub validate : PolicyConfig → Result AppError (Unit {0})
  unfolding validate_rules
  validate p =
      if is_blank (trim p.version) || is_empty p.rules
      then err (policy "Policy version và rules không được rỗng")
      else validate_rules p.rules

  abbrev validated : PolicyConfig → Result AppError (Unit {0}) → Result AppError PolicyConfig
  validated p (ok _) = ok p
  validated p (err e) = err e

  abbrev parsed : Result String PolicyConfig → Result AppError PolicyConfig
  parsed (err e) = err (policy (concat ("Policy YAML không hợp lệ: " ∷ e ∷ [])))
  parsed (ok p) = validated p (validate p)

  abbrev read_and_parsed :
      String
      → (String → Result String PolicyConfig)
      → Result String String
      → Result AppError PolicyConfig
  read_and_parsed path from_yaml (err e) =
      err (policy (concat ("Không đọc được " ∷ path ∷ ": " ∷ e ∷ [])))
  read_and_parsed path from_yaml (ok content) = parsed (from_yaml content)

  -- `is_file` and `content` are the answers of the file system for the path
  unfoldable pub load_from_file :
      (String → Result String PolicyConfig)
      → String
      → Bool
      → Result String String
      → Result AppError PolicyConfig
  unfolding validate
  load_from_file from_yaml path is_file content =
      if not is_file
      then err (policy (concat ("Không tìm thấy policy file tại " ∷ path ∷ [])))
      else read_and_parsed path from_yaml content
