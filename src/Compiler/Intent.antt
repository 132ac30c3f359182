-- ===== src/Compiler/Intent.antt =====
-- crates/compiler/src/intent.rs: the structural validation of an intent.
pub mod Stages
pub mod Chain
pub mod Accepts
use helixflow.Base.{
  ℕ, zero, suc, String, Bool, true, false, not, ◌&&◌, ◌||◌, List, [], ◌∷◌, ◌++◌, map, Result, ok,
  err, ensure, for_each, ◌>>=◌, ◌>>◌, if◌then◌else◌, ltb, leb, ◌==◌, length, any, all, retain, same,
  is_some, concat, quoted, join, byte_len,
}
use helixflow.Base.Keys.{member, sort_dedup}
use helixflow.Base.Sorting.{sort_by}
use helixflow.Json.{as_object}
use helixflow.Registry.Names.{Text, codes}
use helixflow.Registry.Params.{is_empty}
use helixflow.Compiler.Types.{
  IntentPlan, StageIntent, StageInputRef, TopologyIntent, linear, parallel, CompileError,
  intent_invalid,
}
use helixflow.Compiler.Types

abbrev pub Checked : Type 0
Checked = Result (Unit {0}) CompileError

abbrev pub intent_version : String
intent_version = "1"

abbrev pub is_lower : ℕ → Bool
is_lower c = leb b'a' c && leb c b'z'

abbrev pub is_digit : ℕ → Bool
is_digit c = leb b'0' c && leb c b'9'

abbrev pub id_char : ℕ → Bool
id_char c = is_lower c || is_digit c || c == b'_' || c == b'-'

abbrev starts_lower : Text → Bool
starts_lower [] = false
starts_lower (c ∷ cs) = is_lower c && all id_char cs

unfoldable pub valid_stage_id : String → Bool
valid_stage_id stage_id = starts_lower (codes stage_id) && leb (byte_len stage_id) 64

abbrev pub stage_ids : List StageIntent → List String
stage_ids stages = map (λ s. s.stage_id) stages

-- The loop over a stage's references.
unfoldable pub check_references : List String → StageIntent → Checked
unfolding same
check_references seen stage =
    for_each
      (λ (input : StageInputRef). ensure (member input.stage_id seen) (
        Types.topology (
          concat (
            "stage "
            ∷ quoted stage.stage_id
            ∷ " references "
            ∷ quoted input.stage_id
            ∷ " which is not an earlier stage"
            ∷ []))))
      stage.input_from

-- The loop over the stages.
unfoldable pub check_stages : List String → List StageIntent → Checked
unfolding valid_stage_id check_references as_object same
check_stages seen [] = ok tt
check_stages seen (stage ∷ stages) = do
  ensure (valid_stage_id stage.stage_id)
      (intent_invalid (concat ("invalid stageId " ∷ quoted stage.stage_id ∷ [])))
  ensure (not (member stage.stage_id seen))
      (intent_invalid (concat ("duplicate stageId " ∷ quoted stage.stage_id ∷ [])))
  ensure (is_some (as_object stage.params)) (
      intent_invalid (concat ("stage " ∷ quoted stage.stage_id ∷ " params must be an object" ∷ [])))
  check_references seen stage
  check_stages (seen ++ stage.stage_id ∷ []) stages

abbrev pub input_stages : List StageInputRef → List String
input_stages inputs = map (λ i. i.stage_id) inputs

abbrev pub referenced : List StageIntent → List String
referenced [] = []
referenced (stage ∷ stages) = input_stages stage.input_from ++ referenced stages

abbrev pub sinks : List StageIntent → List String
sinks stages = retain (λ id. not (member id (referenced stages))) (stage_ids stages)

unfoldable pub same_strings : List String → List String → Bool
unfolding same
same_strings [] [] = true
same_strings (a ∷ as_) (b ∷ bs) = same a b && same_strings as_ bs
same_strings _ _ = false

-- `{:?}` of a list of stage ids, whose characters need no escapes.
abbrev debug_ids : List String → String
debug_ids ids = concat ("[" ∷ join ", " (map (λ i. concat ("\"" ∷ i ∷ "\"" ∷ [])) ids) ∷ "]" ∷ [])

-- The loop over the stages of a linear intent, behind the first.
unfoldable pub check_chain : String → List StageIntent → Checked
unfolding same
check_chain previous [] = ok tt
check_chain previous (stage ∷ stages) = do
  ensure
      (not (
        is_empty stage.input_from
        || any (λ (i : StageInputRef). not (same i.stage_id previous)) stage.input_from))
      (Types.topology (
        concat (
          "linear intent: stage "
          ∷ quoted stage.stage_id
          ∷ " must consume exactly the previous stage "
          ∷ quoted previous
          ∷ [])))
  check_chain stage.stage_id stages

unfoldable pub check_linear : List StageIntent → Checked
unfolding check_chain
check_linear [] = ok tt
check_linear (stage ∷ stages) = do
  ensure (is_empty stage.input_from) (
      Types.topology (
        concat (
          "linear intent: first stage "
          ∷ quoted stage.stage_id
          ∷ " cannot consume another stage"
          ∷ [])))
  check_chain stage.stage_id stages

abbrev pub check_shape : TopologyIntent → List StageIntent → Checked
check_shape parallel stages = ok tt
check_shape linear stages = do
  check_linear stages
  ensure (length (sinks stages) == 1) (
      Types.topology (
        concat
          ("linear intent must end in exactly one stage, found " ∷ debug_ids (sinks stages) ∷ [])))

unfoldable pub validate_topology : IntentPlan → Checked
unfolding check_linear sort_dedup sort_by same_strings same
validate_topology intent = do
  let declared = sort_dedup intent.output_stage_ids
  let actual = sort_by (λ id. id) (sinks intent.stages)
  ensure (same_strings declared actual) (
      Types.topology (
        concat (
          "outputStageIds "
          ∷ debug_ids declared
          ∷ " do not match the terminal stages "
          ∷ debug_ids actual
          ∷ [])))
  check_shape intent.topology intent.stages

unfoldable pub validate_intent : IntentPlan → Checked
unfolding check_stages validate_topology same
validate_intent intent = do
  ensure (same intent.intent_version intent_version)
      (intent_invalid (concat ("unsupported intentVersion " ∷ quoted intent.intent_version ∷ [])))
  ensure (not (is_empty intent.stages)) (intent_invalid "intent has no stages")
  ensure (not (is_empty intent.output_stage_ids))
      (intent_invalid "intent declares no output stages")
  check_stages [] intent.stages
  for_each
      (λ id.
        ensure (member id (stage_ids intent.stages))
          (intent_invalid (concat ("outputStageIds references unknown stage " ∷ quoted id ∷ []))))
      intent.output_stage_ids
  validate_topology intent
