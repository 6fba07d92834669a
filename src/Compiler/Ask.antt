-- ===== src/Compiler/Ask.antt =====
-- workflow_gen.py: what the compiler sends to the model, and the document that it finds in the answer.
-- HTTP, `json.dumps`, `json.loads` and the white space of `str.strip` and of `\s` are parameters. A text
-- that is searched is the list of its code points.

pub mod Sealed
pub mod Found
use Prim.Native.String
use brain_flow.Prelude.{
  ℕ, String, Bool, true, false, ◌&&◌, Option, none, some, List, [], ◌∷◌, ◌==◌, if◌then◌else◌, any,
  not,
}
use brain_flow.Prelude.Text.{Codes, codes, starts_with, ends_with, codes_eq, take_chars}
use brain_flow.Kernel.Delimit.{delimit_untrusted}
use brain_flow.Compiler.Packs.{Pack}
use brain_flow.Compiler.Generate.{RawDoc, pack_name}

-- `user`, without its constant stage.
pub record UserPayload : Type 0 where
  pub goal_prompt : String
  pub domain_pack_id : String
  pub allowed_node_types : List String
  pub preferred_model : String
  pub untrusted_evidence : Codes

unfoldable pub user_payload : Pack → String → String → String → UserPayload
unfolding delimit_untrusted
user_payload pack prompt source_text model = record {
  goal_prompt = prompt;
  domain_pack_id = pack_name pack;
  allowed_node_types = pack.allowed_node_types;
  preferred_model = model;
  untrusted_evidence = delimit_untrusted (codes "intake") (codes (take_chars 6000 source_text));
}

-- A message of the system holds the constant SYSTEM_PROMPT.
pub data Message : Type 0 where
  system : Message
  user : Codes → Message

pub record ChatBody : Type 0 where
  pub model : String
  pub messages : List Message
  pub num_predict : ℕ

pub data AskError : Type 0 where
  http_error empty_response not_json not_object : AskError

pub data Asked (A : Type 0) : Type 0 where
  asked : A → Asked A
  failed : AskError → Asked A

-- What the program does not implement. `post` gives the content of the message that is answered, if
-- there is one, and `none` where it raises; `loads` is `none` at what is no JSON, and `read` is what the
-- compiler reads of an object.
pub record ModelServices (J W : Type 0) : Type 0 where
  pub is_space : ℕ → Bool
  pub dumps : UserPayload → Codes
  pub post : ChatBody → W → Option (Option Codes) × W
  pub loads : Codes → Option J
  pub read : J → Option RawDoc

abbrev is_nil : Codes → Bool
is_nil [] = true
is_nil (_ ∷ _) = false

abbrev pub lstrip_by : (ℕ → Bool) → Codes → Codes
lstrip_by p [] = []
lstrip_by p (c ∷ s) = if p c then lstrip_by p s else c ∷ s

abbrev pub rstrip_by : (ℕ → Bool) → Codes → Codes
rstrip_by p [] = []
rstrip_by p (c ∷ s) = let rest = rstrip_by p s in if p c && is_nil rest then [] else c ∷ rest

-- The text after a prefix that it has.
abbrev pub without_start : Codes → Codes → Codes
without_start [] s = s
without_start (p ∷ ps) [] = []
without_start (p ∷ ps) (c ∷ s) = without_start ps s

-- The text before a suffix, if it has it.
abbrev pub without_end : Codes → Codes → Codes
without_end p [] = []
without_end p (c ∷ s) = if codes_eq (c ∷ s) p then [] else c ∷ without_end p s

abbrev pub fence : Codes
fence = codes "```"

abbrev drop_json : Codes → Codes
drop_json s = if starts_with s (codes "json") then without_start (codes "json") s else s

-- The text from the first `a` on: s[s.find(a):]
abbrev pub from_first : ℕ → Codes → Option Codes
from_first a [] = none
from_first a (c ∷ s) = if c == a then some (c ∷ s) else from_first a s

-- The text up to the last `a`: s[:s.rfind(a) + 1]
abbrev pub to_last : ℕ → Codes → Option Codes
to_last a [] = none
to_last a (c ∷ s) = elim (to_last a s) [
  | some t ↦ some (c ∷ t)
  | none ↦ if c == a then some (c ∷ []) else none
]

-- text[start : end + 1], if there is a `}` behind the first `{`
unfoldable pub between_braces : Codes → Option Codes
between_braces text = elim (from_first b'{' text) [ none ↦ none | some t ↦ to_last b'}' t ]

module _ {J W : Type 0} (services : ModelServices J W) where
  open services use {is_space, loads}

  -- re.sub(r"^```(?:json)?\s*", "", text)
  abbrev pub open_fence : Codes → Codes
  open_fence s =
      if starts_with s fence then lstrip_by is_space (drop_json (without_start fence s)) else s

  -- re.sub(r"\s*```$", "", text), where the text does not end in white space
  abbrev pub close_fence : Codes → Codes
  close_fence s = if ends_with s fence then rstrip_by is_space (without_end fence s) else s

  -- The text that is parsed first: without white space around it, and without fences.
  unfoldable pub clean : Codes → Codes
  clean text =
      let s = rstrip_by is_space (lstrip_by is_space text) in
      if starts_with s fence then close_fence (open_fence s) else s

  unfoldable pub extract_json_object : Codes → Option J
  unfolding clean between_braces
  extract_json_object text = elim (loads (clean text)) [
    | some j ↦ some j
    | none ↦ elim (between_braces (clean text)) [ none ↦ none | some part ↦ loads part ]
  ]

  unfoldable pub ollama_chat : String → UserPayload → W → Asked Codes × W
  ollama_chat model payload w =
      let (answer, w') =
        services.post
          (record {
            model = model;
            messages = system ∷ user (services.dumps payload) ∷ [];
            num_predict = 1200;
          })
          w in
      elim answer [
        | none ↦ (failed http_error, w')
        | some content ↦
            let text : Codes = elim content [ none ↦ [] | some text ↦ text ] in
            if is_nil (lstrip_by is_space text)
            then (failed empty_response, w')
            else (asked text, w')
      ]

  abbrev pub read_document : Codes → Asked RawDoc
  unfolding extract_json_object
  read_document text = elim (extract_json_object text) [
    | none ↦ failed not_json
    | some j ↦ elim (services.read j) [ none ↦ failed not_object | some doc ↦ asked doc ]
  ]

  -- The model's document for a prompt and a source.
  unfoldable pub ask_model : String → String → String → Pack → W → Asked RawDoc × W
  unfolding user_payload ollama_chat extract_json_object
  ask_model prompt source_text model pack w =
      let (answer, w') = ollama_chat model (user_payload pack prompt source_text model) w in
      elim answer [ failed e ↦ (failed e, w') | asked text ↦ (read_document text, w') ]
