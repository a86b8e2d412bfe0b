-- ===== src/Prompt/System.antt =====
-- How long the system prompt is, and how it ends.
use open_pincery.Prelude.{ℕ, ◌≡◌, String, Option, none, some, ℤ, ◌++ˢ◌}
use open_pincery.Db.{World}
use open_pincery.Db.Triple.{Triple}
use open_pincery.Env.{Env}
use open_pincery.Prompt.Text.{Composed}
use open_pincery.Prompt.Cut.{Shortened, Uncuttable}
use open_pincery.Prompt.{WakePromptContext, AssembledPrompt}

-- The tables, without the count of what was asked.
abbrev pub tables : World → World
tables w = record w { tick = 0 }

-- A prompt of that text, shortened, with the canary behind it; nothing where the cut panics, which
-- is only where it falls inside a character.
pub data Marked (env : Env) (start : World) (agent_id : ℕ) (limit : ℤ) (max_prompt_chars : ℕ)
    (canary_hex : String) : Option AssembledPrompt → Type 0 where
  panicked :
      {text : String}
      → Composed env start agent_id limit text
      → Uncuttable max_prompt_chars text
      → Marked env start agent_id limit max_prompt_chars canary_hex none
  marked :
      {text body : String} {p : AssembledPrompt}
      → Composed env start agent_id limit text
      → Shortened max_prompt_chars text body
      → p.system_prompt ≡ body ++ˢ "\n\n<<canary:" ++ˢ canary_hex ++ˢ ">>"
      → Marked env start agent_id limit max_prompt_chars canary_hex (some p)

module _ (env : Env) (ctx : WakePromptContext) (start : World) where
  abbrev Unread : World → Type 0
  Unread w = tables w ≡ tables start
