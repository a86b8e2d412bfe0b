-- ===== src/Prompt/Text.antt =====
-- What the text of the system prompt is made of.
use mathlib.Core.List.{reverse}
use open_pincery.Prelude.{
  ℕ, zero, suc, ◌≤◌, ◌≡◌, refl, ap, sym, subst, ◌⊎◌, inl, inr, String, Option, none, some, List, [],
  ◌∷◌, ◌++◌, ℤ, pos, ◌++ˢ◌, ltb, length, Bool-cases, arith,
}
use open_pincery.Env.{Env}
use open_pincery.Db.{World, AgentProjection, WakeSummary}
use open_pincery.Maintenance.{newer, latest}
use open_pincery.Prompt.{take, summary_lines, summaries_text, projection_text}

-- The text of the prompt, before it is shortened: the template, the time, the identity and the work
-- list, and one line for each summary, the oldest first.
abbrev pub identity_part : Option AgentProjection → String
identity_part none = ""
identity_part (some p) = "\n\n## Identity\n" ++ˢ p.identity ++ˢ "\n\n## Work List\n" ++ˢ p.work_list

pub data SummaryLines : List WakeSummary → String → Type 0 where
  no_line : SummaryLines [] ""
  line :
      {s : WakeSummary} {rest : List WakeSummary} {lines : String}
      → SummaryLines rest lines
      → SummaryLines (s ∷ rest) ("\n- " ++ˢ s.summary ++ˢ lines)

pub data SummaryPart : List WakeSummary → String → Type 0 where
  no_summaries : SummaryPart [] ""
  some_summaries :
      {s : WakeSummary} {rest : List WakeSummary} {lines : String}
      → SummaryLines (s ∷ rest) lines
      → SummaryPart (s ∷ rest) ("\n\n## Recent Wake Summaries" ++ˢ lines)

-- The first rows of a table, so many of them if there are.
pub record First (count : ℕ) (all shown : List WakeSummary) : Type 0 where
  pub others : List WakeSummary
  pub split : all ≡ shown ++ others
  pub full : (length shown ≡ count) ⊎ ((others ≡ []) × (length shown ≤ count))

-- No row has a higher version.
pub data AtMost (version : ℕ) : List AgentProjection → Type 0 where
  most_none : AtMost version []
  most_row :
      {p : AgentProjection} {ps : List AgentProjection}
      → p.version ≤ version
      → AtMost version ps
      → AtMost version (p ∷ ps)

-- The row with the highest version; none of no rows.
pub data Highest (rows : List AgentProjection) : Option AgentProjection → Type 0 where
  no_rows : rows ≡ [] → Highest rows none
  highest :
      {p : AgentProjection} (before after : List AgentProjection)
      → rows ≡ before ++ (p ∷ after)
      → AtMost p.version rows
      → Highest rows (some p)

-- The text of the server's time, asked at some tick.
abbrev pub Clock : Env → String → Type 0
Clock env now = (n : ℕ) × (now ≡ env.time_text (env.now n))

pub record Composed (env : Env) (start : World) (agent_id : ℕ) (limit : ℤ) (text : String)
    : Type 0 where
  pub template : String
  pub now : String
  pub clock : Clock env now
  pub summary_part : String
  pub count : ℕ
  pub shown : List WakeSummary
  pub projection : Option AgentProjection
  pub asked : limit ≡ pos count
  pub found : start.templates "wake_system_prompt" ≡ some template
  pub first : First count (start.summaries agent_id) shown
  pub listed : SummaryPart (reverse shown) summary_part
  pub latest_version : Highest (start.projections agent_id) projection
  pub composed :
      text ≡ template ++ˢ "\n\nCurrent time: " ++ˢ now ++ˢ identity_part projection ++ˢ summary_part

summary_lines-SummaryLines : (rows : List WakeSummary) → SummaryLines rows (summary_lines rows)
unfolding summary_lines
summary_lines-SummaryLines [] = no_line
summary_lines-SummaryLines (s ∷ rest) = line (summary_lines-SummaryLines rest)

summaries_text-SummaryPart : (rows : List WakeSummary) → SummaryPart rows (summaries_text rows)
summaries_text-SummaryPart [] = no_summaries
summaries_text-SummaryPart (s ∷ rest) = some_summaries (summary_lines-SummaryLines (s ∷ rest))

identity_part-eq : (proj : Option AgentProjection) → projection_text proj ≡ identity_part proj
identity_part-eq none = refl
identity_part-eq (some p) = refl

take-First : (n : ℕ) (rows : List WakeSummary) → First n rows (take n rows)
unfolding take
take-First zero rows = record { others = rows; split = refl; full = inl refl }
take-First (suc n) [] = record { others = []; split = refl; full = inr (refl, omega arith) }
take-First (suc n) (x ∷ xs) =
    let tail = take-First n xs in
    record { others = tail.others; split = ap (λ l. x ∷ l) tail.split; full = more tail.full }
  where
    more :
        {others : List WakeSummary}
        → (length (take n xs) ≡ n) ⊎ ((others ≡ []) × (length (take n xs) ≤ n))
        → (length (x ∷ take n xs) ≡ suc n) ⊎ ((others ≡ []) × (length (x ∷ take n xs) ≤ suc n))
    more (inl e) = inl (omega (arith, e))
    more (inr (none_left, le)) = inr (none_left, omega (arith, le))

AtMost-le : {m n : ℕ} {rows : List AgentProjection} → m ≤ n → AtMost m rows → AtMost n rows
AtMost-le le most_none = most_none
AtMost-le le (most_row h rest) = most_row (omega (arith, h, le)) (AtMost-le le rest)

latest-Highest : (rows : List AgentProjection) → Highest rows (latest rows)
unfolding latest
latest-Highest [] = no_rows refl
latest-Highest (p ∷ ps) = step (latest ps) (latest-Highest ps)
  where
    step : (o : Option AgentProjection) → Highest ps o → Highest (p ∷ ps) (some (newer p o))
    step none (no_rows e) =
        highest [] ps refl (most_row (omega arith) (subst (AtMost p.version) (sym e) most_none))
    step (some q) (highest before after e most) = elim (Bool-cases (ltb p.version q.version)) [
      | inl lt ↦
          rw lt (highest (p ∷ before) after (ap (λ l. p ∷ l) e) (most_row (ground arith) most))
      | inr ge ↦ rw ge (highest [] ps refl (most_row (omega arith) (AtMost-le (ground arith) most)))
    ]

module _ (start : World) where
  -- The summaries that a query gave.
  abbrev pub Listed : ℕ → ℤ → List WakeSummary → Type 0
  Listed agent_id limit rows =
      (count : ℕ) × (limit ≡ pos count) × (rows ≡ take count (start.summaries agent_id))

module _ (env : Env) (start : World) where
  -- What the queries gave makes the text.
  pub text-Composed :
      (agent_id : ℕ) (limit : ℤ) (template now : String) (proj : Option AgentProjection)
      (rows : List WakeSummary)
      → start.templates "wake_system_prompt" ≡ some template
      → Clock env now
      → proj ≡ latest (start.projections agent_id)
      → Listed start agent_id limit rows
      → Composed env start agent_id limit (
          template
          ++ˢ "\n\nCurrent time: "
          ++ˢ now
          ++ˢ projection_text proj
          ++ˢ summaries_text (reverse rows))
  text-Composed agent_id limit template now proj rows found clock same (count, asked, listed) =
      record {
        template = template;
        now = now;
        clock = clock;
        summary_part = summaries_text (reverse rows);
        count = count;
        asked = asked;
        found = found;
        shown = rows;
        projection = proj;
        first = subst (First count (start.summaries agent_id)) (sym listed) (take-First count _);
        listed = summaries_text-SummaryPart (reverse rows);
        latest_version = subst (Highest (start.projections agent_id)) (sym same) (latest-Highest _);
        composed =
            ap
              (λ t.
                template ++ˢ "\n\nCurrent time: " ++ˢ now ++ˢ t ++ˢ summaries_text (reverse rows))
              (identity_part-eq proj);
      }
