-- ===== src/Polygon/Statement.antt =====
-- polygon-service/src/services/statement.service.ts: what is taken from the statement's HTML. `select` and
-- `sources` are the queries that cheerio answers.
use judge_self.Common.{String, Bool, Option, none, some, List, ◌==◌, ◌||◌, any, keep, map}
use judge_self.Common.Number.{trim, trim_start, trim_end}
use judge_self.Polygon.Disk.{Disk, Task, give, read_file, ◌>>=◌}

-- `$(selector).html()` of a text, and the `src` of the elements of a selector that have one.
pub record Cheerio : Type 0 where
  pub select : String → String → Option String
  pub sources : String → String → List String

pub record Image : Type 0 where
  pub name : String
  pub img_src : String

pub record StatementData : Type 0 where
  pub statement : String
  pub input_statement : String
  pub output_statement : String
  pub examples : String
  pub notes : String
  pub images : List Image

-- `?.trim() || ""`
abbrev pub trimmed : Option String → String
trimmed none = ""
trimmed (some html) = trim html

-- `fs.access`
abbrev pub is_there : Disk → String → Bool
is_there d path = any (λ e. e.0 == path) d.files || any (λ e. e.0 == path) d.listings

module _ (join : String → String → String) (cheerio : Cheerio) where
  abbrev pub html_dir : String → String
  html_dir work_dir = join work_dir "statements/.html/english"

  -- The images that are there.
  abbrev pub valid_images : String → Disk → List String → List Image
  valid_images work_dir d images =
      map (λ src. record { name = src; img_src = join (html_dir work_dir) src })
        (keep (λ src. is_there d (join (html_dir work_dir) src)) images)

  abbrev pub statement_of : String → String → Disk → StatementData
  statement_of work_dir html d = record {
    statement = trimmed (cheerio.select html ".legend");
    input_statement = trimmed (cheerio.select html ".input-specification");
    output_statement = trimmed (cheerio.select html ".output-specification");
    examples = trimmed (cheerio.select html ".sample-tests");
    notes = trimmed (cheerio.select html ".note");
    images = valid_images work_dir d (cheerio.sources html "img.tex-graphics");
  }

  unfoldable pub extract_problem_statement : String → Task StatementData
  unfolding trim_start trim_end
  extract_problem_statement work_dir = do
    html ← read_file (join (html_dir work_dir) "problem.html")
    λ w. give (statement_of work_dir html w.disk) w
