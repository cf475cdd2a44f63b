-- ===== src/Practice/Model.antt =====
-- The tables and the configuration of backend/internal/careergoals/adaptive/selector.go. A text that
-- holds a number is kept as what strconv.ParseInt finds in it. A weakness is a whole number of
-- hundredths, as is the share of weak topics. A total, a share or a number of days that is not positive
-- is zero.
use study_mate.Prelude.{ℕ, String, Bool, Option, List}
use study_mate.Exec.{Act}

-- a row of questions with its chapter's title and its book's subject, if it has them; a set that is
-- sent shows an empty text for one that is missing
pub record Question : Type 0 where
  pub id : ℕ
  pub text : String
  pub question_type : String
  pub topic : Option String
  pub subject : Option String
  pub active : Bool

pub record SkillGap : Type 0 where
  pub user_id : ℕ
  pub topic_name : String
  pub weakness_score : ℕ

-- an answer of a submitted attempt, and a question of a daily set
pub record Answer : Type 0 where
  pub user_id : ℕ
  pub question_id : ℕ
  pub is_correct : Bool
  pub submitted_at : ℕ

pub record Served : Type 0 where
  pub user_id : ℕ
  pub question_id : ℕ
  pub created_at : ℕ

pub record Store : Type 0 where
  pub questions : List Question
  pub skill_gaps : List SkillGap
  pub answers : List Answer
  pub served : List Served
  pub goal_subjects : List (ℕ × List String)
  pub job_events : ℕ

pub data Error : Type 0 where
  database invalid_user index_out_of_range : Error

abbrev pub Practice : Type 0 → Type 0
Practice A = Act Store Error A

pub record SelectionConfig : Type 0 where
  pub user_id : Option ℕ
  pub goal_id : Option ℕ
  pub total_questions : ℕ
  pub weak_topic_ratio : ℕ
  pub exclude_ids : List (Option ℕ)
  pub subjects : List String

-- the clock, the product of a total and a share cut to a whole number, and the numbers by which random()
-- and the shuffles order the rows of a topic, of the other questions, of a set and of a review
pub record Env : Type 0 where
  pub now : ℕ
  pub share_of : ℕ → ℕ → ℕ
  pub topic_draw : ℕ → ℕ → ℕ
  pub other_draw : ℕ → ℕ
  pub load_draw : ℕ → ℕ
  pub daily_draw : ℕ → ℕ
  pub weekly_draw : ℕ → ℕ
