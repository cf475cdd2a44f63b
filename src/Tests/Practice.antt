-- ===== src/Tests/Practice.antt =====
-- A student's sets of questions.
use study_mate.Prelude.{
  ℕ, ◌*◌, ◌/◌, ◌≡◌, refl, Bool, true, false, some, none, List, [], ◌∷◌, ◌≤◌, length,
}
use study_mate.Exec.{World, ok, call}
use study_mate.Exec.Reading.{IfOk}
use study_mate.Practice.Model.{Question, Store, SelectionConfig, Env}
use study_mate.Practice.Queries.{
  resolve_subjects, weak_topics, select_by_topic, select_other, parse_ids, log_selection,
}
use study_mate.Practice.Returned.{Returns, selections-Returns}
use study_mate.Practice.Selector.{
  per_topic_allocation, select_for_daily, select_for_weekly, or_total,
}
use study_mate.Practice.Sets.{NoDup}
use study_mate.Practice.Served.{Served, select_for_daily-Served, select_for_weekly-NoDup}
use study_mate.Practice.Shares.{sum, Balanced, per_topic_allocation-Balanced}

abbrev question : ℕ → Question
question n = record {
  id = n;
  text = "q";
  question_type = "mcq";
  topic = some "Light";
  subject = some "Physics";
  active = true;
}

abbrev school : Store
school = record {
  questions = question 1 ∷ question 2 ∷ question 3 ∷ [];
  skill_gaps = record { user_id = 7; topic_name = "Light"; weakness_score = 40 } ∷ [];
  answers = record { user_id = 7; question_id = 2; is_correct = false; submitted_at = 90 } ∷ [];
  served = [];
  goal_subjects = [];
  job_events = 0;
}

abbrev study_env : Env
study_env = record {
  now = 100;
  share_of = λ total ratio. total * ratio / 100;
  topic_draw = λ i n. n;
  other_draw = λ n. n;
  load_draw = λ n. n;
  daily_draw = λ n. n;
  weekly_draw = λ n. n;
}

abbrev two_wanted : SelectionConfig
two_wanted = record {
  user_id = some 7;
  goal_id = none;
  total_questions = 2;
  weak_topic_ratio = 50;
  exclude_ids = some 1 ∷ [];
  subjects = [];
}

abbrev school_world : List Bool → World Store
school_world faults = record { store = school; faults = faults }

school-NoDup : NoDup school.questions
unfolding NoDup
school-NoDup = (refl, (refl, (refl, tt)))

select_for_daily-Served_example :
    IfOk (Served two_wanted) (select_for_daily study_env two_wanted (school_world [])).0
select_for_daily-Served_example =
    select_for_daily-Served study_env two_wanted (school_world []) school-NoDup

daily_test :
    (select_for_daily study_env two_wanted (school_world [])).0 ≡ ok (question 2 ∷ question 3 ∷ [])
unfolding select_for_daily resolve_subjects weak_topics call select_by_topic select_other parse_ids
    log_selection
daily_test = refl

select_for_weekly-NoDup_example :
    IfOk
      (λ qs. (length qs ≤ or_total two_wanted.total_questions 40) × NoDup qs)
      (select_for_weekly study_env two_wanted (school_world (false ∷ false ∷ []))).0
select_for_weekly-NoDup_example =
    select_for_weekly-NoDup study_env two_wanted (school_world (false ∷ false ∷ [])) school-NoDup

per_topic_allocation-Balanced_example :
    let shares = per_topic_allocation 12 5 in (sum shares ≡ 12) × Balanced 5 (12 / 5) shares
per_topic_allocation-Balanced_example = per_topic_allocation-Balanced 12 4

shares_test : per_topic_allocation 12 5 ≡ 3 ∷ 3 ∷ 2 ∷ 2 ∷ 2 ∷ []
unfolding per_topic_allocation
shares_test = refl

selections-Returns_example :
    Returns (select_for_daily study_env two_wanted)
    × Returns (select_for_weekly study_env two_wanted)
selections-Returns_example = selections-Returns study_env two_wanted 7 refl
