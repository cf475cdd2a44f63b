-- ===== src/Practice/Returned.antt =====
-- That a selection is returned when no call fails (backend/internal/careergoals/adaptive/selector.go).
use study_mate.Prelude.{
  ℕ, zero, suc, ◌≡◌, arith, refl, String, Bool, Option, none, some, List, [], ◌∷◌, ◌++◌, length,
  ◌==◌, ◌||◌, str_eq,
}
use study_mate.Exec.{ok, call, pure}
use study_mate.Exec.Calm.{Run, Run-call, Run-if, Run-pure, Run-bind, Run-attempt, Run-keep}
use study_mate.Practice.Model.{Question, Store, database, Practice, SelectionConfig, Env}
use study_mate.Practice.Queries.{
  parse_ids, weak_topics, select_by_topic, select_other, load_by_ids, wrong_answer_ids,
  resolve_subjects, no_subjects, goal_subjects_of, dropped, log_selection,
}
use study_mate.Practice.Shares.{per_topic_allocation-Balanced}
use study_mate.Practice.Selector.{
  allocate_weak, per_topic_allocation, avoided, select_topics, or_total, daily_set,
  select_for_daily, filled, select_for_weekly,
}

-- it returns, and no failing call is left ahead
abbrev pub Returns : {A : Type 0} → Practice A → Type 0
Returns m = Run (λ _. Unit) (λ _. Unit) (λ _. ⊥) m

read-Returns : {A : Type 0} (f : Store → A) → Returns (call database (λ s. (ok (f s), s)))
read-Returns f = Run-call _ _ λ s h. tt

select_by_topic-Returns :
    (draw : ℕ → ℕ) (topic : String) (bad : ℕ → Bool) (n : ℕ)
    → Returns (select_by_topic draw topic bad n)
unfolding select_by_topic
select_by_topic-Returns draw topic bad n =
    Run-if (n == 0 || str_eq topic "") (Run-pure []) (read-Returns _)

no_share : (n : ℕ) → 0 ≡ suc n → ⊥
no_share n h = omega (arith, h)

one_less : (m n : ℕ) → suc m ≡ suc n → m ≡ n
one_less m n h = omega (arith, h)

-- no topic is left without a share
length-per_topic_allocation :
    (weak_count topics : ℕ) → length (per_topic_allocation weak_count topics) ≡ topics
unfolding per_topic_allocation
length-per_topic_allocation weak_count zero = refl
length-per_topic_allocation weak_count (suc n) = (per_topic_allocation-Balanced weak_count n).1.0

select_topics-Returns :
    (env : Env) (exclude : List ℕ) (i : ℕ) (topics : List String) (shares : List ℕ)
    (selected : List Question)
    → length shares ≡ length topics
    → Returns (select_topics env exclude i topics shares selected)
unfolding select_topics
select_topics-Returns env exclude i [] shares selected enough = Run-pure selected
select_topics-Returns env exclude i (t ∷ ts) [] selected enough =
    absurd (no_share (length ts) enough)
select_topics-Returns env exclude i (t ∷ ts) (n ∷ ns) selected enough =
    Run-bind _ _ (select_by_topic-Returns (env.topic_draw i) t (avoided exclude selected) n) λ qs.
      select_topics-Returns env exclude (suc i) ts ns (selected ++ qs)
        (one_less (length ns) (length ts) enough)

select_other-Returns :
    (draw : ℕ → ℕ) (subjects : List String) (bad : ℕ → Bool) (n : ℕ)
    → Returns (select_other draw subjects bad n)
unfolding select_other
select_other-Returns draw subjects bad n = Run-if (n == 0) (Run-pure []) (read-Returns _)

goal_subjects_of-Returns : (goal : Option ℕ) → Returns (goal_subjects_of goal)
unfolding goal_subjects_of
goal_subjects_of-Returns none = Run-pure []
goal_subjects_of-Returns (some id) =
    Run-bind _ (λ found. pure (dropped found)) (Run-attempt _ (Run-keep database _ λ s h. tt))
      λ r. Run-pure (dropped r)

resolve_subjects-Returns : (cfg : SelectionConfig) → Returns (resolve_subjects cfg)
unfolding resolve_subjects
resolve_subjects-Returns cfg =
    Run-if (no_subjects cfg.subjects) (goal_subjects_of-Returns cfg.goal_id) (Run-pure cfg.subjects)

weak_topics-Returns : (id : ℕ) → Returns (weak_topics (some id))
unfolding weak_topics
weak_topics-Returns id = Run-call _ _ λ s h. tt

wrong_answer_ids-Returns : (now id days : ℕ) → Returns (wrong_answer_ids now (some id) days)
unfolding wrong_answer_ids
wrong_answer_ids-Returns now id days = Run-call _ _ λ s h. tt

load_by_ids-Returns : (draw : ℕ → ℕ) (ids : List ℕ) → Returns (load_by_ids draw ids)
unfolding load_by_ids
load_by_ids-Returns draw [] = Run-pure []
load_by_ids-Returns draw (id ∷ ids) = read-Returns _

daily_set-Returns :
    (env : Env) (cfg : SelectionConfig) (id : ℕ)
    → cfg.user_id ≡ some id
    → Returns (daily_set env cfg)
unfolding daily_set
daily_set-Returns env cfg id known =
    Run-bind (resolve_subjects cfg) _ (resolve_subjects-Returns cfg) λ subjects.
      Run-bind (weak_topics cfg.user_id) _ (rw known (weak_topics-Returns id)) λ topics.
        Run-bind _ _
          (select_topics-Returns env (parse_ids cfg.exclude_ids) 0 topics
            (per_topic_allocation
              (allocate_weak env (or_total cfg.total_questions 20)
                (or_total cfg.weak_topic_ratio 60))
              (length topics))
            [] (length-per_topic_allocation _ (length topics)))
          λ weak.
            Run-bind _ _ (select_other-Returns env.other_draw subjects _ _) λ others. Run-pure _

log_selection-Returns : Returns log_selection
unfolding log_selection
log_selection-Returns = Run-attempt _ (Run-keep database _ λ s h. tt)

select_for_daily-Returns :
    (env : Env) (cfg : SelectionConfig) (id : ℕ)
    → cfg.user_id ≡ some id
    → Returns (select_for_daily env cfg)
unfolding select_for_daily
select_for_daily-Returns env cfg id known =
    Run-bind _ _ (daily_set-Returns env cfg id known)
      λ selected. Run-bind _ _ log_selection-Returns λ logged. Run-pure selected

filled-Returns :
    (env : Env) (cfg : SelectionConfig) (id : ℕ) (selected : List Question) (n : ℕ)
    → cfg.user_id ≡ some id
    → Returns (filled env cfg selected n)
unfolding filled
filled-Returns env cfg id selected zero known = Run-pure selected
filled-Returns env cfg id selected (suc n) known =
    Run-bind _ _ (select_for_daily-Returns env _ id known) λ fill. Run-pure _

select_for_weekly-Returns :
    (env : Env) (cfg : SelectionConfig) (id : ℕ)
    → cfg.user_id ≡ some id
    → Returns (select_for_weekly env cfg)
unfolding select_for_weekly
select_for_weekly-Returns env cfg id known =
    Run-bind (wrong_answer_ids env.now cfg.user_id 7) _
      (rw known (wrong_answer_ids-Returns env.now id 7))
      λ wrong.
        Run-bind _ _ (load_by_ids-Returns env.load_draw _)
          λ reviews. Run-bind _ _ (filled-Returns env cfg id reviews _ known) λ selected. Run-pure _

-- When no call fails and the user's id is a number, SelectForDaily and SelectForWeekly return a set: every
-- topic has a share, so that the loop over the topics reads none that is not there.
pub selections-Returns :
    (env : Env) (cfg : SelectionConfig) (id : ℕ)
    → cfg.user_id ≡ some id
    → Returns (select_for_daily env cfg) × Returns (select_for_weekly env cfg)
selections-Returns env cfg id known =
    (select_for_daily-Returns env cfg id known, select_for_weekly-Returns env cfg id known)
