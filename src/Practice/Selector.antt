-- ===== src/Practice/Selector.antt =====
-- SelectForDaily and SelectForWeekly (backend/internal/careergoals/adaptive/selector.go).
use study_mate.Prelude.{
  ℕ, zero, suc, ◌-◌, ◌/◌, ◌%◌, String, Bool, ◌||◌, Option, some, List, [], ◌∷◌, ◌++◌, ◌==◌, ltb,
  any, take, length, sort_by, if◌then◌else◌,
}
use study_mate.Exec.{pure, raise, ◌>>=◌}
use study_mate.Practice.Model.{index_out_of_range, Question, Practice, SelectionConfig, Env}
use study_mate.Practice.Queries.{
  is_in, parse_ids, weak_topics, select_by_topic, select_other, load_by_ids, wrong_answer_ids,
  resolve_subjects, log_selection,
}

-- allocateWeak; a share above one is one
unfoldable pub allocate_weak : Env → ℕ → ℕ → ℕ
allocate_weak env total ratio =
    if total == 0 then 0 else env.share_of total (if ltb 100 ratio then 100 else ratio)

-- the share of the topic at `i`
abbrev pub topic_share : ℕ → ℕ → ℕ → ℕ
topic_share base rem i = if ltb i rem then suc base else base

unfoldable pub shares_from : ℕ → ℕ → ℕ → ℕ → List ℕ
shares_from base rem i zero = []
shares_from base rem i (suc n) = topic_share base rem i ∷ shares_from base rem (suc i) n

unfoldable pub zeros : ℕ → List ℕ
zeros zero = []
zeros (suc n) = 0 ∷ zeros n

-- perTopicAllocation
unfoldable pub per_topic_allocation : ℕ → ℕ → List ℕ
unfolding shares_from zeros
per_topic_allocation weak_count zero = []
per_topic_allocation weak_count (suc n) =
    if weak_count == 0
    then zeros (suc n)
    else shares_from (weak_count / suc n) (weak_count % suc n) 0 (suc n)

abbrev pub has_question : List Question → ℕ → Bool
has_question qs id = any (λ q. q.id == id) qs

-- mergeSets of the excluded ids and those selected so far
abbrev pub avoided : List ℕ → List Question → ℕ → Bool
avoided exclude selected id = is_in exclude id || has_question selected id

-- the loop over the weak topics; to read a share that is not there is a panic of Go, an error here
unfoldable pub select_topics :
    Env → List ℕ → ℕ → List String → List ℕ → List Question → Practice (List Question)
select_topics env exclude i [] shares selected = pure selected
select_topics env exclude i (t ∷ ts) [] selected = raise index_out_of_range
select_topics env exclude i (t ∷ ts) (n ∷ ns) selected = do
  qs ← select_by_topic (env.topic_draw i) t (avoided exclude selected) n
  select_topics env exclude (suc i) ts ns (selected ++ qs)

abbrev pub or_total : ℕ → ℕ → ℕ
or_total n d = if n == 0 then d else n

-- the shuffle, and the cut to the total
unfoldable pub arranged : (ℕ → ℕ) → ℕ → List Question → List Question
unfolding sort_by
arranged draw total qs = take total (sort_by (λ q. draw q.id) qs)

-- SelectForDaily up to its log
unfoldable pub daily_set : Env → SelectionConfig → Practice (List Question)
unfolding allocate_weak per_topic_allocation select_topics arranged
daily_set env cfg = do
  let total = or_total cfg.total_questions 20
  subjects ← resolve_subjects cfg
  let exclude = parse_ids cfg.exclude_ids
  topics ← weak_topics cfg.user_id
  weak ←
      select_topics env exclude 0 topics
        (per_topic_allocation (allocate_weak env total (or_total cfg.weak_topic_ratio 60))
          (length topics))
        []
  others ← select_other env.other_draw subjects (avoided exclude weak) (total - length weak)
  pure (arranged env.daily_draw total (weak ++ others))

-- SelectForDaily
unfoldable pub select_for_daily : Env → SelectionConfig → Practice (List Question)
unfolding daily_set
select_for_daily env cfg = do selected ← daily_set env cfg; logged ← log_selection; pure selected

abbrev pub weekly_review_cap : ℕ
weekly_review_cap = 10

-- the loop of SelectForWeekly that leaves out what is there already
unfoldable pub add_new : List Question → List Question → List Question
add_new selected [] = selected
add_new selected (q ∷ qs) =
    add_new (if has_question selected q.id then selected else selected ++ (q ∷ [])) qs

abbrev pub ids_of : List Question → List (Option ℕ)
ids_of [] = []
ids_of (q ∷ qs) = some q.id ∷ ids_of qs

unfoldable pub filled : Env → SelectionConfig → List Question → ℕ → Practice (List Question)
unfolding select_for_daily add_new
filled env cfg selected zero = pure selected
filled env cfg selected (suc n) = do
  fill ←
      select_for_daily env
        (record cfg { total_questions = suc n; exclude_ids = cfg.exclude_ids ++ ids_of selected })
  pure (add_new selected fill)

-- SelectForWeekly
unfoldable pub select_for_weekly : Env → SelectionConfig → Practice (List Question)
unfolding filled arranged
select_for_weekly env cfg = do
  let total = or_total cfg.total_questions 40
  wrong ← wrong_answer_ids env.now cfg.user_id 7
  reviews ← load_by_ids env.load_draw (take weekly_review_cap wrong)
  selected ← filled env cfg reviews (total - length reviews)
  pure (arranged env.weekly_draw total selected)
