-- ===== src/Practice/Queries.antt =====
-- The queries of backend/internal/careergoals/adaptive/selector.go.
use study_mate.Prelude.{
  ℕ, suc, ◌+◌, ◌-◌, ◌*◌, String, Bool, true, false, not, ◌||◌, ◌&&◌, Option, none, some, List, [],
  ◌∷◌, ◌==◌, ltb, leb, str_eq, any, find, select, take, map, sort_by, if◌then◌else◌,
}
use study_mate.Exec.{Result, ok, err, call, pure, attempt, lift, ◌>>=◌}
use study_mate.Practice.Model.{
  Question, SkillGap, Answer, Served, Store, Error, database, invalid_user, Practice,
  SelectionConfig,
}

abbrev pub is_in : List ℕ → ℕ → Bool
is_in ids id = any (λ x. x == id) ids

-- the distinct members, in some order
unfoldable pub distinct : List ℕ → List ℕ
distinct [] = []
distinct (x ∷ xs) = let rest = distinct xs in if is_in rest x then rest else x ∷ rest

-- parseIDs: a text without a number is dropped
unfoldable pub parse_ids : List (Option ℕ) → List ℕ
parse_ids [] = []
parse_ids (none ∷ ids) = parse_ids ids
parse_ids (some id ∷ ids) = id ∷ parse_ids ids

abbrev pub user_or_error : Option ℕ → Result Error ℕ
user_or_error none = err invalid_user
user_or_error (some id) = ok id

abbrev day : ℕ
day = 24 * 3600

abbrev is_within : ℕ → ℕ → ℕ → Bool
is_within now days t = ltb now (t + days * day)

-- GetRecentlySeenIDs
unfoldable pub get_recently_seen_ids : ℕ → Option ℕ → ℕ → Practice (List ℕ)
unfolding distinct
get_recently_seen_ids now user days = do
  uid ← lift (user_or_error user)
  let n = if days == 0 then 7 else days
  call database λ s. (
    ok (
        distinct (
          map (λ (r : Served). r.question_id)
            (select (λ r. r.user_id == uid && is_within now n r.created_at) s.served))),
    s,
  )

abbrev pub weak_topic_limit : ℕ
weak_topic_limit = 5

-- ORDER BY weakness_score DESC: by what is left below the greatest score
abbrev lightness : List SkillGap → SkillGap → ℕ
lightness gaps g = top gaps - g.weakness_score
  where
    top : List SkillGap → ℕ
    top [] = 0
    top (h ∷ hs) = let n = top hs in if leb n h.weakness_score then h.weakness_score else n

-- weakTopics
unfoldable pub weak_topics : Option ℕ → Practice (List String)
unfolding sort_by
weak_topics user = do
  uid ← lift (user_or_error user)
  call database λ s.
      let gaps = select (λ g. g.user_id == uid && ltb 0 g.weakness_score) s.skill_gaps in
      (
        ok (
            select (λ t. not (str_eq t ""))
              (map (λ (g : SkillGap). g.topic_name)
                (take weak_topic_limit (sort_by (lightness gaps) gaps)))),
        s,
      )

-- random rows that pass a test
abbrev pub drawn : (ℕ → ℕ) → ℕ → (Question → Bool) → Store → List Question
drawn draw limit test s = take limit (sort_by (λ q. draw q.id) (select test s.questions))

-- a column that may be null equals a text
abbrev pub is_text : Option String → String → Bool
is_text none t = false
is_text (some u) t = str_eq u t

abbrev pub is_topic : String → (ℕ → Bool) → Question → Bool
is_topic topic excluded q = q.active && is_text q.topic topic && not (excluded q.id)

-- selectByTopic
unfoldable pub select_by_topic : (ℕ → ℕ) → String → (ℕ → Bool) → ℕ → Practice (List Question)
unfolding sort_by
select_by_topic draw topic excluded limit =
    if limit == 0 || str_eq topic ""
    then pure []
    else call database λ s. (ok (drawn draw limit (is_topic topic excluded) s), s)

abbrev pub no_subjects : List String → Bool
no_subjects [] = true
no_subjects (t ∷ ts) = false

abbrev pub is_other : List String → (ℕ → Bool) → Question → Bool
is_other subjects excluded q =
    q.active
    && (no_subjects subjects || any (λ t. is_text q.subject t) subjects)
    && not (excluded q.id)

-- selectOther
unfoldable pub select_other : (ℕ → ℕ) → List String → (ℕ → Bool) → ℕ → Practice (List Question)
unfolding sort_by
select_other draw subjects excluded limit =
    if limit == 0
    then pure []
    else call database λ s. (ok (drawn draw limit (is_other subjects excluded) s), s)

abbrev pub is_listed : List ℕ → Question → Bool
is_listed ids q = q.active && is_in ids q.id

-- loadByIDs
unfoldable pub load_by_ids : (ℕ → ℕ) → List ℕ → Practice (List Question)
unfolding sort_by
load_by_ids draw [] = pure []
load_by_ids draw (id ∷ ids) =
    call database
      λ s. (ok (sort_by (λ q. draw q.id) (select (is_listed (id ∷ ids)) s.questions)), s)

-- wrongAnswerIDs
unfoldable pub wrong_answer_ids : ℕ → Option ℕ → ℕ → Practice (List ℕ)
unfolding distinct
wrong_answer_ids now user days = do
  uid ← lift (user_or_error user)
  call database λ s. (
    ok (
        distinct (
          map (λ (a : Answer). a.question_id)
            (select (λ a. a.user_id == uid && not a.is_correct && is_within now days a.submitted_at)
              s.answers))),
    s,
  )

abbrev pub subjects_or_none : Option (ℕ × List String) → List String
subjects_or_none none = []
subjects_or_none (some (id, subjects)) = subjects

abbrev pub dropped : Result Error (List String) → List String
dropped (ok ts) = ts
dropped (err e) = []

unfoldable pub goal_subjects_of : Option ℕ → Practice (List String)
goal_subjects_of none = pure []
goal_subjects_of (some id) = do
  found ←
      attempt
        (call database λ s. (ok (subjects_or_none (find (λ g. g.0 == id) s.goal_subjects)), s))
  pure (dropped found)

-- resolveSubjects: a goal that is missing or cannot be read has no subjects
unfoldable pub resolve_subjects : SelectionConfig → Practice (List String)
unfolding goal_subjects_of
resolve_subjects cfg =
    if no_subjects cfg.subjects then goal_subjects_of cfg.goal_id else pure cfg.subjects

-- logSelection; its error is dropped
unfoldable pub log_selection : Practice (Result Error Unit)
log_selection = attempt (call database λ s. (ok tt, record s { job_events = suc s.job_events }))
